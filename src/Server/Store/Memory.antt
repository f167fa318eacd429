-- ===== src/Server/Store/Memory.antt =====
-- A database in memory: the log of the statements, newest first. It shows that the laws can hold,
-- and runs the examples.
use rekindle.Base.{
  ℕ, ltb, zero, suc, if◌then◌else◌, String, str_eq, eq_iff, Bool, true, false, ◌&&◌, ◌||◌, ◌≡◌,
  List, [], ◌∷◌, Option, none, some, arith,
}
use mathlib.Core.Option.{some-injective}
use mathlib.Core.Path.{subst}
use rekindle.Server.Protocol.{ChannelMessageDto}
use rekindle.Server.Store.{Database, Statement, replace_ban, delete_ban}
use rekindle.Server.Store.Laws.{IsLawful, lifts_ban}

unfoldable pub is_banned : List Statement → String → String → Bool
is_banned [] cid p = false
is_banned (Statement.replace_ban c q name at ∷ log) cid p =
    (str_eq c cid && str_eq q p) || is_banned log cid p
is_banned (Statement.delete_ban c q ∷ log) cid p =
    if str_eq c cid && str_eq q p then false else is_banned log cid p
is_banned (Statement.delete_hosted c ∷ log) cid p =
    if str_eq c cid then false else is_banned log cid p
is_banned (st ∷ log) cid p = is_banned log cid p

older : Option ℕ → ℕ → Bool
older none at = true
older (some before) at = ltb at before

unfoldable pub rows : List Statement → String → String → Option ℕ → ℕ → List ChannelMessageDto
unfolding older
rows log cid ch before zero = []
rows [] cid ch before (suc limit) = []
rows (Statement.insert_message c h sender text gen at ∷ log) cid ch before (suc limit) =
    let rest = rows log cid ch before limit in
    let skip = rows log cid ch before (suc limit) in
    if str_eq c cid && str_eq h ch && older before at
    then (record {
      sender_pseudonym = sender;
      ciphertext = text;
      mek_generation = gen;
      timestamp = at;
    })
      ∷ rest
    else skip
rows (st ∷ log) cid ch before (suc limit) = rows log cid ch before (suc limit)

abbrev pub memory : Database
memory = record {
  Db = List Statement;
  execute = λ st log. some (st ∷ log);
  banned = is_banned;
  query_messages = λ log cid ch before limit. some (rows log cid ch before limit);
  query_bans = λ log cid. some [];
}

replaced :
    (cid p name : String) (at : ℕ) (log : List Statement)
    → is_banned (replace_ban cid p name at ∷ log) cid p ≡ true
unfolding is_banned
replaced cid p name at log = ground (arith, eq_iff cid cid, eq_iff p p)

deleted : (cid p : String) (log : List Statement) → is_banned (delete_ban cid p ∷ log) cid p ≡ false
unfolding is_banned
deleted cid p log = ground (arith, eq_iff cid cid, eq_iff p p)

kept :
    (cid p : String) (st : Statement) (log : List Statement)
    → lifts_ban st cid p ≡ false
    → is_banned log cid p ≡ true
    → is_banned (st ∷ log) cid p ≡ true
unfolding is_banned
kept cid p (Statement.replace_ban c q name at) log other h = ground arith
kept cid p (Statement.delete_ban c q) log other h = ground arith
kept cid p (Statement.delete_hosted c) log other h = ground arith
kept cid p _ log other h = h

pub memory-IsLawful : IsLawful memory
memory-IsLawful = record {
  banned-execute = λ cid p st db db' other e h.
      subst (λ d. is_banned d cid p ≡ true) (some-injective _ db' e) (kept cid p st db other h);
  banned-replace_ban = λ cid p name at db db' e.
      subst (λ d. is_banned d cid p ≡ true) (some-injective _ db' e) (replaced cid p name at db);
  banned-delete_ban = λ cid p db db' e.
      subst (λ d. is_banned d cid p ≡ false) (some-injective _ db' e) (deleted cid p db);
}
