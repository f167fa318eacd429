-- ===== src/Server/Store/Laws.antt =====
-- What the server relies on of SQLite: a table with a primary key holds a row once `INSERT OR
-- REPLACE` has put it there, no longer holds it after `DELETE`, and keeps its other rows.
use rekindle.Base.{ℕ, String, Bool, true, false, str_eq, ◌&&◌, ◌≡◌, some}
use rekindle.Server.Store.{Database, Statement, replace_ban, delete_ban}

-- Deleting the row lifts a ban, and so does deleting its community's row in `hosted_communities`, by
-- `ON DELETE CASCADE` (crates/rekindle-server/src/db.rs); no other statement does.
abbrev pub lifts_ban : Statement → String → String → Bool
lifts_ban (Statement.delete_ban c q) cid p = str_eq c cid && str_eq q p
lifts_ban (Statement.delete_hosted c) cid p = str_eq c cid
lifts_ban _ cid p = false

pub record IsLawful (D : Database) : Type 0 where
  pub banned-replace_ban :
      (cid p name : String) (at : ℕ) (db db' : D.Db)
      → D.execute (replace_ban cid p name at) db ≡ some db'
      → D.banned db' cid p ≡ true
  pub banned-delete_ban :
      (cid p : String) (db db' : D.Db)
      → D.execute (delete_ban cid p) db ≡ some db'
      → D.banned db' cid p ≡ false
  pub banned-execute :
      (cid p : String) (st : Statement) (db db' : D.Db)
      → lifts_ban st cid p ≡ false
      → D.execute st db ≡ some db'
      → D.banned db cid p ≡ true
      → D.banned db' cid p ≡ true
