-- ===== src/Server/Invariant/Stored.antt =====
-- What the database holds of a community's members and roles, and that it stays through the
-- statements on other tables (the load functions of crates/rekindle-server/src/community_host.rs).
use rekindle.Base.{
  ℕ, Bool, true, false, String, List, [], ◌∷◌, map, some, any, all, ◌≡◌, refl, sym, ◌∙◌, arith,
  Option-cases, inl, inr,
}
use mathlib.Core.Path.{subst}
use mathlib.Core.Option.{some-injective}
use rekindle.Base.Distinct.{Distinct}
use rekindle.Permissions.{RoleDefinition, role_everyone_id}
use rekindle.Server.State.{ServerMember}
use rekindle.Server.Store.{Database, Statement, attempt, insert_default_role}
use rekindle.Server.Core.{Env, Server}
use rekindle.Server.Roles.{has_id, holds}
use rekindle.Server.Hosting.{insert_roles}
use rekindle.Server.Loading.{
  Queries, MemberRow, loaded_member, load_members_from_db, add_roles, add_timeouts,
}
use rekindle.Server.Invariant.{same_member, same_role}
use rekindle.Server.Invariant.Loaded.{
  Covered, add_roles-Distinct, add_timeouts-Distinct, add_timeouts-holds, loaded-holds,
}

-- Statements that leave the members and the roles of members alone, and those that leave the
-- definitions of roles alone too.
abbrev pub spares_members : Statement → Bool
spares_members (Statement.insert_default_role cid r) = true
spares_members (Statement.insert_hosted cid key owner name at) = true
spares_members (Statement.replace_mek cid generation bytes at) = true
spares_members _ = false

abbrev pub spares_roles : Statement → Bool
spares_roles (Statement.insert_hosted cid key owner name at) = true
spares_roles (Statement.replace_mek cid generation bytes at) = true
spares_roles _ = false

-- A statement on one table leaves the rows of the others as they are.
pub record IsSeparate {D : Database} (Q : Queries D) : Type 0 where
  pub members :
      (st : Statement) (db db' : D.Db) (cid : String)
      → spares_members st ≡ true
      → D.execute st db ≡ some db'
      → Q.member_rows db' cid ≡ Q.member_rows db cid
  pub member_roles :
      (st : Statement) (db db' : D.Db) (cid : String)
      → spares_members st ≡ true
      → D.execute st db ≡ some db'
      → Q.member_role_rows db' cid ≡ Q.member_role_rows db cid
  pub roles :
      (st : Statement) (db db' : D.Db) (cid : String)
      → spares_roles st ≡ true
      → D.execute st db ≡ some db'
      → Q.role_rows db' cid ≡ Q.role_rows db cid

-- What the database holds of a community's members: no key twice, and for each a row for @everyone.
pub record MembersStored {D : Database} (Q : Queries D) (cid : String) (db : D.Db) : Type 0 where
  pub distinct :
      (rows : List MemberRow)
      → Q.member_rows db cid ≡ some rows
      → Distinct same_member (map loaded_member rows)
  pub covered :
      (rows : List MemberRow) (roles : List (String × ℕ))
      → Q.member_rows db cid ≡ some rows
      → Q.member_role_rows db cid ≡ some roles
      → Covered role_everyone_id roles rows

-- No id twice among roles, and @everyone among them.
abbrev pub RolesValid : List RoleDefinition → Type 0
RolesValid rs = Distinct same_role rs × (any (has_id role_everyone_id) rs ≡ true)

-- Its members, and its roles, if it has any.
pub record IsStored {D : Database} (Q : Queries D) (cid : String) (db : D.Db) : Type 0 where
  pub members : MembersStored Q cid db
  pub roles :
      (r : RoleDefinition) (rs : List RoleDefinition)
      → Q.role_rows db cid ≡ some (r ∷ rs)
      → RolesValid (r ∷ rs)

-- The same members are loaded from two databases.
abbrev pub SameMembers : {D : Database} → Queries D → String → D.Db → D.Db → Type 0
SameMembers Q cid db db' =
    (Q.member_rows db' cid ≡ Q.member_rows db cid)
    × (Q.member_role_rows db' cid ≡ Q.member_role_rows db cid)

module _ {D : Database} (Q : Queries D) (sep : IsSeparate Q) (cid : String) where
  members_spared :
      (st : Statement) (db : D.Db)
      → spares_members st ≡ true
      → SameMembers Q cid db (attempt D st db)
  unfolding attempt
  members_spared st db h = elim (Option-cases (D.execute st db)) [
    | inl e ↦ rw (e, attempt) (refl, refl)
    | inr (db', e) ↦
        rw (e, attempt) (sep.members st db db' cid h e, sep.member_roles st db db' cid h e)
  ]

  roles_spared :
      (st : Statement) (db : D.Db)
      → spares_roles st ≡ true
      → Q.role_rows (attempt D st db) cid ≡ Q.role_rows db cid
  unfolding attempt
  roles_spared st db h = elim (Option-cases (D.execute st db)) [
    | inl e ↦ rw (e, attempt) refl
    | inr (db', e) ↦ rw (e, attempt) (sep.roles st db db' cid h e)
  ]

  pub insert_roles-SameMembers :
      (rs : List RoleDefinition) (s : Server D)
      → SameMembers Q cid s.db ((insert_roles cid rs s).0).db
        × ((insert_roles cid rs s).0.hosted ≡ s.hosted)
  unfolding insert_roles
  insert_roles-SameMembers [] s = ((refl, refl), refl)
  insert_roles-SameMembers (r ∷ rs) s =
      elim (Option-cases (D.execute (insert_default_role cid r) s.db)) [
        | inl e ↦ rw (e, insert_roles) ((refl, refl), refl)
        | inr (db', e) ↦
            rw (e, insert_roles)
              (let (rest, kept) = insert_roles-SameMembers rs (record s { db = db' }) in
                (
                  (
                    rest.0 ∙ sep.members _ s.db db' cid refl e,
                    rest.1 ∙ sep.member_roles _ s.db db' cid refl e,
                  ),
                  kept,
                ))
      ]

  pub MembersStored-Same :
      (db db' : D.Db) → SameMembers Q cid db db' → MembersStored Q cid db → MembersStored Q cid db'
  MembersStored-Same db db' same h = record {
    distinct = λ rows e. h.distinct rows (sym same.0 ∙ e);
    covered = λ rows roles e f. h.covered rows roles (sym same.0 ∙ e) (sym same.1 ∙ f);
  }

  -- A statement on another table.
  pub IsStored-attempt :
      (st : Statement) (db : D.Db)
      → spares_members st ≡ true
      → spares_roles st ≡ true
      → IsStored Q cid db
      → IsStored Q cid (attempt D st db)
  IsStored-attempt st db m r h = record {
    members = MembersStored-Same db (attempt D st db) (members_spared st db m) h.members;
    roles = λ x xs e. h.roles x xs (sym (roles_spared st db r) ∙ e);
  }

  pub loaded-IsValid :
      (env : Env) (db : D.Db) (members : List ServerMember)
      → MembersStored Q cid db
      → load_members_from_db Q env db cid ≡ some members
      → Distinct same_member members × (all (holds role_everyone_id) members ≡ true)
  unfolding load_members_from_db
  loaded-IsValid env db members h e = elim (Option-cases (Q.member_rows db cid)) [
    | inl a ↦ ground (arith, a, e)
    | inr (rows, a) ↦ elim (Option-cases (Q.member_role_rows db cid)) [
      | inl c ↦ ground (arith, a, c, e)
      | inr (roles, c) ↦ elim (Option-cases (Q.timeout_rows db cid)) [
        | inl t ↦ ground (arith, a, c, t, e)
        | inr (timeouts, t) ↦
            let made : add_timeouts env.now timeouts (add_roles roles (map loaded_member rows))
                ≡ members =
              some-injective _ _ (rw (a, c, t) at e) in
            let d = h.distinct rows a in
            subst (λ ms. Distinct same_member ms × (all (holds role_everyone_id) ms ≡ true)) made
              (
                add_timeouts-Distinct env.now timeouts _ (add_roles-Distinct roles _ d),
                add_timeouts-holds role_everyone_id env.now timeouts _
                    (loaded-holds role_everyone_id roles rows d (h.covered rows roles a c)),
              )
      ]
    ]
  ]
