-- ===== src/Server/Invariant/Loaded.antt =====
-- The members that are loaded from the rows of the database.
use rekindle.Base.{
  ℕ, ◌==◌, ltb, Bool, true, false, ◌&&◌, ◌||◌, String, str_eq, eq_iff, List, [], ◌∷◌, map, any, all,
  All, update_first, ◌≡◌, refl, arith, Bool-cases, inl, inr,
}
use rekindle.Base.Distinct.{Distinct, Distinct-update_first, any-append}
use rekindle.Server.State.{ServerMember}
use rekindle.Server.Guards.{is_member}
use rekindle.Server.Roles.{holds}
use rekindle.Server.Invariant.{same_member}
use rekindle.Server.Invariant.Lists.{all-update_first}
use rekindle.Server.Loading.{MemberRow, loaded_member, add_roles, add_timeouts, push_role, time_out}

-- Some row gives a member the role.
abbrev pub gives : ℕ → List (String × ℕ) → String → Bool
gives id roles key = any (λ (r : String × ℕ). str_eq key r.0 && (r.1 == id)) roles

pub add_roles-Distinct :
    (roles : List (String × ℕ)) (ms : List ServerMember)
    → Distinct same_member ms
    → Distinct same_member (add_roles roles ms)
add_roles-Distinct [] ms d = d
add_roles-Distinct ((key, id) ∷ roles) ms d = add_roles-Distinct roles _ (
    Distinct-update_first (push_role id) same_member (λ a. refl) (λ a b. refl) (is_member key) ms d)

pub add_timeouts-Distinct :
    (now : ℕ) (rows : List (String × ℕ)) (ms : List ServerMember)
    → Distinct same_member ms
    → Distinct same_member (add_timeouts now rows ms)
add_timeouts-Distinct now [] ms d = d
add_timeouts-Distinct now ((key, until) ∷ rows) ms d = elim (Bool-cases (ltb now until)) [
  | inl later ↦ rw later (
      add_timeouts-Distinct now rows _ (
        Distinct-update_first (time_out until) same_member (λ a. refl) (λ a b. refl) (is_member key)
          ms d))
  | inr over ↦ rw over (add_timeouts-Distinct now rows ms d)
]

pub add_timeouts-holds :
    (id now : ℕ) (rows : List (String × ℕ)) (ms : List ServerMember)
    → all (holds id) ms ≡ true
    → all (holds id) (add_timeouts now rows ms) ≡ true
add_timeouts-holds id now [] ms h = h
add_timeouts-holds id now ((key, until) ∷ rows) ms h = elim (Bool-cases (ltb now until)) [
  | inl later ↦ rw later (
      add_timeouts-holds id now rows _
        (all-update_first (holds id) (time_out until) (λ m e. e) (is_member key) ms h))
  | inr over ↦ rw over (add_timeouts-holds id now rows ms h)
]

module _ (id : ℕ) where
  -- A member holds the role, or a row gives it.
  abbrev Due : List (String × ℕ) → ServerMember → Type 0
  Due roles m = (holds id m || gives id roles m.pseudonym_key_hex) ≡ true

  -- Members with another key than the row's wait for the other rows.
  Due-others :
      (key : String) (role : ℕ) (roles : List (String × ℕ)) (m : ServerMember)
      (ms : List ServerMember)
      → str_eq m.pseudonym_key_hex key ≡ true
      → any (same_member m) ms ≡ false
      → All (Due ((key, role) ∷ roles)) ms
      → All (Due roles) ms
  Due-others key role roles m [] is others h = tt
  Due-others key role roles m (x ∷ ms) is others h = (
    ground (
      arith,
      h.0,
      others,
      is,
      eq_iff m.pseudonym_key_hex key,
      eq_iff x.pseudonym_key_hex m.pseudonym_key_hex,
      eq_iff x.pseudonym_key_hex key,
    ),
    Due-others key role roles m ms is (ground (arith, others)) h.1,
  )

  Due-update :
      (key : String) (role : ℕ) (roles : List (String × ℕ)) (ms : List ServerMember)
      → Distinct same_member ms
      → All (Due ((key, role) ∷ roles)) ms
      → All (Due roles) (update_first (is_member key) (push_role role) ms)
  Due-update key role roles [] d h = tt
  Due-update key role roles (m ∷ ms) d h = elim (Bool-cases (is_member key m)) [
    | inl is ↦ rw is (
      ground (arith, h.0, any-append (λ r. r == id) m.role_ids (role ∷ [])),
      Due-others key role roles m ms is d.0 h.1,
    )
    | inr not_is ↦ rw not_is (ground (arith, h.0, not_is), Due-update key role roles ms d.1 h.1)
  ]

  add_roles-holds :
      (roles : List (String × ℕ)) (ms : List ServerMember)
      → Distinct same_member ms
      → All (Due roles) ms
      → all (holds id) (add_roles roles ms) ≡ true
  add_roles-holds [] [] d h = refl
  add_roles-holds [] (m ∷ ms) d h = ground (arith, h.0, add_roles-holds [] ms d.1 h.1)
  add_roles-holds ((key, role) ∷ roles) ms d h =
      add_roles-holds roles _
        (Distinct-update_first (push_role role) same_member (λ a. refl) (λ a b. refl)
          (is_member key) ms d)
        (Due-update key role roles ms d h)

  abbrev pub Covered : List (String × ℕ) → List MemberRow → Type 0
  Covered roles rows = All (λ (row : MemberRow). gives id roles row.pseudonym_key_hex ≡ true) rows

  Due-loaded :
      (roles : List (String × ℕ)) (rows : List MemberRow)
      → Covered roles rows
      → All (Due roles) (map loaded_member rows)
  Due-loaded roles [] h = tt
  Due-loaded roles (row ∷ rows) h = (h.0, Due-loaded roles rows h.1)

  -- Every member to whom a row gives the role holds it.
  pub loaded-holds :
      (roles : List (String × ℕ)) (rows : List MemberRow)
      → Distinct same_member (map loaded_member rows)
      → Covered roles rows
      → all (holds id) (add_roles roles (map loaded_member rows)) ≡ true
  loaded-holds roles rows d h =
      add_roles-holds roles (map loaded_member rows) d (Due-loaded roles rows h)
