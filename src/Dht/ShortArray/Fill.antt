-- ===== src/Dht/ShortArray/Fill.antt =====
-- Adding to an array while its record takes the writes.
use rekindle.Base.{
  ℕ, ◌+◌, ◌≤◌, ◌<◌, ◌^◌, List, [], ◌∷◌, ◌++◌, length, ◌≡◌, refl, ap, arith, ltb, leb, true, false,
  lt→ltb, length-append,
}
use mathlib.Core.Path.{subst}
use mathlib.Core.List.{append_assoc, append-nil}
use rekindle.Base.Actions.{Ends}
use rekindle.Dht.Network.{Network, IsLawful, done, ◌>>=◌, Action, pure}
use rekindle.Dht.ShortArray.{
  HeadJson, IsFaithful, Self, ShortArrayHead, read_head, write_head, find_free_slot, add, add_at,
  get_all,
}
use rekindle.Dht.ShortArray.Slots.{find_free_slot-lowest}
use rekindle.Dht.ShortArray.Heads.{read_head_raw-Has}
use rekindle.Dht.ShortArray.Contents.{length-Stored}
use rekindle.Dht.ShortArray.Refine.{Keeps, Added, add-Added, get_all-Holds, values'}

-- A record that is open for writing takes a value at each of its subkeys.
pub record Writer (N : Network) (key : N.RecordKey) (size : ℕ) : Type 1 where
  pub IsOpen : N.State → Type 0
  pub accepts :
      (i : ℕ) (b : List ℕ) (s : N.State)
      → IsOpen s
      → i < size
      → (s' : N.State) × (N.set_dht_value key i b s ≡ (s', done tt)) × IsOpen s'

-- serde_json writes every head.
pub record CanWrite (J : HeadJson) : Type 0 where
  pub written : (head : ShortArrayHead) → (b : List ℕ) × (J.to_vec head ≡ done b)

module _ (N : Network) (J : HeadJson) (self : Self N J) where
  -- One element after the other, until a failure.
  unfoldable pub add_all : List (List ℕ) → Action N.State (Unit {0})
  add_all [] = pure tt
  add_all (y ∷ ys) = add N J self y >>= λ i. add_all ys

module _ (N : Network) (J : HeadJson) (laws : IsLawful N) (json : IsFaithful J) (can : CanWrite J)
    (self : Self N J) (writer : Writer N self.record_key (self.stride + 1)) where
  module _ (s : N.State) (xs : List (List ℕ)) (h : Keeps N J laws json self xs s)
      (ready : writer.IsOpen s) where
    add-done :
        (y : List ℕ)
        → length xs < self.stride
        → (s' : N.State) × (add N J self y s ≡ (s', done (length xs))) × writer.IsOpen s'
    unfolding add read_head add_at write_head
    add-done y room =
        let fits : length h.slots < self.stride =
          omega (arith, room, length-Stored (values' N J laws json self s) h.slots xs h.stored) in
        let head : ShortArrayHead = record { stride = self.stride; slots = h.slots } in
        let slot = find_free_slot self.stride head in
        let low = (find_free_slot-lowest self.stride head fits).0 in
        let (s1, e1, open1) = writer.accepts (slot + 1) y s ready (omega (arith, low)) in
        let (bytes, w) =
          can.written (record { stride = self.stride; slots = h.slots ++ (slot ∷ []) }) in
        let (s2, e2, open2) = writer.accepts 0 bytes s1 open1 (omega arith) in
        let room : leb self.stride (length h.slots) ≡ false = ground (arith, fits) in
        let short : ltb (length h.slots) (2 ^ 32) ≡ true =
          lt→ltb (length h.slots) (2 ^ 32) (omega (arith, h.within, h.small)) in
        let same : length h.slots ≡ length xs =
          length-Stored (values' N J laws json self s) h.slots xs h.stored in
        (
          s2,
          rw
              (
                read_head_raw-Has N J laws json self.record_key self.stride s xs h,
                room,
                e1,
                short,
                w,
                e2,
              )
              (ap (λ n. (s2, done n)) same),
          open2,
        )

    added :
        (y : List ℕ) (s' : N.State)
        → add N J self y s ≡ (s', done (length xs))
        → Keeps N J laws json self (xs ++ (y ∷ [])) s'
    added y s' e =
        (subst (Ends (Keeps N J laws json self xs) (Added N J laws json self s xs h y)) e
          (add-Added N J laws json self s xs h y)).2

  -- Elements that fit in the array are all added while its record is open for writing, and it then
  -- reads as what it held with them at the end, in their order.
  pub get_all-add_all :
      (s : N.State) (xs ys : List (List ℕ))
      → Keeps N J laws json self xs s
      → writer.IsOpen s
      → length xs + length ys ≤ self.stride
      → (s' : N.State) × (add_all N J self ys s ≡ (s', done tt))
        × (get_all N J self s' ≡ (s', done (xs ++ ys)))
  unfolding add_all
  get_all-add_all s xs [] h ready fits =
      (s, refl, rw (append-nil xs) (get_all-Holds N J laws json self s xs h))
  get_all-add_all s xs (y ∷ ys) h ready fits =
      let (s1, e1, open1) = add-done s xs h ready y (omega (arith, fits)) in
      let (s', e, all) =
        get_all-add_all s1 (xs ++ (y ∷ [])) ys (added s xs h ready y s1 e1) open1
          (omega (arith, fits, length-append xs (y ∷ []))) in
      (
        s',
        rw e1 e,
        subst (λ l. get_all N J self s' ≡ (s', done l)) (append_assoc xs (y ∷ []) ys) all,
      )
