-- ===== src/Dht/ShortArray/Slots.antt =====
-- The choice of a free slot.
use rekindle.Base.{
  ℕ, zero, suc, ◌+◌, ◌≤◌, ◌<◌, ◌==◌, Bool, true, false, List, [], ◌∷◌, length, any, retain, not,
  ◌≡◌, ◌≢◌, refl, ◌∙◌, arith, Bool-cases, inl, inr, ==_iff, ltb, ltb→lt,
}
use mathlib.Core.Path.{subst}
use rekindle.Dht.ShortArray.{ShortArrayHead, free_from, find_free_slot}

abbrev pub holds : List ℕ → ℕ → Bool
holds slots slot = any (λ t. t == slot) slots

-- The slots without one of them.
abbrev without : ℕ → List ℕ → List ℕ
without slot slots = retain (λ t. not (t == slot)) slots

holds-without :
    (slot t : ℕ) (slots : List ℕ) → slot ≢ t → holds (without slot slots) t ≡ holds slots t
holds-without slot t [] ne = refl
holds-without slot t (x ∷ slots) ne = ground (arith, holds-without slot t slots ne)

length-retain : (p : ℕ → Bool) (slots : List ℕ) → length (retain p slots) ≤ length slots
length-retain p [] = omega arith
length-retain p (x ∷ slots) = ground (arith, length-retain p slots)

length-without :
    (slot : ℕ) (slots : List ℕ)
    → holds slots slot ≡ true
    → length (without slot slots) + 1 ≤ length slots
length-without slot [] h = ground arith
length-without slot (x ∷ slots) h =
    ground (arith, length-without slot slots, length-retain (λ t. not (t == slot)) slots)

-- So many slots that are in use: the list is as long.
pigeons :
    (n a : ℕ) (slots : List ℕ)
    → ((t : ℕ) → a ≤ t → t < a + n → holds slots t ≡ true)
    → n ≤ length slots
pigeons zero a slots h = omega arith
pigeons (suc n) a slots h =
    let fewer : n ≤ length (without a slots) = pigeons n (a + 1) (without a slots) λ t low high.
      holds-without a t slots (omega (arith, low))
      ∙ h t (omega (arith, low)) (omega (arith, high)) in
    omega (arith, fewer, length-without a slots (h a (omega arith) (omega arith)))

-- The loop's outcome: every slot before it is in use, and it is not, or it is the end.
free_from-first :
    (n a : ℕ) (slots : List ℕ)
    → (a ≤ free_from n a slots)
      × (free_from n a slots ≤ a + n)
      × ((t : ℕ) → a ≤ t → t < free_from n a slots → holds slots t ≡ true)
      × (free_from n a slots < a + n → holds slots (free_from n a slots) ≡ false)
unfolding free_from
free_from-first zero a slots =
    (omega arith, omega arith, λ t low high. ground (arith, low, high), λ h. ground (arith, h))
free_from-first (suc n) a slots = elim (Bool-cases (holds slots a)) [
  | inl used ↦
      let (low, high, before, free) = free_from-first n (a + 1) slots in
      rw used (
        omega (arith, low),
        omega (arith, high),
        λ t from to. elim (Bool-cases (a == t)) [
          | inl e ↦ subst (λ u. holds slots u ≡ true) ((==_iff a t).0 e) used
          | inr ne ↦ before t (ground (arith, from, ne)) to
        ],
        λ h. free (omega (arith, h)),
      )
  | inr unused ↦
      rw unused (omega arith, omega arith, λ t low high. ground (arith, low, high), λ h. unused)
]

-- While the array is not full, the slot chosen is within the stride, is in no use, and is the
-- lowest such slot.
pub find_free_slot-lowest :
    (stride : ℕ) (head : ShortArrayHead)
    → length head.slots < stride
    → (find_free_slot stride head < stride)
      × (holds head.slots (find_free_slot stride head) ≡ false)
      × ((t : ℕ) → t < find_free_slot stride head → holds head.slots t ≡ true)
find_free_slot-lowest stride head room =
    let (_, high, before, free) = free_from-first stride 0 head.slots in
    let inside : find_free_slot stride head < stride =
      elim (Bool-cases (ltb (find_free_slot stride head) stride)) [
        | inl h ↦ ltb→lt (find_free_slot stride head) stride h
        | inr h ↦
            let full : stride ≤ length head.slots =
              pigeons stride 0 head.slots λ t low to. before t low (ground (arith, to, h)) in
            omega (arith, full, room)
      ] in
    (inside, free (omega (arith, inside)), λ t h. before t (omega arith) h)
