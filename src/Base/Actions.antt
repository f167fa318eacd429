-- ===== src/Base/Actions.antt =====
-- Actions: they pass a state on, and fail or return a value.
use rekindle.Base.Results.{Result, failed, done}
use mathlib.Core.Path.{◌≡◌, refl}

-- An action on states S that fails with an E or returns an A.
abbrev pub Act : Type 0 → Type 0 → Type 0 → Type 0
Act E S A = S → S × Result E A

abbrev pub pure : {E S A : Type 0} → A → Act E S A
pure a s = (s, done a)

abbrev pub throw : {E S A : Type 0} → E → Act E S A
throw why s = (s, failed why)

-- `?`: the first failure is the result.
abbrev pub continue : {E S A B : Type 0} → S × Result E A → (A → Act E S B) → S × Result E B
continue (s, failed why) f = (s, failed why)
continue (s, done a) f = f a s

infixl 5 ◌>>=◌ ◌>>◌
abbrev pub ◌>>=◌ : {E S A B : Type 0} → Act E S A → (A → Act E S B) → Act E S B
◌>>=◌ m f s = continue (m s) f

abbrev pub ◌>>◌ : {E S B : Type 0} → Act E S (Unit {0}) → Act E S B → Act E S B
m >> k = m >>= λ _. k

-- What takes no action on the state.
abbrev pub from : {E S A : Type 0} → Result E A → Act E S A
from r s = (s, r)

-- A property of an action's outcome, step by step: what holds where the first part fails, and after
-- it where it does not.
pub after :
    {E S A B : Type 0} (P : S × Result E B → Type 0) (m : Act E S A) (f : A → Act E S B) (s : S)
    → ((s' : S) (why : E) → m s ≡ (s', failed why) → P (s', failed why))
    → ((s' : S) (a : A) → m s ≡ (s', done a) → P (f a s'))
    → P ((m >>= f) s)
after {E} {S} {A} {B} P m f s bad good = go (m s) refl
  where
    go : (o : S × Result E A) → m s ≡ o → P (continue o f)
    go (s', failed why) e = bad s' why e
    go (s', done a) e = good s' a e

-- What holds of a failure, and of a result.
abbrev pub Ends : {E S A : Type 0} → (S → Type 0) → (S → A → Type 0) → S × Result E A → Type 0
Ends bad good (s, failed why) = bad s
Ends bad good (s, done a) = good s a

-- An action of which the end is known, and what comes after it.
pub after_Ends :
    {E S A B : Type 0} (P : S × Result E B → Type 0) (bad : S → Type 0) (good : S → A → Type 0)
    (o : S × Result E A) (f : A → Act E S B)
    → Ends bad good o
    → ((s' : S) (why : E) → bad s' → P (s', failed why))
    → ((s' : S) (a : A) → good s' a → P (f a s'))
    → P (continue o f)
after_Ends P bad good (s', failed why) f h fails goes = fails s' why h
after_Ends P bad good (s', done a) f h fails goes = goes s' a h

-- What both ends of an action have in common holds of the state that it leaves.
pub either_end :
    {E S A : Type 0} (P bad : S → Type 0) (good : S → A → Type 0) (o : S × Result E A)
    → Ends bad good o
    → ((s : S) → bad s → P s)
    → ((s : S) (a : A) → good s a → P s)
    → P o.0
either_end P bad good (s, failed why) e left right = left s e
either_end P bad good (s, done a) e left right = right s a e

-- Two things that are known of one end.
pub both_Ends :
    {E S A : Type 0} (bad bad' : S → Type 0) (good good' : S → A → Type 0) (o : S × Result E A)
    → Ends bad good o
    → Ends bad' good' o
    → Ends (λ s. bad s × bad' s) (λ s a. good s a × good' s a) o
both_Ends bad bad' good good' (s, failed why) h h' = (h, h')
both_Ends bad bad' good good' (s, done a) h h' = (h, h')

-- What takes no action on the state, and what comes after it.
pub after_from :
    {E S A B : Type 0} (P : S × Result E B → Type 0) (r : Result E A) (f : A → Act E S B) (s : S)
    → ((why : E) → r ≡ failed why → P (s, failed why))
    → ((a : A) → r ≡ done a → P (f a s))
    → P (continue (s, r) f)
after_from P (failed why) f s bad good = bad why refl
after_from P (done a) f s bad good = good a refl

-- What follows from what is known of an end.
pub weaken_Ends :
    {E S A : Type 0} (bad bad' : S → Type 0) (good good' : S → A → Type 0) (o : S × Result E A)
    → Ends bad good o
    → ((s : S) → bad s → bad' s)
    → ((s : S) (a : A) → good s a → good' s a)
    → Ends bad' good' o
weaken_Ends bad bad' good good' (s, failed why) h left right = left s h
weaken_Ends bad bad' good good' (s, done a) h left right = right s a h
