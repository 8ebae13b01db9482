-- ===== src/Prelude/Lists.antt =====
-- Lists measured and indexed by native numbers, and searches by a Boolean test.
use Prim.Native.Nat.{ℕ, zero, suc, ◌+◌}
use mathlib.Core.Path.{◌≡◌, refl}
use mathlib.Core.Bool.{Bool, true, false, ◌&&◌, ◌||◌}
use mathlib.Core.List.{List, [], ◌∷◌, ◌++◌}
use mathlib.Core.Option.{Option, none, some, some-injective}
use native.Mathlib.Omega.{arith}
use zhiniu.Prelude.Tests.{if◌then◌else◌}

module _ {ℓ} {A : Type ℓ} where
  abbrev pub length : List A → ℕ
  length [] = 0
  length (x ∷ xs) = suc (length xs)

  abbrev pub get_elem? : List A → ℕ → Option A
  get_elem? [] i = none
  get_elem? (x ∷ xs) zero = some x
  get_elem? (x ∷ xs) (suc i) = get_elem? xs i

  abbrev pub take : ℕ → List A → List A
  take zero xs = []
  take (suc n) [] = []
  take (suc n) (x ∷ xs) = x ∷ take n xs

  abbrev pub drop : ℕ → List A → List A
  drop zero xs = xs
  drop (suc n) [] = []
  drop (suc n) (x ∷ xs) = drop n xs

  -- `next((x for x in xs if p(x)), None)`
  abbrev pub find : (A → Bool) → List A → Option A
  find p [] = none
  find p (x ∷ xs) = if p x then some x else find p xs

  -- `[x for x in xs if p(x)]`
  abbrev pub filter_by : (A → Bool) → List A → List A
  filter_by p [] = []
  filter_by p (x ∷ xs) = let rest = filter_by p xs in if p x then x ∷ rest else rest

  -- `sum(1 for x in xs if p(x))`
  abbrev pub count_by : (A → Bool) → List A → ℕ
  count_by p [] = 0
  count_by p (x ∷ xs) = (if p x then 1 else 0) + count_by p xs

  abbrev pub any_by : (A → Bool) → List A → Bool
  any_by p [] = false
  any_by p (x ∷ xs) = p x || any_by p xs

  abbrev pub all_by : (A → Bool) → List A → Bool
  all_by p [] = true
  all_by p (x ∷ xs) = p x && all_by p xs

  -- Every element satisfies `P`.
  abbrev pub All {κ} : (A → Type κ) → List A → Type κ
  All P [] = Unit
  All P (x ∷ xs) = P x × All P xs

  pub length-append : (xs ys : List A) → length (xs ++ ys) ≡ length xs + length ys
  length-append [] ys = omega arith
  length-append (x ∷ xs) ys = omega (arith, length-append xs ys)

  pub filter_by-append :
      (p : A → Bool) (xs ys : List A) → filter_by p (xs ++ ys) ≡ filter_by p xs ++ filter_by p ys
  filter_by-append p [] ys = refl
  filter_by-append p (x ∷ xs) ys = ground (arith, filter_by-append p xs ys)

  pub length-filter_by : (p : A → Bool) (xs : List A) → length (filter_by p xs) ≡ count_by p xs
  length-filter_by p [] = refl
  length-filter_by p (x ∷ xs) = ground (arith, length-filter_by p xs)

  -- A row that is found fails a test that all the rows fail.
  pub any_by-false :
      (q p : A → Bool) (xs : List A) (a : A)
      → any_by q xs ≡ false
      → find p xs ≡ some a
      → q a ≡ false
  any_by-false q p [] a none_passes h = ground arith
  any_by-false q p (x ∷ xs) a none_passes h =
      ground (arith, any_by-false q p xs a, some-injective x a)

  pub find-holds : (p : A → Bool) (xs : List A) (a : A) → find p xs ≡ some a → p a ≡ true
  find-holds p [] a h = ground arith
  find-holds p (x ∷ xs) a h = ground (arith, find-holds p xs a)
