-- ===== src/Prelude/Find.antt =====
-- The first row of a table that passes a test, under the writes to the table.
use Prim.Native.Nat.{ℕ, ◌+◌}
use mathlib.Core.Path.{◌≡◌, refl, subst}
use mathlib.Core.Bool.{Bool, true, false}
use mathlib.Core.List.{List, [], ◌∷◌, ◌++◌, map}
use mathlib.Core.Option.{none, some, some-injective}
use mathlib.Core.Logic.{inl, inr}
use native.Mathlib.Omega.{arith}
use zhiniu.Prelude.Tests.{◌==◌, if◌then◌else◌, Bool-cases}
use zhiniu.Prelude.Lists.{find, count_by, any_by, All}

module _ {ℓ} {A : Type ℓ} where
  -- A row added at the end is found where no other passes.
  pub find-append_none :
      (p : A → Bool) (xs : List A) (a : A)
      → find p xs ≡ none
      → p a ≡ true
      → find p (xs ++ a ∷ []) ≡ some a
  find-append_none p [] a h k = rw k
  find-append_none p (x ∷ xs) a h k = elim (Bool-cases (p x)) [
    | inl hit ↦ ground arith
    | inr miss ↦ rw miss (find-append_none p xs a (rw miss at h) k)
  ]

  pub find-append_some :
      (p : A → Bool) (xs ys : List A) (a : A) → find p xs ≡ some a → find p (xs ++ ys) ≡ some a
  find-append_some p [] ys a h = ground arith
  find-append_some p (x ∷ xs) ys a h = elim (Bool-cases (p x)) [
    | inl hit ↦ rw hit (rw hit at h)
    | inr miss ↦ rw miss (find-append_some p xs ys a (rw miss at h))
  ]

  -- A change of other columns finds the changed row.
  pub find-map :
      (p : A → Bool) (f : A → A) (xs : List A) (a : A)
      → ((x : A) → p (f x) ≡ p x)
      → find p xs ≡ some a
      → find p (map f xs) ≡ some (f a)
  find-map p f [] a same h = ground arith
  find-map p f (x ∷ xs) a same h = elim (Bool-cases (p x)) [
    | inl hit ↦ rw (same x, hit) (ground (arith, h))
    | inr miss ↦ rw (same x, miss) (find-map p f xs a same (rw miss at h))
  ]

  -- A row that replaces the one found, wherever its key stands, is found in its place.
  pub find-replace :
      (p : A → Bool) (key : A → ℕ) (xs : List A) (old new : A)
      → find p xs ≡ some old
      → p new ≡ true
      → find p (map (λ x. if key x == key old then new else x) xs) ≡ some new
  find-replace p key [] old new h k = ground arith
  find-replace p key (x ∷ xs) old new h k = elim (Bool-cases (key x == key old)) [
    | inl same ↦ rw (same, k)
    | inr other ↦ elim (Bool-cases (p x)) [
      | inl hit ↦ ground (arith, some-injective x old (rw hit at h))
      | inr miss ↦ rw (other, miss) (find-replace p key xs old new (rw miss at h) k)
    ]
  ]

  -- The row that is found has every property that all the rows have.
  pub find-All {κ} :
      (P : A → Type κ) (p : A → Bool) (xs : List A) (a : A) → All P xs → find p xs ≡ some a → P a
  find-All P p [] a all h = ground arith
  find-All P p (x ∷ xs) a all h = elim (Bool-cases (p x)) [
    | inl hit ↦ subst P (some-injective x a (rw hit at h)) all.0
    | inr miss ↦ find-All P p xs a all.1 (rw miss at h)
  ]

  -- Of the rows that pass a test, one more after a row that passes is added.
  pub count_by-append :
      (p : A → Bool) (xs ys : List A) → count_by p (xs ++ ys) ≡ count_by p xs + count_by p ys
  count_by-append p [] ys = omega arith
  count_by-append p (x ∷ xs) ys = ground (arith, count_by-append p xs ys)

  pub All-append {κ} : (P : A → Type κ) (xs ys : List A) → All P xs → All P ys → All P (xs ++ ys)
  All-append P [] ys h k = k
  All-append P (x ∷ xs) ys h k = (h.0, All-append P xs ys h.1 k)

  pub All-map {κ} :
      (P Q : A → Type κ) (f : A → A) (xs : List A)
      → ((x : A) → P x → Q (f x))
      → All P xs
      → All Q (map f xs)
  All-map P Q f [] step h = tt
  All-map P Q f (x ∷ xs) step h = (step x h.0, All-map P Q f xs step h.1)

  pub All-impl {κ} : (P Q : A → Type κ) (xs : List A) → ((x : A) → P x → Q x) → All P xs → All Q xs
  All-impl P Q [] step h = tt
  All-impl P Q (x ∷ xs) step h = (step x h.0, All-impl P Q xs step h.1)

  pub any_by-find : (p : A → Bool) (xs : List A) → any_by p xs ≡ false → find p xs ≡ none
  any_by-find p [] h = refl
  any_by-find p (x ∷ xs) h = ground (arith, any_by-find p xs)

  -- Where no row passes, none is counted.
  pub count_by_zero : (p : A → Bool) (xs : List A) → find p xs ≡ none → count_by p xs ≡ 0
  count_by_zero p [] h = refl
  count_by_zero p (x ∷ xs) h = ground (arith, count_by_zero p xs)

pub count_by-map {ℓ κ} :
    {A : Type ℓ} {B : Type κ} (p : B → Bool) (f : A → B) (xs : List A)
    → count_by p (map f xs) ≡ count_by (λ x. p (f x)) xs
count_by-map p f [] = refl
count_by-map p f (x ∷ xs) = ground (arith, count_by-map p f xs)
