-- ===== src/Prelude/Sort.antt =====
-- Python's `sorted`: stable, by insertion. The laws hold for every total preorder.
use Prim.Native.Nat.{ℕ, suc, ◌+◌}
use mathlib.Core.Path.{◌≡◌, refl, ap, ap₂, ◌∙◌}
use mathlib.Core.Bool.{Bool, true, false}
use mathlib.Core.List.{List, [], ◌∷◌, Permᴰ}
use mathlib.Core.Logic.{inl, inr}
use native.Mathlib.Omega.{arith}
use zhiniu.Prelude.Tests.{if◌then◌else◌, Bool-cases}
use zhiniu.Prelude.Lists.{All, count_by, length}

module _ {ℓ} {A : Type ℓ} where
  unfoldable pub insert_by : (A → A → Bool) → A → List A → List A
  insert_by le x [] = x ∷ []
  insert_by le x (y ∷ ys) = if le x y then x ∷ y ∷ ys else y ∷ insert_by le x ys

  unfoldable pub sort_by : (A → A → Bool) → List A → List A
  unfolding insert_by
  sort_by le [] = []
  sort_by le (x ∷ xs) = insert_by le x (sort_by le xs)

  -- Every element is below all that follow it.
  abbrev pub IsSorted : (A → A → Bool) → List A → Type 0
  IsSorted le [] = Unit
  IsSorted le (x ∷ xs) = All (λ y. le x y ≡ true) xs × IsSorted le xs

  -- A total preorder.
  pub record IsOrder (le : A → A → Bool) : Type ℓ where
    pub trans : (x y z : A) → le x y ≡ true → le y z ≡ true → le x z ≡ true
    pub total : (x y : A) → le x y ≡ false → le y x ≡ true

  module _ {κ} (le : A → A → Bool) (P : A → Type κ) where
    All-insert_by : (x : A) (ys : List A) → P x → All P ys → All P (insert_by le x ys)
    unfolding insert_by
    All-insert_by x [] h all = (h, tt)
    All-insert_by x (y ∷ ys) h all = elim (Bool-cases (le x y)) [
      | inl below ↦ rw below (h, all)
      | inr above ↦ rw above (all.0, All-insert_by x ys h all.1)
    ]

    pub All-sort_by : (xs : List A) → All P xs → All P (sort_by le xs)
    unfolding sort_by
    All-sort_by [] all = tt
    All-sort_by (x ∷ xs) all = All-insert_by x (sort_by le xs) all.0 (All-sort_by xs all.1)

  module _ (le : A → A → Bool) (o : IsOrder le) where
    All-trans :
        (x y : A) (ys : List A)
        → le x y ≡ true
        → All (λ z. le y z ≡ true) ys
        → All (λ z. le x z ≡ true) ys
    All-trans x y [] h all = tt
    All-trans x y (z ∷ zs) h all = (o.trans x y z h all.0, All-trans x y zs h all.1)

    insert_by-IsSorted : (x : A) (ys : List A) → IsSorted le ys → IsSorted le (insert_by le x ys)
    unfolding insert_by
    insert_by-IsSorted x [] s = (tt, tt)
    insert_by-IsSorted x (y ∷ ys) s = elim (Bool-cases (le x y)) [
      | inl below ↦ rw below ((below, All-trans x y ys below s.0), s)
      | inr above ↦ rw above (
        All-insert_by le (λ z. le y z ≡ true) x ys (o.total x y above) s.0,
        insert_by-IsSorted x ys s.1,
      )
    ]

    pub sort_by-IsSorted : (xs : List A) → IsSorted le (sort_by le xs)
    unfolding sort_by
    sort_by-IsSorted [] = tt
    sort_by-IsSorted (x ∷ xs) = insert_by-IsSorted x (sort_by le xs) (sort_by-IsSorted xs)

  module _ (le : A → A → Bool) (p : A → Bool) where
    count_by-insert_by :
        (x : A) (ys : List A)
        → count_by p (insert_by le x ys) ≡ (if p x then 1 else 0) + count_by p ys
    unfolding insert_by
    count_by-insert_by x [] = refl
    count_by-insert_by x (y ∷ ys) = ground (arith, count_by-insert_by x ys)

    pub count_by-sort_by : (xs : List A) → count_by p (sort_by le xs) ≡ count_by p xs
    unfolding sort_by
    count_by-sort_by [] = refl
    count_by-sort_by (x ∷ xs) =
        omega (arith, count_by-insert_by x (sort_by le xs), count_by-sort_by xs)

  module _ (le : A → A → Bool) where
    length-insert_by : (x : A) (ys : List A) → length (insert_by le x ys) ≡ suc (length ys)
    unfolding insert_by
    length-insert_by x [] = refl
    length-insert_by x (y ∷ ys) = ground (arith, length-insert_by x ys)

    pub length-sort_by : (xs : List A) → length (sort_by le xs) ≡ length xs
    unfolding sort_by
    length-sort_by [] = refl
    length-sort_by (x ∷ xs) = length-insert_by x (sort_by le xs) ∙ ap suc (length-sort_by xs)

  -- Under an order with no two names for one place, the order of the list does not matter.
  module _ (le : A → A → Bool) (o : IsOrder le)
      (anti : (x y : A) → le x y ≡ true → le y x ≡ true → x ≡ y) where
    insert_by_comm :
        (x y : A) (zs : List A)
        → insert_by le x (insert_by le y zs) ≡ insert_by le y (insert_by le x zs)
    unfolding insert_by
    insert_by_comm x y [] = ground (arith, anti x y, o.total x y, o.total y x)
    insert_by_comm x y (z ∷ zs) = ground (
      arith,
      anti x y,
      o.total x y,
      o.total y x,
      o.total x z,
      o.total y z,
      o.trans x y z,
      o.trans y x z,
      o.trans x z y,
      o.trans y z x,
      insert_by_comm x y zs,
    )

    pub sort_by_perm : {xs ys : List A} → Permᴰ xs ys → sort_by le xs ≡ sort_by le ys
    unfolding sort_by
    sort_by_perm Permᴰ.nil = refl
    sort_by_perm (Permᴰ.cons e p) = ap₂ (insert_by le) e (sort_by_perm p)
    sort_by_perm (Permᴰ.swap {a = a} {b = b} {l = zs} e f) =
        insert_by_comm a b (sort_by le zs)
        ∙ ap₂ (λ u v. insert_by le u (insert_by le v (sort_by le zs))) f e
    sort_by_perm (Permᴰ.trans p q) = sort_by_perm p ∙ sort_by_perm q

  pub count_by_perm : (p : A → Bool) {xs ys : List A} → Permᴰ xs ys → count_by p xs ≡ count_by p ys
  count_by_perm p Permᴰ.nil = refl
  count_by_perm p (Permᴰ.cons {l₁ = xs} {l₂ = ys} e q) =
      ap₂ (λ u n. (if p u then 1 else 0) + n) e (count_by_perm p q)
  count_by_perm p (Permᴰ.swap {a = a} {b = b} {a' = a'} {b' = b'} {l = zs} e f) =
      omega
        (arith, ap {B = ℕ} (λ u. if p u then 1 else 0) e, ap {B = ℕ} (λ u. if p u then 1 else 0) f)
  count_by_perm p (Permᴰ.trans q r) = count_by_perm p q ∙ count_by_perm p r
