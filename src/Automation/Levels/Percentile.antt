-- ===== src/Automation/Levels/Percentile.antt =====
-- The 95th percentile: at least 95 of 100 values are at most the result, and fewer are below it.
use zhiniu.Prelude.{
  ℕ, zero, suc, ◌*◌, ◌≤◌, ◌<◌, true, ◌≡◌, refl, subst, some, List, [], ◌∷◌, length, get_elem?,
  count_by, ltb, leb, arith, IsSorted, IsOrder, sort_by, sort_by-IsSorted, count_by-sort_by,
  length-sort_by, All,
}
use mathlib.Core.Option.{some-injective}
use zhiniu.Automation.Levels.{p95, p95_index}

leb-IsOrder : IsOrder leb
leb-IsOrder = record {
  trans = λ x y z h k. ground (arith, h, k);
  total = λ x y h. ground (arith, h);
}

All-get_elem? : (P : ℕ → Type 0) (xs : List ℕ) (k v : ℕ) → All P xs → get_elem? xs k ≡ some v → P v
All-get_elem? P [] k v all h = ground arith
All-get_elem? P (x ∷ xs) zero v all h = subst P (some-injective x v h) all.0
All-get_elem? P (x ∷ xs) (suc k) v all h = All-get_elem? P xs k v all.1 h

none_below : (x : ℕ) (ys : List ℕ) → All (λ y. leb x y ≡ true) ys → count_by (λ y. ltb y x) ys ≡ 0
none_below x [] all = refl
none_below x (y ∷ ys) all = ground (arith, none_below x ys all.1, all.0)

-- The element at a place of a sorted list.
sorted_at :
    (xs : List ℕ) (k v : ℕ)
    → IsSorted leb xs
    → get_elem? xs k ≡ some v
    → (k < count_by (λ x. leb x v) xs) × (count_by (λ x. ltb x v) xs ≤ k)
sorted_at [] k v s h = ground arith
sorted_at (x ∷ xs) zero v s h =
    subst (λ w. (0 < count_by (λ x. leb x w) (x ∷ xs)) × (count_by (λ x. ltb x w) (x ∷ xs) ≤ 0))
      (some-injective x v h) (ground arith, ground (arith, none_below x xs s.0))
sorted_at (x ∷ xs) (suc k) v s h =
    let (low, high) = sorted_at xs k v s.1 h in
    let below = All-get_elem? (λ y. leb x y ≡ true) xs k v s.0 h in
    (ground (arith, low, below), ground (arith, high))

-- The result is there for every list that is not empty.
get_elem?-some : (xs : List ℕ) (k : ℕ) → k < length xs → (v : ℕ) × (get_elem? xs k ≡ some v)
get_elem?-some [] k h = ground arith
get_elem?-some (x ∷ xs) zero h = (x, refl)
get_elem?-some (x ∷ xs) (suc k) h = get_elem?-some xs k (omega (arith, h))

-- Of a list that is not empty there is a 95th percentile: at least 95 of 100 values are at most
-- that, and fewer than 95 of 100 are below it.
pub p95_lem :
    (values : List ℕ)
    → 0 < length values
    → (v : ℕ) × (p95 values ≡ some v)
      × (95 * length values ≤ 100 * count_by (λ x. leb x v) values)
      × (100 * count_by (λ x. ltb x v) values < 95 * length values)
unfolding p95
p95_lem values full =
    let sorted = sort_by leb values in
    let k = p95_index (length values) in
    let n = length-sort_by leb values in
    let (v, there) = get_elem?-some sorted k (omega (arith, n, full)) in
    let (low, high) = sorted_at sorted k v (sort_by-IsSorted leb leb-IsOrder values) there in
    (
      v,
      there,
      omega (arith, low, count_by-sort_by leb (λ x. leb x v) values),
      omega (arith, high, full, count_by-sort_by leb (λ x. ltb x v) values),
    )
