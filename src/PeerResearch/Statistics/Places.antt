-- ===== src/PeerResearch/Statistics/Places.antt =====
-- A quantile by the places of two values, without a sort: how many values are below each.
use zhiniu.Prelude.{
  ℕ, zero, suc, ◌+◌, ◌-◌, ◌*◌, ◌/◌, ◌%◌, ◌≤◌, ◌<◌, true, ◌≡◌, refl, ◌∙◌, ap, subst, inl, inr, some,
  List, [], ◌∷◌, arith, length, get_elem?, count_by, min, All, sort_by, IsSorted, length-sort_by,
  count_by-sort_by, sort_by-IsSorted, Bool-cases, ◌==◌,
}
use mathlib.Core.Option.{some-injective}
use zhiniu.Prelude.Int.{ℤ, ◌+ℤ◌, ltb_ℤ, leb_ℤ, scale, eq_of_parts, int_laws}
use zhiniu.PeerResearch.Statistics.{quantile}
use zhiniu.PeerResearch.Statistics.Interpolation.{
  leb_ℤ-IsOrder, between, mul_le, get_elem?_total, get_elem?_All, interpolate-parts,
  interpolate_total,
}

-- More than k values are at most v, and at most k values are below it.
abbrev pub IsAt : List ℤ → ℕ → ℤ → Type 0
IsAt values k v = (k < count_by (λ x. leb_ℤ x v) values) × (count_by (λ x. ltb_ℤ x v) values ≤ k)

none_below :
    (x : ℤ) (ys : List ℤ) → All (λ y. leb_ℤ x y ≡ true) ys → count_by (λ y. ltb_ℤ y x) ys ≡ 0
none_below x [] all = refl
none_below x (y ∷ ys) all = ground (arith, none_below x ys all.1, all.0)

sorted-IsAt :
    (xs : List ℤ) (k : ℕ) (v : ℤ) → IsSorted leb_ℤ xs → get_elem? xs k ≡ some v → IsAt xs k v
sorted-IsAt [] k v s h = ground arith
sorted-IsAt (x ∷ xs) zero v s h =
    subst (λ w. IsAt (x ∷ xs) 0 w) (some-injective x v h)
      (ground arith, ground (arith, none_below x xs s.0))
sorted-IsAt (x ∷ xs) (suc k) v s h =
    let (low, high) = sorted-IsAt xs k v s.1 h in
    let below = get_elem?_All (λ y. leb_ℤ x y ≡ true) xs k v s.0 h in
    (ground (arith, low, below), ground (arith, high))

values-IsAt :
    (values : List ℤ) (k : ℕ) (v : ℤ)
    → get_elem? (sort_by leb_ℤ values) k ≡ some v
    → IsAt values k v
values-IsAt values k v h =
    let (low, high) =
      sorted-IsAt (sort_by leb_ℤ values) k v (sort_by-IsSorted leb_ℤ leb_ℤ-IsOrder values) h in
    (
      omega (arith, low, count_by-sort_by leb_ℤ (λ x. leb_ℤ x v) values),
      omega (arith, high, count_by-sort_by leb_ℤ (λ x. ltb_ℤ x v) values),
    )

-- The point between two values by the weights of the two.
abbrev pub weighted : ℤ → ℤ → ℕ → ℤ
weighted low high r = scale (4 - r) low +ℤ scale r high

between-weighted : (low high : ℤ) (r : ℕ) → r < 4 → between low high r ≡ weighted low high r
between-weighted low high zero h = eq_of_parts _ _ (omega int_laws)
between-weighted low high (suc zero) h = eq_of_parts _ _ (omega int_laws)
between-weighted low high (suc (suc zero)) h = eq_of_parts _ _ (omega int_laws)
between-weighted low high (suc (suc (suc zero))) h = eq_of_parts _ _ (omega int_laws)
between-weighted low high (suc (suc (suc (suc r)))) h = absurd (omega (arith, h))

single_weighted : (v : ℤ) → scale 4 v ≡ weighted v v 0
single_weighted v = eq_of_parts _ _ (omega int_laws)

first_place : (q n : ℕ) → n ≡ 1 → q * (n - 1) ≡ 0
first_place q n h = rw h (omega arith)

-- Of at least one value, the quantile of q quarters lies at the position q * (n - 1) / 4: between
-- the value of the whole place, below which there are at most as many values and at or below which
-- there are more, and the value of the next place, or the last one, by the quarters that are left.
pub quantile_places :
    (values : List ℤ) (q : ℕ)
    → 0 < length values
    → q ≤ 4
    → let last = length values - 1 in
      let position = q * last in
      (low : ℤ) × (high : ℤ) × (quantile values q ≡ some (weighted low high (position % 4)))
      × IsAt values (position / 4) low
      × IsAt values (min (position / 4 + 1) last) high
unfolding quantile
quantile_places values q full h =
    let ordered = sort_by leb_ℤ values in
    let same : length ordered ≡ length values = length-sort_by leb_ℤ values in
    let full' : 0 < length ordered = omega (arith, same, full) in
    rw⁻¹ same elim (Bool-cases (length ordered == 1)) [
      | inl single ↦
          let one : length ordered ≡ 1 = ground (arith, single) in
          let start : q * (length ordered - 1) ≡ 0 = first_place q (length ordered) one in
          let (v, there) = get_elem?_total ordered 0 full' in
          (
            v,
            v,
            rw (single, there, start) (ap some (single_weighted v)),
            rw start (values-IsAt values 0 v there),
            rw (start, one) (values-IsAt values 0 v there),
          )
      | inr many ↦
          let (a, e) =
            interpolate_total ordered (q * (length ordered - 1)) full'
              (mul_le q 4 (length ordered - 1) h) in
          let (low, high, l, u, f) = interpolate-parts ordered (q * (length ordered - 1)) a e in
          (
            low,
            high,
            rw (many, e) (ap some (f ∙ between-weighted low high _ (omega arith))),
            values-IsAt values _ low l,
            values-IsAt values _ high u,
          )
    ]
