-- ===== src/PeerResearch/Statistics/Quantiles.antt =====
-- Quantiles grow with their position, stay within the values and ignore the order of the list.
use zhiniu.Prelude.{
  ℕ, ◌-◌, ◌*◌, ◌/◌, ◌%◌, ◌≤◌, ◌<◌, ◌≡◌, ap, subst, inl, inr, some, List, [], ◌∷◌, arith, length,
  get_elem?, All, sort_by, IsSorted, sort_by-IsSorted, length-sort_by, All-sort_by, sort_by_perm,
  Bool-cases, ◌==◌,
}
use mathlib.Core.Option
use mathlib.Core.List.{Permᴰ}
use mathlib.Core.Option.{some-injective}
use zhiniu.Prelude.Int.{ℤ, ◌≤ℤ◌, leb_ℤ, scale, int_laws}
use zhiniu.PeerResearch.Statistics.{interpolate, quantile, quantile_of_sorted}
use zhiniu.PeerResearch.Statistics.Interpolation.{
  leb_ℤ-IsOrder, mul_le, between_bounds, get_elem?_total, get_elem?_All, get_sorted, upper_index,
  interpolate-parts, interpolate_total, interpolate_mono,
}

IsSorted-values : (values : List ℤ) → IsSorted leb_ℤ (sort_by leb_ℤ values)
IsSorted-values = sort_by-IsSorted leb_ℤ leb_ℤ-IsOrder

-- A later quantile of the same values is no smaller.
pub quantile_mono :
    (values : List ℤ) (q r : ℕ) (a b : ℤ)
    → q ≤ r
    → r ≤ 4
    → quantile values q ≡ some a
    → quantile values r ≡ some b
    → a ≤ℤ b
unfolding quantile
quantile_mono values q r a b h last ha hb =
    let ordered = sort_by leb_ℤ values in
    elim (Bool-cases (length ordered == 1)) [
      | inl single ↦ ground (arith, rw single at ha, rw single at hb)
      | inr many ↦
          interpolate_mono ordered (q * (length ordered - 1)) (r * (length ordered - 1)) a b
            (IsSorted-values values) (mul_le q r (length ordered - 1) h)
            (mul_le r 4 (length ordered - 1) last) (rw many at ha) (rw many at hb)
    ]

-- Of at least one value every quantile from 0 to 1 exists.
pub quantile_total :
    (values : List ℤ) (q : ℕ) → 0 < length values → q ≤ 4 → (a : ℤ) × (quantile values q ≡ some a)
unfolding quantile
quantile_total values q n h =
    let ordered = sort_by leb_ℤ values in
    let n' : 0 < length ordered = omega (arith, length-sort_by leb_ℤ values) in
    elim (Bool-cases (length ordered == 1)) [
      | inl single ↦ let (a, e) = get_elem?_total ordered 0 n' in (scale 4 a, rw (single, e))
      | inr many ↦
          let (a, e) =
            interpolate_total ordered (q * (length ordered - 1)) n'
              (mul_le q 4 (length ordered - 1) h) in
          (a, rw (many, e))
    ]

single_bounds :
    (xs : List ℤ) (lo hi a : ℤ)
    → All (λ v. (lo ≤ℤ v) × (v ≤ℤ hi)) xs
    → Option.map (scale 4) (get_elem? xs 0) ≡ some a
    → (scale 4 lo ≤ℤ a) × (a ≤ℤ scale 4 hi)
single_bounds [] lo hi a all e = ground arith
single_bounds (x ∷ xs) lo hi a all e =
    subst (λ t. (scale 4 lo ≤ℤ t) × (t ≤ℤ scale 4 hi)) (some-injective (scale 4 x) a e)
      (omega int_laws)

interpolate_bounds :
    (xs : List ℤ) (lo hi : ℤ) (position : ℕ) (a : ℤ)
    → IsSorted leb_ℤ xs
    → All (λ v. (lo ≤ℤ v) × (v ≤ℤ hi)) xs
    → position ≤ 4 * (length xs - 1)
    → interpolate xs position ≡ some a
    → (scale 4 lo ≤ℤ a) × (a ≤ℤ scale 4 hi)
interpolate_bounds xs lo hi position a s all h e =
    let (low, high, l, u, f) = interpolate-parts xs position a e in
    let up = get_sorted xs (position / 4) (upper_index xs position) low high s (omega arith) l u in
    let above = get_elem?_All (λ v. (lo ≤ℤ v) × (v ≤ℤ hi)) xs (position / 4) low all l in
    let below =
      get_elem?_All (λ v. (lo ≤ℤ v) × (v ≤ℤ hi)) xs (upper_index xs position) high all u in
    rw f (omega (int_laws, above, below, between_bounds low high (position % 4) up (omega arith)))

-- A quantile lies within all bounds of the values; both sides count quarters of a unit.
pub quantile_bounds :
    (values : List ℤ) (lo hi : ℤ) (q : ℕ) (a : ℤ)
    → All (λ v. (lo ≤ℤ v) × (v ≤ℤ hi)) values
    → q ≤ 4
    → quantile values q ≡ some a
    → (scale 4 lo ≤ℤ a) × (a ≤ℤ scale 4 hi)
unfolding quantile
quantile_bounds values lo hi q a all h e =
    let ordered = sort_by leb_ℤ values in
    let all' = All-sort_by leb_ℤ (λ v. (lo ≤ℤ v) × (v ≤ℤ hi)) values all in
    elim (Bool-cases (length ordered == 1)) [
      | inl single ↦ single_bounds ordered lo hi a all' (rw single at e)
      | inr many ↦
          interpolate_bounds ordered lo hi (q * (length ordered - 1)) a (IsSorted-values values)
            all' (mul_le q 4 (length ordered - 1) h) (rw many at e)
    ]

-- The order of the values does not matter.
quantile_perm : {xs ys : List ℤ} (q : ℕ) → Permᴰ xs ys → quantile xs q ≡ quantile ys q
unfolding quantile
quantile_perm q p =
    ap (λ ordered. quantile_of_sorted ordered q)
      (sort_by_perm leb_ℤ leb_ℤ-IsOrder (λ x y h k. ground arith) p)
