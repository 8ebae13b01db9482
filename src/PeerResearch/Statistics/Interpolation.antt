-- ===== src/PeerResearch/Statistics/Interpolation.antt =====
-- The interpolation between neighbours of a sorted list grows with the position.
use zhiniu.Prelude.{
  ℕ, zero, suc, ◌+◌, ◌-◌, ◌*◌, ◌/◌, ◌%◌, ◌≤◌, ◌<◌, true, ◌≡◌, refl, ap, subst, inl, inr, some, List,
  [], ◌∷◌, arith, length, get_elem?, All, min, IsSorted, IsOrder, Option-cases,
}
use native.Mathlib.Decide.{dec_lt}
use zhiniu.Prelude.Int.{
  ℤ, pos, negsuc, ◌≤ℤ◌, leb_ℤ, ◌+ℤ◌, ◌-ℤ◌, scale, pos_part, neg_part, int_laws,
}
use zhiniu.PeerResearch.Statistics.{interpolate}

pub leb_ℤ-IsOrder : IsOrder leb_ℤ
leb_ℤ-IsOrder = record { trans = λ x y z h k. ground arith; total = λ x y h. ground arith }

-- The element between two neighbours, in quarters.
abbrev pub between : ℤ → ℤ → ℕ → ℤ
between low high r = scale 4 low +ℤ scale r (high -ℤ low)

pub mul_le : (r s n : ℕ) → r ≤ s → r * n ≤ s * n
mul_le r s n h = grind arith

pub scale_mono : (d : ℤ) (r s : ℕ) → pos 0 ≤ℤ d → r ≤ s → scale r d ≤ℤ scale s d
scale_mono (pos n) r s h k = omega (int_laws, mul_le r s n k)
scale_mono (negsuc n) r s h k = absurd (omega arith)

pub scale_zero : (d : ℤ) → scale 0 d ≡ pos 0
unfolding scale
scale_zero d = ground arith

pub between_mono :
    (low high : ℤ) (r s : ℕ) → low ≤ℤ high → r ≤ s → between low high r ≤ℤ between low high s
between_mono low high r s h k = omega (int_laws, scale_mono (high -ℤ low) r s (omega int_laws) k)

pub between_bounds :
    (low high : ℤ) (r : ℕ)
    → low ≤ℤ high
    → r ≤ 4
    → (scale 4 low ≤ℤ between low high r) × (between low high r ≤ℤ scale 4 high)
between_bounds low high r h k = (
  omega (
    int_laws,
    between_mono low high 0 r h (omega arith),
    ap pos_part (scale_zero (high -ℤ low)),
    ap neg_part (scale_zero (high -ℤ low)),
  ),
  omega (int_laws, between_mono low high r 4 h k),
)

pub get_elem?_total {ℓ} :
    {A : Type ℓ} (xs : List A) (i : ℕ) → i < length xs → (a : A) × (get_elem? xs i ≡ some a)
get_elem?_total [] i h = elim h [ ]
get_elem?_total (x ∷ xs) zero h = (x, refl)
get_elem?_total (x ∷ xs) (suc i) h = get_elem?_total xs i (omega arith)

pub get_elem?_All {ℓ κ} :
    {A : Type ℓ} (P : A → Type κ) (xs : List A) (i : ℕ) (a : A)
    → All P xs
    → get_elem? xs i ≡ some a
    → P a
get_elem?_All P [] i a all h = ground arith
get_elem?_All P (x ∷ xs) zero a all h = subst P (ground arith) all.0
get_elem?_All P (x ∷ xs) (suc i) a all h = get_elem?_All P xs i a all.1 h

pub get_sorted :
    (xs : List ℤ) (i j : ℕ) (a b : ℤ)
    → IsSorted leb_ℤ xs
    → i ≤ j
    → get_elem? xs i ≡ some a
    → get_elem? xs j ≡ some b
    → a ≤ℤ b
get_sorted [] i j a b s h p q = ground arith
get_sorted (x ∷ xs) zero zero a b s h p q = ground arith
get_sorted (x ∷ xs) zero (suc j) a b s h p q =
    ground (arith, get_elem?_All (λ y. leb_ℤ x y ≡ true) xs j b s.0 q)
get_sorted (x ∷ xs) (suc i) zero a b s h p q = absurd (omega arith)
get_sorted (x ∷ xs) (suc i) (suc j) a b s h p q = get_sorted xs i j a b s.1 (omega arith) p q

abbrev pub upper_index : List ℤ → ℕ → ℕ
upper_index xs position = min (position / 4 + 1) (length xs - 1)

-- What the interpolation reads at a position within the list.
pub interpolate-parts :
    (xs : List ℤ) (position : ℕ) (a : ℤ)
    → interpolate xs position ≡ some a
    → (low : ℤ) × (high : ℤ) × (get_elem? xs (position / 4) ≡ some low)
      × (get_elem? xs (upper_index xs position) ≡ some high)
      × (a ≡ between low high (position % 4))
unfolding interpolate
interpolate-parts xs position a h = elim (Option-cases (get_elem? xs (position / 4))) [
  | inl past ↦ ground arith
  | inr (low, e) ↦ elim (Option-cases (get_elem? xs (upper_index xs position))) [
    | inl past ↦ ground arith
    | inr (high, f) ↦ (low, high, e, f, ground arith)
  ]
]

pub interpolate_total :
    (xs : List ℤ) (position : ℕ)
    → 0 < length xs
    → position ≤ 4 * (length xs - 1)
    → (a : ℤ) × (interpolate xs position ≡ some a)
unfolding interpolate
interpolate_total xs position n h =
    let (low, e) = get_elem?_total xs (position / 4) (omega arith) in
    let (high, f) = get_elem?_total xs (upper_index xs position) (omega arith) in
    (between low high (position % 4), rw (e, f))

-- On a sorted list the interpolation grows with the position.
pub interpolate_mono :
    (xs : List ℤ) (p q : ℕ) (a b : ℤ)
    → IsSorted leb_ℤ xs
    → p ≤ q
    → q ≤ 4 * (length xs - 1)
    → interpolate xs p ≡ some a
    → interpolate xs q ≡ some b
    → a ≤ℤ b
interpolate_mono xs p q a b s le last ha hb =
    let (low, high, l, u, e) = interpolate-parts xs p a ha in
    let (low', high', l', u', e') = interpolate-parts xs q b hb in
    let up : low ≤ℤ high = get_sorted xs (p / 4) (upper_index xs p) low high s (omega arith) l u in
    let up' : low' ≤ℤ high' =
      get_sorted xs (q / 4) (upper_index xs q) low' high' s (omega arith) l' u' in
    elim (dec_lt (p / 4) (q / 4)) [
      | yes apart ↦
          let across : high ≤ℤ low' =
            get_sorted xs (upper_index xs p) (q / 4) high low' s (omega arith) u l' in
          rw (e, e')
            (omega (
              int_laws,
              (between_bounds low high (p % 4) up (omega arith)).1,
              (between_bounds low' high' (q % 4) up' (omega arith)).0,
            ))
      | no same ↦
          let k : p / 4 ≡ q / 4 = omega arith in
          let low_eq : low ≡ low' = cc k in
          let high_eq : high ≡ high' = cc k in
          rw (e, e', low_eq, high_eq) (between_mono low' high' (p % 4) (q % 4) up' (omega arith))
    ]
