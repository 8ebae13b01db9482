-- ===== src/Research/Percentiles.antt =====
-- What `_valuation_rule` finds: a percentile that is high or low.
use zhiniu.Prelude.{
  ℕ, ◌+◌, ◌≤◌, ◌⊎◌, ◌≡◌, inl, inr, some, List, [], ◌∷◌, codes, All, Bool-cases, arith,
}
use zhiniu.Prelude.Int.{ℤ, pos, pos_part, neg_part, leb_ℤ, ltb_ℤ}
use zhiniu.Research.Models.{
  Movement, up, down, crossed_up, crossed_down, neutral, FundamentalMetricPoint,
}
use zhiniu.Research.Observations.{ChangeRuleDefinition, Finding}
use zhiniu.Research.Rules.{parameter}
use zhiniu.Research.Comparisons.{band_points, previously, valuation_of}
use zhiniu.Research.Directions.{
  IsDefined, IsUsable, IsEvidence, IsMade, IsNotice, IsQuotable, read-IsQuotable, Fine,
}

-- A value at or above the high bound, or at or below the low one, as the movement says.
abbrev pub Extreme : ℕ → ℕ → Movement → ℤ → Type 0
Extreme high low crossed_up v = high + neg_part v ≤ pos_part v
Extreme high low crossed_down v = pos_part v ≤ low + neg_part v
Extreme high low neutral v = (high + neg_part v ≤ pos_part v) ⊎ (pos_part v ≤ low + neg_part v)
Extreme high low up v = ⊥
Extreme high low down v = ⊥

abbrev pub IsBanded : ℕ → ℕ → Finding → Type 0
IsBanded high low f =
    IsMade f × (Extreme high low f.direction f.trace.change_value × IsNotice f.attention)

band_points-IsEvidence :
    (current : FundamentalMetricPoint) (earlier : List FundamentalMetricPoint)
    → IsDefined current
    → All IsUsable earlier
    → IsEvidence (band_points current earlier)
band_points-IsEvidence current [] dc usable = (dc, tt)
band_points-IsEvidence current (previous ∷ rest) dc ((p, _, (dp, _)), usable) = (dc, (dp, tt))

pub valuation_of-Fine :
    (rule : ChangeRuleDefinition) (code : List ℕ) (high low : ℕ)
    → parameter rule (codes "high") ≡ some (pos high)
    → parameter rule (codes "low") ≡ some (pos low)
    → (series : List FundamentalMetricPoint) → All IsUsable series
    → Fine (IsBanded high low) (valuation_of rule code series)
unfolding valuation_of
valuation_of-Fine rule code high low h l [] usable = tt
valuation_of-Fine rule code high low h l (current ∷ earlier) ((c, now, (dc, sc)), usable) =
    let evidence : IsEvidence (band_points current earlier) =
      band_points-IsEvidence current earlier dc usable in
    let quotes : All IsQuotable (c ∷ []) = (read-IsQuotable c sc, tt) in
    elim (Bool-cases (leb_ℤ (pos high) c)) [
      | inl above ↦ elim (Bool-cases (previously (λ p. ltb_ℤ p (pos high)) earlier)) [
        | inl entered ↦
            simp (valuation_of, now, h, l, above, entered)
              ((evidence, quotes), (ground (arith, above), tt))
        | inr stays ↦
            simp (valuation_of, now, h, l, above, stays)
              ((evidence, quotes), (inl (ground (arith, above)), tt))
      ]
      | inr under ↦ elim (Bool-cases (leb_ℤ c (pos low))) [
        | inr between ↦ simp (valuation_of, now, h, l, under, between) tt
        | inl below ↦ elim (Bool-cases (previously (λ p. ltb_ℤ (pos low) p) earlier)) [
          | inl entered ↦
              simp (valuation_of, now, h, l, under, below, entered)
                ((evidence, quotes), (ground (arith, below), tt))
          | inr stays ↦
              simp (valuation_of, now, h, l, under, below, stays)
                ((evidence, quotes), (inr (ground (arith, below)), tt))
        ]
      ]
    ]
