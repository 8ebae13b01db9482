-- ===== src/Research/Differences.antt =====
-- What the rules on two points find.
use zhiniu.Prelude.{
  ℕ, ◌+◌, ◌≤◌, ◌<◌, Bool, ◌≡◌, refl, inl, inr, some, List, [], ◌∷◌, codes, All, find, find-All,
  Option-cases, Bool-cases, if◌then◌else◌, ◌==◌, arith,
}
use zhiniu.Prelude.Int.{ℤ, pos, pos_part, neg_part, ◌-ℤ◌, ltb_ℤ, -ℤ_parts}
use zhiniu.Research.Models.{AttentionLevel, important, notice, info, FundamentalMetricPoint}
use zhiniu.Research.Series.{same_period_previous}
use zhiniu.Research.Observations.{ChangeRuleDefinition, Finding}
use zhiniu.Research.Rules.{parameter, name_of}
use zhiniu.Research.Comparisons.{
  at_least, important_bound, change_between, delta_of, gap_between, gap_of,
}
use zhiniu.Research.Directions.{
  IsDefined, IsRead, IsUsable, IsNotice, IsQuotable, read-IsQuotable, difference-IsQuotable, Fine,
  IsTrue,
}

defined_name :
    (p : FundamentalMetricPoint) → IsDefined p → (name : List ℕ) × (name_of p.code ≡ some name)
defined_name p (d, h) = (d.definition_name, rw (name_of, h) refl)

module _ (rule : ChangeRuleDefinition) (t : ℕ)
    (threshold : parameter rule (codes "threshold_pp") ≡ some (pos t)) where
  abbrev IsDelta : Finding → Type 0
  IsDelta f = IsTrue (λ m. t) (λ a c. IsNotice a) f

  change_between-Fine :
      (code name : List ℕ) (current previous : FundamentalMetricPoint) (c p : ℤ)
      → name_of code ≡ some name
      → IsRead current c
      → IsRead previous p
      → Fine IsDelta (change_between rule code current previous c p (pos t))
  unfolding change_between
  change_between-Fine code name current previous c p named (dc, sc) (dp, sp) =
      let quotes : All IsQuotable (p ∷ c ∷ (c -ℤ p) ∷ []) =
        (read-IsQuotable p sp, (read-IsQuotable c sc, (difference-IsQuotable c p sc sp, tt))) in
      elim (Bool-cases (at_least (c -ℤ p) (pos t))) [
        | inr small ↦ simp (change_between, small) tt
        | inl large ↦ elim (Bool-cases (ltb_ℤ (pos 0) (c -ℤ p))) [
          | inl rises ↦
              simp (change_between, large, named, rises)
                (
                  ((dc, (dp, tt)), quotes),
                  (ground (arith, rises, large, -ℤ_parts (pos 0) (pos t)), tt),
                )
          | inr falls ↦
              simp (change_between, large, named, falls)
                (
                  ((dc, (dp, tt)), quotes),
                  (ground (arith, falls, large, -ℤ_parts (pos 0) (pos t)), tt),
                )
        ]
      ]

  pub delta_of-Fine :
      (code name : List ℕ)
      → name_of code ≡ some name
      → (series : List FundamentalMetricPoint) → All IsUsable series
      → Fine IsDelta (delta_of rule code series)
  unfolding delta_of same_period_previous
  delta_of-Fine code name named [] usable = tt
  delta_of-Fine code name named (current ∷ earlier) ((c, now, rc), usable) =
      elim (Option-cases (same_period_previous earlier current)) [
        | inl nowhere ↦ simp (delta_of, nowhere) tt
        | inr (previous, found) ↦
            let (p, before, rp) = find-All IsUsable _ earlier previous usable found in
            simp (delta_of, found, now, before, threshold)
              (change_between-Fine code name current previous c p named rc rp)
      ]

-- Important is what has changed by the bound, and only that.
abbrev pub Noted : ℕ → AttentionLevel → ℤ → Type 0
Noted bound important c = bound ≤ pos_part c + neg_part c
Noted bound notice c = (pos_part c < bound) × (neg_part c < bound)
Noted bound info c = ⊥

module _ (rule : ChangeRuleDefinition) (t i : ℕ)
    (threshold : parameter rule (codes "threshold_pp") ≡ some (pos t))
    (importance : important_bound rule ≡ pos i) where
  noted :
      (gap : ℤ) → Noted i (if at_least gap (important_bound rule) then important else notice) gap
  noted gap = elim (Bool-cases (at_least gap (pos i))) [
    | inr small ↦
        rw (importance, small)
          (
            ground (arith, small, -ℤ_parts (pos 0) (pos i)),
            ground (arith, small, -ℤ_parts (pos 0) (pos i)),
          )
    | inl large ↦ rw (importance, large) (ground (arith, large, -ℤ_parts (pos 0) (pos i)))
  ]

  abbrev IsGap : Finding → Type 0
  IsGap f = IsTrue (λ m. t) (Noted i) f

  gap_between-Fine :
      (left right : FundamentalMetricPoint) (l r : ℤ)
      → IsRead left l
      → IsRead right r
      → Fine IsGap (gap_between rule left right l r (pos t))
  unfolding gap_between
  gap_between-Fine left right l r (dl, sl) (dr, sr) =
      let (left_name, nl) = defined_name left dl in
      let (right_name, nr) = defined_name right dr in
      let quotes : All IsQuotable ((l -ℤ r) ∷ l ∷ r ∷ []) =
        (difference-IsQuotable l r sl sr, (read-IsQuotable l sl, (read-IsQuotable r sr, tt))) in
      elim (Bool-cases (at_least (l -ℤ r) (pos t))) [
        | inr small ↦ simp (gap_between, small) tt
        | inl large ↦ elim (Bool-cases (ltb_ℤ (pos 0) (l -ℤ r))) [
          | inl rises ↦
              simp (gap_between, large, nl, nr, rises)
                (
                  ((dl, (dr, tt)), quotes),
                  (ground (arith, rises, large, -ℤ_parts (pos 0) (pos t)), noted (l -ℤ r)),
                )
          | inr falls ↦
              simp (gap_between, large, nl, nr, falls)
                (
                  ((dl, (dr, tt)), quotes),
                  (ground (arith, falls, large, -ℤ_parts (pos 0) (pos t)), noted (l -ℤ r)),
                )
        ]
      ]

  pub gap_of-Fine :
      (lefts rights : List FundamentalMetricPoint)
      → All IsUsable lefts
      → All IsUsable rights
      → Fine IsGap (gap_of rule lefts rights)
  unfolding gap_of
  gap_of-Fine [] rights ul ur = tt
  gap_of-Fine (left ∷ rest) rights ((l, now, rl), ul) ur =
      let matches : FundamentalMetricPoint → Bool =
        λ r. r.period_end.ordinal == left.period_end.ordinal in
      elim (Option-cases (find matches rights)) [
        | inl nowhere ↦ simp (gap_of, nowhere) tt
        | inr (right, found) ↦
            let (r, there, rr) = find-All IsUsable matches rights right ur found in
            simp (gap_of, found, now, there, threshold) (gap_between-Fine left right l r rl rr)
      ]
