-- ===== src/Research/Directions.antt =====
-- What `_growth_rule` finds: a change that goes where it says, and as far as the rule asks.
use zhiniu.Prelude.{
  ℕ, ◌+◌, ◌*◌, ◌^◌, ◌≤◌, ◌<◌, ◌&&◌, ◌≡◌, inl, inr, Option, none, some, List, [], ◌∷◌, codes, All,
  Bool-cases, arith,
}
use zhiniu.Prelude.Int.{ℤ, pos, pos_part, neg_part, ◌-ℤ◌, leb_ℤ, -ℤ_parts}
use zhiniu.Research.Models.{
  AttentionLevel, info, notice, important, Movement, up, down, crossed_up, crossed_down, neutral,
  FundamentalMetricPoint, MetricDefinition, definition_by_code,
}
use zhiniu.Research.Series.{is_next, period_index}
use zhiniu.Research.Observations.{ChangeRuleDefinition, RolePoint, Finding}
use zhiniu.Research.Rules.{
  parameter, name_of, leb_neg, two_steps, earlier_steps, crossing_of, growth_of,
}

-- A change that goes where the movement says, as far as the movement asks.
abbrev pub Directed : (Movement → ℕ) → Movement → ℤ → Type 0
Directed least up c = least up ≤ pos_part c
Directed least crossed_up c = least crossed_up ≤ pos_part c
Directed least down c = least down ≤ neg_part c
Directed least crossed_down c = least crossed_down ≤ neg_part c
Directed least neutral c = ⊥

-- Two steps have the least total, and a crossing passes the band on both sides of zero.
abbrev pub growth_least : ℕ → ℕ → Movement → ℕ
growth_least total band up = total
growth_least total band down = total
growth_least total band crossed_up = band + band
growth_least total band crossed_down = band + band
growth_least total band neutral = 0

abbrev pub IsNotice : AttentionLevel → Type 0
IsNotice notice = Unit
IsNotice important = ⊥
IsNotice info = ⊥

-- The metric of the point has a definition.
abbrev pub IsDefined : FundamentalMetricPoint → Type 0
IsDefined p = (d : MetricDefinition) × (definition_by_code p.code ≡ some d)

-- A value that the column of 30 digits holds.
abbrev pub InColumn : ℤ → Type 0
InColumn v = pos_part v + neg_part v < 10 ^ 30

abbrev pub IsRead : FundamentalMetricPoint → ℤ → Type 0
IsRead p v = IsDefined p × InColumn v

abbrev pub IsUsable : FundamentalMetricPoint → Type 0
IsUsable p = (v : ℤ) × (p.value ≡ some v) × (IsRead p v)

-- There is a current point, and every metric that the evidence names has a definition.
abbrev pub IsEvidence : List RolePoint → Type 0
IsEvidence [] = ⊥
IsEvidence (r ∷ rs) = All (λ s. IsDefined s.point) (r ∷ rs)

-- A value or a difference of values of the column.
abbrev pub IsQuotable : ℤ → Type 0
IsQuotable v = pos_part v + neg_part v < 2 * 10 ^ 30

abbrev pub IsMade : Finding → Type 0
IsMade f = IsEvidence f.points × All IsQuotable f.quoted

pub read-IsQuotable : (v : ℤ) → InColumn v → IsQuotable v
read-IsQuotable v h = omega (arith, h)

pub difference-IsQuotable : (a b : ℤ) → InColumn a → InColumn b → IsQuotable (a -ℤ b)
unfolding ◌-ℤ◌
difference-IsQuotable a b h k = ground (arith, h, k)

abbrev pub Fine : (Finding → Type 0) → Option (Option Finding) → Type 0
Fine P none = ⊥
Fine P (some none) = Unit
Fine P (some (some f)) = P f

abbrev pub IsTrue : (Movement → ℕ) → (AttentionLevel → ℤ → Type 0) → Finding → Type 0
IsTrue least noted f =
    IsMade f
    × (Directed least f.direction f.trace.change_value × noted f.attention f.trace.change_value)

module _ (rule : ChangeRuleDefinition) (code name : List ℕ) (b t z : ℕ)
    (min_step : parameter rule (codes "min_step_pp") ≡ some (pos b))
    (min_total : parameter rule (codes "min_total_pp") ≡ some (pos t))
    (zero_band : parameter rule (codes "zero_band_pp") ≡ some (pos z)) where
  abbrev IsGrowth : Finding → Type 0
  IsGrowth f = IsTrue (growth_least t z) (λ a c. IsNotice a) f

  two_steps-Fine :
      (current previous earliest : FundamentalMetricPoint) (c p e : ℤ)
      → IsRead current c
      → IsRead previous p
      → IsRead earliest e
      → Fine IsGrowth (two_steps rule code name current previous earliest c p e)
  unfolding two_steps
  two_steps-Fine current previous earliest c p e (dc, sc) (dp, sp) (de, se) =
      let made : All (λ s. IsDefined s) (current ∷ previous ∷ earliest ∷ []) =
        (dc, (dp, (de, tt))) in
      let quotes : All IsQuotable (e ∷ p ∷ c ∷ (c -ℤ e) ∷ []) = (
        read-IsQuotable e se,
        (read-IsQuotable p sp, (read-IsQuotable c sc, (difference-IsQuotable c e sc se, tt))),
      ) in
      rw (two_steps, min_step, min_total)
        elim (Bool-cases
          (leb_ℤ (pos b) (p -ℤ e) && leb_ℤ (pos b) (c -ℤ p) && leb_ℤ (pos t) (c -ℤ e))) [
            | inl rises ↦ rw rises ((made, quotes), (ground (arith, rises), tt))
            | inr still ↦
                rw still
                  elim (Bool-cases (
                    leb_neg (p -ℤ e) (pos b)
                    && leb_neg (c -ℤ p) (pos b)
                    && leb_neg (c -ℤ e) (pos t))) [
                      | inl falls ↦
                          rw falls
                            ((made, quotes), (ground (arith, falls, -ℤ_parts (pos 0) (pos t)), tt))
                      | inr flat ↦ rw flat tt
                    ]
          ]

  earlier_steps-Fine :
      (current previous : FundamentalMetricPoint) (earlier : List FundamentalMetricPoint) (c p : ℤ)
      → IsRead current c
      → IsRead previous p
      → All IsUsable earlier
      → Fine IsGrowth (earlier_steps rule code name current previous earlier c p)
  unfolding earlier_steps
  earlier_steps-Fine current previous [] c p rc rp usable = tt
  earlier_steps-Fine current previous (earliest ∷ rest) c p rc rp ((e, there, re), usable) =
      elim (Bool-cases (is_next (period_index earliest) (period_index previous))) [
        | inl next ↦
            simp (earlier_steps, next, there)
              (two_steps-Fine current previous earliest c p e rc rp re)
        | inr apart ↦ rw (earlier_steps, apart) tt
      ]

  crossing_of-Fine :
      (current previous : FundamentalMetricPoint) (earlier : List FundamentalMetricPoint) (c p : ℤ)
      → IsRead current c
      → IsRead previous p
      → All IsUsable earlier
      → Fine IsGrowth (crossing_of rule code name (pos z) current previous earlier c p)
  unfolding crossing_of
  crossing_of-Fine current previous earlier c p (dc, sc) (dp, sp) usable =
      let quotes : All IsQuotable (p ∷ c ∷ []) =
        (read-IsQuotable p sp, (read-IsQuotable c sc, tt)) in
      elim (Bool-cases (leb_neg p (pos z) && leb_ℤ (pos z) c)) [
        | inl rises ↦
            rw (crossing_of, rises)
              (
                ((dc, (dp, tt)), quotes),
                (ground (arith, rises, -ℤ_parts (pos 0) (pos z), -ℤ_parts c p), tt),
              )
        | inr other ↦ elim (Bool-cases (leb_ℤ (pos z) p && leb_neg c (pos z))) [
          | inl falls ↦
              rw (crossing_of, other, falls)
                (
                  ((dc, (dp, tt)), quotes),
                  (ground (arith, falls, -ℤ_parts (pos 0) (pos z), -ℤ_parts c p), tt),
                )
          | inr within ↦
              rw (crossing_of, other, within)
                (earlier_steps-Fine current previous earlier c p (dc, sc) (dp, sp) usable)
        ]
      ]

  pub growth_of-Fine :
      name_of code ≡ some name
      → (series : List FundamentalMetricPoint) → All IsUsable series
      → Fine IsGrowth (growth_of rule code series)
  unfolding growth_of
  growth_of-Fine named [] usable = tt
  growth_of-Fine named (current ∷ []) usable = tt
  growth_of-Fine named (current ∷ previous ∷ earlier) ((c, now, rc), ((p, before, rp), usable)) =
      elim (Bool-cases (is_next (period_index previous) (period_index current))) [
        | inl next ↦
            simp (growth_of, next, now, before, named, zero_band)
              (crossing_of-Fine current previous earlier c p rc rp usable)
        | inr apart ↦ rw (growth_of, apart) tt
      ]
