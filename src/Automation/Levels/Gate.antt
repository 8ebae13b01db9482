-- ===== src/Automation/Levels/Gate.antt =====
-- When the service levels let a release pass.
use zhiniu.Prelude.{
  ℕ, ◌*◌, ◌≤◌, Bool, true, false, not, ◌≡◌, ◌↔◌, refl, List, [], ◌∷◌, length, count_by, All, leb,
  ltb, ◌==◌, arith, Bool-cases, inl, inr,
}
use zhiniu.Automation.Models.{AutomationRunRecord, AutomationRunStepRecord}
use zhiniu.Automation.Levels.{
  MetricKey, BlockingReason, acceptable_terminal_rate_below_target, stale_active_runs_present,
  unclassified_failures_present, queue_start, market_ready, deterministic_ready, ai_terminal,
  target_ms_of, slo_minimum_sample_count, latencies_of, metric_reasons, reason_if, is_nil, joined,
  below_target, terminal_rate, is_ended, is_acceptable, is_stale_run, count_unclassified,
  build_automation_slo_snapshot,
}
use zhiniu.Automation.Levels.Percentile.{p95_lem}

joined-is_nil :
    {A : Type 0} (xss : List (List A))
    → is_nil (joined xss) ≡ true
    → All (λ xs. is_nil xs ≡ true) xss
joined-is_nil [] h = tt
joined-is_nil ([] ∷ rest) h = (refl, joined-is_nil rest h)
joined-is_nil ((x ∷ xs) ∷ rest) h = ground arith

is_nil-joined :
    {A : Type 0} (xss : List (List A))
    → All (λ xs. is_nil xs ≡ true) xss
    → is_nil (joined xss) ≡ true
is_nil-joined [] h = refl
is_nil-joined ([] ∷ rest) h = is_nil-joined rest h.1
is_nil-joined ((x ∷ xs) ∷ rest) h = ground (arith, h.0)

count_mono :
    (p q : ℕ → Bool) (xs : List ℕ)
    → ((x : ℕ) → p x ≡ true → q x ≡ true)
    → count_by p xs ≤ count_by q xs
count_mono p q [] h = omega arith
count_mono p q (x ∷ xs) h = ground (arith, count_mono p q xs h, h x)

-- A metric with the samples, of which 95 of 100 are in time.
pub record IsMet (key : MetricKey) (values : List ℕ) : Type 0 where
  pub samples : slo_minimum_sample_count ≤ length values
  pub in_time : 95 * length values ≤ 100 * count_by (λ x. leb x (target_ms_of key)) values

passes-IsMet :
    (key : MetricKey) (values : List ℕ)
    → is_nil (metric_reasons key values) ≡ true
    → IsMet key values
passes-IsMet key values h = elim (Bool-cases (ltb (length values) slo_minimum_sample_count)) [
  | inl few ↦ ground (arith, rw few at h)
  | inr enough ↦
      let (v, there, most, fewer) = p95_lem values (ground (arith, enough)) in
      let in_target = rw (enough, there) at h in
      record {
        samples = ground (arith, enough);
        in_time = omega (
          arith,
          most,
          count_mono (λ x. leb x v) (λ x. leb x (target_ms_of key)) values
              (λ x k. ground (arith, in_target, k)),
        );
      }
]

IsMet-passes :
    (key : MetricKey) (values : List ℕ)
    → IsMet key values
    → is_nil (metric_reasons key values) ≡ true
IsMet-passes key values m =
    let (v, there, most, fewer) = p95_lem values (omega (arith, m.samples)) in
    elim (Bool-cases (ltb (target_ms_of key) v)) [
      | inl late ↦ absurd (
          omega (
            arith,
            fewer,
            m.in_time,
            count_mono (λ x. leb x (target_ms_of key)) (λ x. ltb x v) values
                (λ x k. ground (arith, late, k)),
          ))
      | inr in_target ↦ rw (there, in_target) (ground (arith, m.samples))
    ]

-- What a release needs.
pub record IsReleasable (runs : List AutomationRunRecord) (steps : List AutomationRunStepRecord)
    (generated : ℕ) : Type 0 where
  pub met : (key : MetricKey) → IsMet key (latencies_of runs steps key)
  pub rate :
      below_target (
        terminal_rate
          (count_by (λ r. is_acceptable r.status) runs)
          (count_by (λ r. is_ended r.status) runs))
      ≡ false
  pub none_stale : count_by (is_stale_run generated) runs ≡ 0
  pub all_classified : count_unclassified runs steps ≡ 0

reason_if-is_nil : (b : Bool) (r : BlockingReason) → is_nil (reason_if b r) ≡ true → b ≡ false
reason_if-is_nil true r h = ground arith
reason_if-is_nil false r h = refl

nil-reason_if : (b : Bool) (r : BlockingReason) → b ≡ false → is_nil (reason_if b r) ≡ true
nil-reason_if true r h = ground arith
nil-reason_if false r h = refl

zero_of : (n : ℕ) → not (n == 0) ≡ false → n ≡ 0
zero_of n h = ground (arith, h)

not_zero : (n : ℕ) → n ≡ 0 → not (n == 0) ≡ false
not_zero n h = ground (arith, h)

module _ (runs : List AutomationRunRecord) (steps : List AutomationRunStepRecord)
    (generated : ℕ) where
  gate-IsReleasable :
      (build_automation_slo_snapshot runs steps generated).release_gate_met ≡ true
      → IsReleasable runs steps generated
  unfolding build_automation_slo_snapshot
  gate-IsReleasable h =
      let (a, (b, (c, (d, (e, (f, (g, _))))))) = joined-is_nil (_ ∷ _ ∷ _ ∷ _ ∷ _ ∷ _ ∷ _ ∷ []) h in
      record {
        met = λ key. elim key as (λ k. IsMet k (latencies_of runs steps k)) [
          | queue_start ↦ passes-IsMet queue_start _ a
          | market_ready ↦ passes-IsMet market_ready _ b
          | deterministic_ready ↦ passes-IsMet deterministic_ready _ c
          | ai_terminal ↦ passes-IsMet ai_terminal _ d
        ];
        rate = reason_if-is_nil _ acceptable_terminal_rate_below_target e;
        none_stale = zero_of _ (reason_if-is_nil _ stale_active_runs_present f);
        all_classified = zero_of _ (reason_if-is_nil _ unclassified_failures_present g);
      }

  IsReleasable-gate :
      IsReleasable runs steps generated
      → (build_automation_slo_snapshot runs steps generated).release_gate_met ≡ true
  unfolding build_automation_slo_snapshot
  IsReleasable-gate r = is_nil-joined (_ ∷ _ ∷ _ ∷ _ ∷ _ ∷ _ ∷ _ ∷ []) (
    IsMet-passes queue_start _ (r.met queue_start),
    (
      IsMet-passes market_ready _ (r.met market_ready),
      (
        IsMet-passes deterministic_ready _ (r.met deterministic_ready),
        (
          IsMet-passes ai_terminal _ (r.met ai_terminal),
          (
            nil-reason_if _ acceptable_terminal_rate_below_target r.rate,
            (
              nil-reason_if _ stale_active_runs_present (not_zero _ r.none_stale),
              (nil-reason_if _ unclassified_failures_present (not_zero _ r.all_classified), tt),
            ),
          ),
        ),
      ),
    ),
  )

  -- The release gate is met exactly when every metric has at least 20 samples of which 95 of 100 are
  -- within its target, the rate of acceptable runs is not below its target, no active run is stale
  -- and no failure is without a code.
  pub gate_met :
      ((build_automation_slo_snapshot runs steps generated).release_gate_met ≡ true)
      ↔ IsReleasable runs steps generated
  gate_met = (gate-IsReleasable, IsReleasable-gate)
