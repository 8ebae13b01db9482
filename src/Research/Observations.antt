-- ===== src/Research/Observations.antt =====
-- `_evidence_metric`, `_sources` and `_make_observation` of research/rules.py. `none` is an exception
-- of Python. The digests are given; a text of
-- a summary or of an expression stands by the numbers that it prints.
use zhiniu.Prelude.{
  ℕ, ◌+◌, ◌/◌, ◌%◌, ◌^◌, ltb, Option, none, some, List, [], ◌∷◌, ◌++◌, map, find, any_by, ◌==◌,
  if◌then◌else◌,
}
use zhiniu.Prelude.Int.{ℤ, pos, pos_part, neg_part, ltb_ℤ}
use zhiniu.Prelude.Maybe.{◌>>=◌}
use zhiniu.Research.Models.{Quote}
use zhiniu.Research.Models.{
  ObservationDimension, AttentionLevel, Movement, PeriodEnd, FundamentalMetricPoint,
  FinancialReport, EvidenceMetric, CalculationTrace, ResearchObservation, definition_by_code,
}

-- A parameter is a number of percentage points.
pub record ChangeRuleDefinition : Type 0 where
  pub rule_id : List ℕ
  pub version : List ℕ
  pub rule_dimension : ObservationDimension
  pub required_metrics : List (List ℕ)
  pub minimum_history : ℕ
  pub parameters : List (List ℕ × ℕ)
  pub supported_templates : List (List ℕ)

pub record KeyMaterial : Type 0 where
  pub key_symbol : List ℕ
  pub key_rule_id : List ℕ
  pub key_rule_version : List ℕ
  pub key_family : List ℕ
  pub key_type : List ℕ
  pub key_period : PeriodEnd

-- The hashes of the canonical texts, and the UUID of a hash.
pub record Digests : Type 0 where
  pub key_hash : KeyMaterial → List ℕ
  pub content_hash_of : KeyMaterial → ChangeRuleDefinition → List (List ℕ) → List ℕ
  pub uuid_of : List ℕ → ℕ

-- A point with its role.
pub record RolePoint : Type 0 where
  pub point_role : List ℕ
  pub point : FundamentalMetricPoint

-- `_evidence_metric`
unfoldable pub evidence_metric : RolePoint → Option EvidenceMetric
evidence_metric r = elim (definition_by_code r.point.code) [
  | none ↦ none
  | some definition ↦ some (record {
    metric_point_id = r.point.id;
    role = r.point_role;
    metric_code = r.point.code;
    display_name = definition.definition_name;
    evidence_end = r.point.period_end;
    evidence_period = r.point.fiscal_period;
    evidence_basis = r.point.basis;
    evidence_value = r.point.value;
    evidence_unit = r.point.unit;
    evidence_status = r.point.status;
    evidence_report_ids = r.point.input_report_ids;
    evidence_valuation_ids = r.point.input_valuation_ids;
  })
]

unfoldable pub evidence_metrics_of : List RolePoint → Option (List EvidenceMetric)
evidence_metrics_of [] = some []
evidence_metrics_of (p ∷ ps) =
    evidence_metric p >>= (λ e. evidence_metrics_of ps >>= (λ es. some (e ∷ es)))

-- The ids of the reports, each once.
abbrev pub add_ids : List ℕ → List ℕ → List ℕ
add_ids ids [] = ids
add_ids ids (report ∷ rest) =
    add_ids (if any_by (λ i. i == report) ids then ids else ids ++ (report ∷ [])) rest

abbrev pub source_ids : List ℕ → List RolePoint → List ℕ
source_ids ids [] = ids
source_ids ids (p ∷ ps) = source_ids (add_ids ids p.point.input_report_ids) ps

abbrev pub found_reports : List FinancialReport → List ℕ → List FinancialReport
found_reports reports [] = []
found_reports reports (id ∷ rest) = elim (find (λ r. r.report_id == id) reports) [
  | none ↦ found_reports reports rest
  | some r ↦ r ∷ found_reports reports rest
]

-- `_sources`
unfoldable pub sources : List RolePoint → List FinancialReport → List FinancialReport
sources points reports = found_reports reports (source_ids [] points)

-- `quantize(Decimal("0.01"))` of a number of units, to the nearest hundredth, and of two as near to
-- the even one.
abbrev pub half_even : ℕ → ℕ
half_even units =
    let whole = units / 1000000 in
    let rest = units % 1000000 in
    if ltb rest 500000 then whole else (if ltb 500000 rest then whole + 1 else whole + whole % 2)

-- `_fmt`: the result has at most the 28 digits of the context, or else `InvalidOperation` is raised.
unfoldable pub fmt : ℤ → Option Quote
fmt x =
    let h = half_even (pos_part x + neg_part x) in
    if ltb h (10 ^ 28)
    then some (record { is_negative = ltb_ℤ x (pos 0); hundredths = h })
    else none

unfoldable pub fmt_all : List ℤ → Option (List Quote)
fmt_all [] = some []
fmt_all (x ∷ xs) = fmt x >>= (λ q. fmt_all xs >>= (λ qs. some (q ∷ qs)))

-- What a rule has found; `quoted` are the values that its texts print by `_fmt`.
pub record Finding : Type 0 where
  pub family : List ℕ
  pub kind : List ℕ
  pub attention : AttentionLevel
  pub direction : Movement
  pub headline : List ℕ
  pub points : List RolePoint
  pub quoted : List ℤ
  pub trace : CalculationTrace

abbrev pub observation_of :
    Digests
    → List ℕ
    → ChangeRuleDefinition
    → List FinancialReport
    → ℕ
    → Finding
    → FundamentalMetricPoint
    → List RolePoint
    → List EvidenceMetric
    → List Quote
    → ResearchObservation
observation_of d symbol rule reports generated_at f current compared evidence quotes =
    let material : KeyMaterial = record {
      key_symbol = symbol;
      key_rule_id = rule.rule_id;
      key_rule_version = rule.version;
      key_family = f.family;
      key_type = f.kind;
      key_period = current.period_end;
    } in
    let content = d.content_hash_of material rule (map (λ p. p.point.input_fingerprint) f.points) in
    record {
      observation_id = d.uuid_of content;
      symbol = symbol;
      dimension = rule.rule_dimension;
      observation_family = f.family;
      observation_type = f.kind;
      attention_level = f.attention;
      movement = f.direction;
      title = f.headline;
      current_period = current.period_end;
      comparison_periods = map (λ p. p.point.period_end) compared;
      rule_id = rule.rule_id;
      rule_version = rule.version;
      observation_key = d.key_hash material;
      content_fingerprint = content;
      evidence_metrics = evidence;
      evidence_sources = sources f.points reports;
      calculation = f.trace;
      quotes = quotes;
      generated_at = generated_at;
    }

-- On the points with their roles, of which the first is the current one.
unfoldable pub observation_on :
    Digests
    → List ℕ
    → ChangeRuleDefinition
    → List FinancialReport
    → ℕ
    → Finding
    → List RolePoint
    → Option ResearchObservation
observation_on d symbol rule reports generated_at f [] = none
observation_on d symbol rule reports generated_at f (current ∷ compared) =
    fmt_all f.quoted >>= (λ quotes. evidence_metrics_of (current ∷ compared) >>= (λ evidence.
      some (
        observation_of d symbol rule reports generated_at f current.point compared evidence
          quotes)))

-- `_make_observation`
abbrev pub make_observation :
    Digests
    → List ℕ
    → ChangeRuleDefinition
    → List FinancialReport
    → ℕ
    → Finding
    → Option ResearchObservation
make_observation d symbol rule reports generated_at f =
    observation_on d symbol rule reports generated_at f f.points
