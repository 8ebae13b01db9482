-- ===== src/CorporateEvents/Classify.antt =====
-- `classify_title` and `attention_for` of corporate_events/engine.py.
pub mod Outcome
pub mod Families
use zhiniu.Prelude.{
  ℕ, suc, Bool, true, false, ◌&&◌, ◌||◌, Option, none, some, List, [], ◌∷◌, ◌++◌, codes, is_infix,
  any_by, filter_by, length, ltb, if◌then◌else◌,
}
use zhiniu.CorporateEvents.Models
use zhiniu.CorporateEvents.Models.{
  EventFamily, EventType, Classification, classified, unclassified, ambiguous, unsupported,
  family_eq,
}
use zhiniu.CorporateEvents.Rules.{ClassificationRule, rules}

-- `any(term in title for term in terms)`
unfoldable pub mentions : List ℕ → List (List ℕ) → Bool
mentions title terms = any_by (λ term. is_infix term title) terms

abbrev pub excluded_terms : List (List ℕ)
excluded_terms = codes "不减持承诺" ∷ codes "不增持承诺" ∷ codes "权益变动报告书" ∷ []

unfoldable pub is_incentive_cancellation : List ℕ → Bool
is_incentive_cancellation title =
    is_infix (codes "回购注销") title
    && (is_infix (codes "限制性股票") title || is_infix (codes "股权激励") title)

-- `[rule for rule in RULES if any(term in title for term in rule[3])]`
unfoldable pub matching_rules : List ℕ → List ClassificationRule → List ClassificationRule
matching_rules title table = filter_by (λ rule. mentions title rule.terms) table

-- `{item[1] for item in matches}`
unfoldable pub families : List ClassificationRule → List EventFamily
families [] = []
families (rule ∷ rest) =
    let others = families rest in
    if any_by (family_eq rule.family) others then others else rule.family ∷ others

abbrev failed : Models.ClassificationStatus → Option (List ℕ) → Classification
failed status rule = record {
  event_family = none;
  event_type = none;
  status = status;
  matched_rule = rule;
}

-- The part of `classify_title` below the search of the table.
unfoldable pub classify_matches : List ClassificationRule → Classification
classify_matches [] = failed unclassified none
classify_matches (rule ∷ rest) =
    if ltb 1 (length (families (rule ∷ rest))) then failed ambiguous none else record {
      event_family = some rule.family;
      event_type = some rule.event_type;
      status = classified;
      matched_rule = some (codes "corporate-disclosure-classifier-v2.1:" ++ rule.rule_id);
    }

-- `classify_title`, over a table of rules
unfoldable pub classify_by : List ClassificationRule → List ℕ → Classification
classify_by table title =
    if mentions title excluded_terms
    then failed unsupported (some (codes "shareholding-change-exclusion"))
    else if is_incentive_cancellation title
    then failed unsupported (some (codes "equity-incentive-cancellation"))
    else classify_matches (matching_rules title table)

unfoldable pub classify_title : List ℕ → Classification
classify_title title = classify_by rules title

pub data AttentionLevel : Type 0 where
  info notice important : AttentionLevel

-- The level, the name of the rule and the explanation.
abbrev pub Attention : Type 0
Attention = AttentionLevel × List ℕ × List ℕ

abbrev material_action : Attention
material_action = (important, codes "material-regulatory-action", codes "涉及调查、处罚或纪律处分，需核对后续正式披露")

abbrev follow_up : Attention
follow_up = (notice, codes "follow-up-required", codes "事件可能存在后续进展，建议持续核对公告")

abbrev routine : Attention
routine = (info, codes "routine-disclosure", codes "记录已披露的公司行动及其进展")

-- `attention_for`
unfoldable pub attention_for : EventType → Attention
attention_for EventType.investigation_opened = material_action
attention_for EventType.administrative_penalty = material_action
attention_for EventType.disciplinary_action = material_action
attention_for EventType.regulatory_inquiry = follow_up
attention_for EventType.warning_letter = follow_up
attention_for EventType.regulatory_measure = follow_up
attention_for EventType.pledge_created = follow_up
attention_for EventType.pledge_changed = follow_up
attention_for EventType.unlock_scheduled = follow_up
attention_for EventType.repurchase_cancelled = follow_up
attention_for EventType.shareholding_change_plan = follow_up
attention_for EventType.shareholding_change_progress = follow_up
attention_for EventType.case_filed = follow_up
attention_for EventType.case_progress = follow_up
attention_for EventType.judgment_or_award = follow_up
attention_for _ = routine
