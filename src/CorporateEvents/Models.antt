-- ===== src/CorporateEvents/Models.antt =====
-- corporate_events/models.py. A moment is its number of microseconds, a UUID the number that its
-- text stands for.
use zhiniu.Prelude.{ℕ, Bool, Option, List, codes, ◌==◌}

pub data EventFamily : Type 0 where
  share_repurchase share_pledge share_unlock : EventFamily
  regulatory_action shareholder_change litigation_arbitration : EventFamily

pub data EventType : Type 0 where
  repurchase_plan repurchase_progress repurchase_completed : EventType
  repurchase_adjusted repurchase_cancelled pledge_created : EventType
  pledge_released pledge_changed unlock_scheduled : EventType
  unlock_completed regulatory_inquiry investigation_opened : EventType
  warning_letter administrative_penalty disciplinary_action : EventType
  regulatory_measure shareholding_change_plan shareholding_change_progress : EventType
  shareholding_change_completed shareholding_change_cancelled case_filed : EventType
  case_progress judgment_or_award case_closed : EventType

-- `family.value` and `event_type.value`
abbrev pub family_value : EventFamily → List ℕ
family_value share_repurchase = codes "share_repurchase"
family_value share_pledge = codes "share_pledge"
family_value share_unlock = codes "share_unlock"
family_value regulatory_action = codes "regulatory_action"
family_value shareholder_change = codes "shareholder_change"
family_value litigation_arbitration = codes "litigation_arbitration"

abbrev pub type_value : EventType → List ℕ
type_value repurchase_plan = codes "repurchase_plan"
type_value repurchase_progress = codes "repurchase_progress"
type_value repurchase_completed = codes "repurchase_completed"
type_value repurchase_adjusted = codes "repurchase_adjusted"
type_value repurchase_cancelled = codes "repurchase_cancelled"
type_value pledge_created = codes "pledge_created"
type_value pledge_released = codes "pledge_released"
type_value pledge_changed = codes "pledge_changed"
type_value unlock_scheduled = codes "unlock_scheduled"
type_value unlock_completed = codes "unlock_completed"
type_value regulatory_inquiry = codes "regulatory_inquiry"
type_value investigation_opened = codes "investigation_opened"
type_value warning_letter = codes "warning_letter"
type_value administrative_penalty = codes "administrative_penalty"
type_value disciplinary_action = codes "disciplinary_action"
type_value regulatory_measure = codes "regulatory_measure"
type_value shareholding_change_plan = codes "shareholding_change_plan"
type_value shareholding_change_progress = codes "shareholding_change_progress"
type_value shareholding_change_completed = codes "shareholding_change_completed"
type_value shareholding_change_cancelled = codes "shareholding_change_cancelled"
type_value case_filed = codes "case_filed"
type_value case_progress = codes "case_progress"
type_value judgment_or_award = codes "judgment_or_award"
type_value case_closed = codes "case_closed"

-- The place of a family in its enumeration, by which families are compared.
abbrev pub family_index : EventFamily → ℕ
family_index share_repurchase = 0
family_index share_pledge = 1
family_index share_unlock = 2
family_index regulatory_action = 3
family_index shareholder_change = 4
family_index litigation_arbitration = 5

abbrev pub family_eq : EventFamily → EventFamily → Bool
family_eq a b = family_index a == family_index b

-- A value of a JSON payload: None, a text, or another value with its `str` and its truth.
pub data PayloadValue : Type 0 where
  null : PayloadValue
  text : List ℕ → PayloadValue
  other : List ℕ → Bool → PayloadValue

pub record DisclosureDocument : Type 0 where
  pub id : ℕ
  pub symbol : List ℕ
  pub source_document_id : List ℕ
  pub title : List ℕ
  pub source_published_at : ℕ
  pub source_published_precision : List ℕ
  pub known_at : ℕ

pub record SourceFact : Type 0 where
  pub id : ℕ
  pub raw_payload : List (List ℕ × PayloadValue)

pub data ClassificationStatus : Type 0 where
  classified unclassified ambiguous unsupported : ClassificationStatus

pub record Classification : Type 0 where
  pub event_family : Option EventFamily
  pub event_type : Option EventType
  pub status : ClassificationStatus
  pub matched_rule : Option (List ℕ)
