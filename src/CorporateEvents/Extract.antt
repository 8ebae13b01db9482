-- ===== src/CorporateEvents/Extract.antt =====
-- `extract_candidate` of corporate_events/engine.py and the functions that it calls. A dict is an
-- association list in the order of its keys. `date.fromisoformat` and the hash of a value's JSON
-- are arguments.
pub mod Threads
use zhiniu.Prelude.{
  ℕ, ◌&&◌, ◌||◌, Bool, true, false, Option, none, some, List, [], ◌∷◌, ◌++◌, map, codes, text_eq,
  is_infix, strip, dashes, take, is_some, if◌then◌else◌, ◌==◌, any_by, filter_by, not,
}
use zhiniu.CorporateEvents.Models
use zhiniu.CorporateEvents.Models.{
  EventFamily, EventType, family_value, type_value, PayloadValue, null, text, other,
  DisclosureDocument, SourceFact, Classification, classified, unclassified, ambiguous, unsupported,
}

abbrev pub Payload : Type 0
Payload = List (List ℕ × PayloadValue)

-- `payload.get(key)`
abbrev pub get : Payload → List ℕ → PayloadValue
get [] key = null
get ((k, v) ∷ rest) key = if text_eq k key then v else get rest key

-- `payload[key] = value`
abbrev pub put : List ℕ → PayloadValue → Payload → Payload
put key value [] = (key, value) ∷ []
put key value ((k, v) ∷ rest) =
    if text_eq k key then (k, value) ∷ rest else (k, v) ∷ put key value rest

-- `payload.update(fields)`
abbrev pub update : Payload → Payload → Payload
update payload [] = payload
update payload ((k, v) ∷ fields) = update (put k v payload) fields

-- `bool(value)` and `str(value)`
abbrev pub truth : PayloadValue → Bool
truth null = false
truth (text []) = false
truth (text (c ∷ cs)) = true
truth (other s b) = b

abbrev pub str : PayloadValue → List ℕ
str null = codes "None"
str (text s) = s
str (other s b) = s

-- `value in (None, "")`
abbrev is_blank : PayloadValue → Bool
is_blank null = true
is_blank (text []) = true
is_blank value = false

-- `value in (None, "", "nan")`
abbrev is_missing : PayloadValue → Bool
is_missing null = true
is_missing (text s) = text_eq s [] || text_eq s (codes "nan")
is_missing (other s b) = false

abbrev date_keys : List (List ℕ)
date_keys =
    codes "解禁日期" ∷ codes "上市流通日期" ∷ codes "变动日期" ∷ codes "实施日期" ∷ codes "日期" ∷ codes "date" ∷ []

-- The loop of `_effective_date`: the first key whose value is a date.
unfoldable pub first_date : (List ℕ → Option ℕ) → Payload → List (List ℕ) → Option ℕ
first_date fromisoformat payload [] = none
first_date fromisoformat payload (key ∷ keys) =
    let value = get payload key in
    let later = first_date fromisoformat payload keys in
    if is_blank value then later else elim (fromisoformat (take 10 (dashes (strip (str value))))) [
      | none ↦ later
      | some d ↦ some d
    ]

unfoldable pub effective_date : (List ℕ → Option ℕ) → Payload → Option ℕ
effective_date fromisoformat payload = first_date fromisoformat payload date_keys

-- The keys that `_selected_fields` allows, with what `_snake` makes of them.
abbrev allowed_fields : List (List ℕ × List ℕ)
allowed_fields =
    (codes "holder_name", codes "holder_name")
    ∷ (codes "shareholder_name", codes "shareholder_name")
    ∷ (codes "holder_type", codes "holder_type")
    ∷ (codes "plan_reference", codes "plan_reference")
    ∷ (codes "planned_shares", codes "planned_shares")
    ∷ (codes "planned_ratio_total", codes "planned_ratio_total")
    ∷ (codes "completed_shares", codes "completed_shares")
    ∷ (codes "completed_ratio_total", codes "completed_ratio_total")
    ∷ (codes "case_reference", codes "case_reference")
    ∷ (codes "company_role", codes "company_role")
    ∷ (codes "counterparty", codes "counterparty")
    ∷ (codes "court_or_body", codes "court_or_body")
    ∷ (codes "amount", codes "amount")
    ∷ (codes "currency", codes "currency")
    ∷ (codes "judgment_amount", codes "judgment_amount")
    ∷ (codes "股东名称", codes "shareholder_name")
    ∷ (codes "质押方", codes "pledgor")
    ∷ (codes "质押数量", codes "pledged_shares")
    ∷ (codes "质押比例", codes "pledged_ratio")
    ∷ (codes "回购数量", codes "repurchased_shares")
    ∷ (codes "回购金额", codes "repurchase_amount")
    ∷ (codes "解禁数量", codes "unlock_shares")
    ∷ (codes "解禁比例", codes "unlock_ratio")
    ∷ (codes "解禁日期", codes "unlock_date")
    ∷ (codes "上市流通日期", codes "listing_date")
    ∷ []

unfoldable pub select : Payload → List (List ℕ × List ℕ) → Payload → Payload
select payload [] result = result
select payload ((key, field) ∷ rest) result =
    let value = get payload key in
    if is_missing value
    then select payload rest result
    else select payload rest (put field value result)

-- `_selected_fields`
unfoldable pub selected_fields : Payload → Payload
selected_fields payload = select payload allowed_fields []

abbrev direction : List ℕ → PayloadValue
direction title =
    if is_infix (codes "增持") title
    then text (codes "increase")
    else if is_infix (codes "减持") title
    then text (codes "decrease")
    else null

abbrev stage : EventType → PayloadValue
stage EventType.shareholding_change_plan = text (codes "plan")
stage EventType.shareholding_change_progress = text (codes "progress")
stage EventType.shareholding_change_completed = text (codes "completed")
stage EventType.shareholding_change_cancelled = text (codes "cancelled")
stage _ = null

abbrev case_stage : EventType → PayloadValue
case_stage EventType.case_filed = text (codes "filed")
case_stage EventType.case_progress = text (codes "progress")
case_stage EventType.judgment_or_award = text (codes "judgment_or_award")
case_stage EventType.case_closed = text (codes "closed")
case_stage _ = null

-- `_family_fields` of a classified title
unfoldable pub family_fields : List ℕ → EventFamily → EventType → Payload
family_fields title EventFamily.shareholder_change e =
    (codes "direction", direction title) ∷ (codes "stage", stage e) ∷ []
family_fields title EventFamily.litigation_arbitration e =
    (
      codes "case_kind",
      text (if is_infix (codes "仲裁") title then codes "arbitration" else codes "litigation"),
    )
    ∷ (codes "case_stage", case_stage e)
    ∷ []
family_fields title family e = []

-- What the key of a thread is the hash of.
pub data ThreadMaterial : Type 0 where
  by_plan :
      (symbol : List ℕ) (family : EventFamily) (holder : List ℕ) (direction : PayloadValue)
      (plan_reference : List ℕ)
      → ThreadMaterial
  by_case : (symbol : List ℕ) (family : EventFamily) (case_reference : List ℕ) → ThreadMaterial
  by_document :
      (symbol : List ℕ) (family : EventFamily) (source_document_id : List ℕ) → ThreadMaterial
  by_date : (symbol : List ℕ) (family : EventFamily) (effective : Option ℕ) → ThreadMaterial

-- `a or b`
abbrev or_value : PayloadValue → PayloadValue → PayloadValue
or_value a b = if truth a then a else b

abbrev holder_of : Payload → PayloadValue
holder_of payload =
    or_value (get payload (codes "holder_name")) (get payload (codes "shareholder_name"))

-- `_thread_identity`
unfoldable pub thread_identity :
    DisclosureDocument → EventFamily → Payload → Option ℕ → ThreadMaterial × List ℕ
thread_identity document EventFamily.shareholder_change payload effective =
    let holder = holder_of payload in
    let plan_reference = get payload (codes "plan_reference") in
    if truth holder && truth plan_reference
    then (
      by_plan document.symbol EventFamily.shareholder_change (strip (str holder))
          (get payload (codes "direction")) (strip (str plan_reference)),
      codes "holder+direction+plan_reference",
    )
    else (
      by_document document.symbol EventFamily.shareholder_change document.source_document_id,
      codes "source_document_fallback",
    )
thread_identity document EventFamily.litigation_arbitration payload effective =
    let case_reference = get payload (codes "case_reference") in
    if truth case_reference
    then (
      by_case document.symbol EventFamily.litigation_arbitration (strip (str case_reference)),
      codes "case_reference",
    )
    else (
      by_document document.symbol EventFamily.litigation_arbitration document.source_document_id,
      codes "source_document_fallback",
    )
thread_identity document family payload effective =
    (by_date document.symbol family effective, codes "source_document+family+effective_date")

-- `_extractor_version`
abbrev pub extractor_version : EventFamily → List ℕ
extractor_version EventFamily.shareholder_change = codes "corporate-event-extractor-v2"
extractor_version EventFamily.litigation_arbitration = codes "corporate-event-extractor-v2"
extractor_version family = codes "corporate-event-extractor-v1"
