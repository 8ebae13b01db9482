-- ===== src/CorporateEvents/Candidates.antt =====
-- `extract_candidate` of corporate_events/engine.py.
pub mod Outcome
use zhiniu.Prelude.{
  ℕ, Bool, true, false, ◌||◌, Option, none, some, List, [], ◌∷◌, ◌++◌, map, codes, text_eq, is_some,
  filter_by, not, if◌then◌else◌,
}
use zhiniu.CorporateEvents.Models.{
  EventFamily, EventType, family_value, type_value, PayloadValue, text, DisclosureDocument,
  SourceFact, Classification, ClassificationStatus, classified, unclassified, ambiguous,
  unsupported,
}
use zhiniu.CorporateEvents.Extract.{
  Payload, update, effective_date, selected_fields, family_fields, ThreadMaterial, thread_identity,
  extractor_version,
}

-- The row that a field was read from.
pub data FieldSource : Type 0 where
  from_document from_fact : ℕ → FieldSource

pub data ExtractionStatus : Type 0 where
  complete partial : ExtractionStatus

pub record EventCandidate : Type 0 where
  pub document_id : ℕ
  pub source_fact_id : Option ℕ
  pub symbol : List ℕ
  pub event_family : EventFamily
  pub event_type : EventType
  pub title : List ℕ
  pub source_published_at : ℕ
  pub source_published_precision : List ℕ
  pub known_at : ℕ
  pub event_effective_from : Option ℕ
  pub event_time_precision : Option (List ℕ)
  pub extraction_status : ExtractionStatus
  pub typed_payload : Payload
  pub field_lineage : List (List ℕ × FieldSource)
  pub event_thread_key : ℕ
  pub event_version_fingerprint : ℕ
  pub identity_basis : List ℕ

-- `date.fromisoformat` and `_hash` of the two values it is used on.
pub record Library : Type 0 where
  pub fromisoformat : List ℕ → Option ℕ
  pub hash_thread : ThreadMaterial → ℕ
  pub hash_version : ℕ → List ℕ → EventType → Payload → List ℕ → ℕ

abbrev payload_of : Option SourceFact → Payload
payload_of none = []
payload_of (some fact) = fact.raw_payload

abbrev lineage_of : Option SourceFact → Payload → List (List ℕ × FieldSource)
lineage_of none typed_payload = []
lineage_of (some fact) typed_payload =
    map (λ field. (field.0, from_fact fact.id))
      (filter_by
        (λ field. not (text_eq field.0 (codes "kind") || text_eq field.0 (codes "event_type")))
        typed_payload)

abbrev fact_id : Option SourceFact → Option ℕ
fact_id none = none
fact_id (some fact) = some fact.id

-- The fields that a candidate of this family and type has.
unfoldable pub typed_payload_of : List ℕ → EventFamily → EventType → Payload → Payload
typed_payload_of title family event_type payload =
    let kind =
      (codes "kind", text (family_value family))
      ∷ (codes "event_type", text (type_value event_type))
      ∷ [] in
    update (update kind (selected_fields payload)) (family_fields title family event_type)

-- `extract_candidate` past its guard
unfoldable pub candidate_of :
    Library → DisclosureDocument → EventFamily → EventType → Option SourceFact → EventCandidate
candidate_of lib document family event_type source_fact =
    let payload = payload_of source_fact in
    let effective = effective_date lib.fromisoformat payload in
    let fields = typed_payload_of document.title family event_type payload in
    let identity = thread_identity document family fields effective in
    let thread = lib.hash_thread identity.0 in
    record {
      document_id = document.id;
      source_fact_id = fact_id source_fact;
      symbol = document.symbol;
      event_family = family;
      event_type = event_type;
      title = document.title;
      source_published_at = document.source_published_at;
      source_published_precision = document.source_published_precision;
      known_at = document.known_at;
      event_effective_from = effective;
      event_time_precision = if is_some effective then some (codes "date") else none;
      extraction_status = if is_some source_fact then complete else partial;
      typed_payload = fields;
      field_lineage = (codes "title", from_document document.id) ∷ lineage_of source_fact fields;
      event_thread_key = thread;
      event_version_fingerprint =
          lib.hash_version thread document.source_document_id event_type fields
            (extractor_version family);
      identity_basis = identity.1;
    }

abbrev is_classified : ClassificationStatus → Bool
is_classified classified = true
is_classified _ = false

abbrev extract_typed :
    Library
    → DisclosureDocument
    → Option EventFamily
    → Option EventType
    → Option SourceFact
    → Option EventCandidate
extract_typed lib document (some family) (some event_type) source_fact =
    some (candidate_of lib document family event_type source_fact)
extract_typed lib document family event_type source_fact = none

-- `extract_candidate`
unfoldable pub extract_candidate :
    Library → DisclosureDocument → Classification → Option SourceFact → Option EventCandidate
extract_candidate lib document c source_fact =
    if is_classified c.status
    then extract_typed lib document c.event_family c.event_type source_fact
    else none
