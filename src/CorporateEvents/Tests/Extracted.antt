-- ===== src/CorporateEvents/Tests/Extracted.antt =====
-- Candidates and threads of concrete documents, and the theorems applied to them.
use zhiniu.Prelude.{ℕ, ◌≡◌, ◌↔◌, refl, none, some, [], ◌∷◌, codes}
use zhiniu.CorporateEvents.Models.{
  EventFamily, EventType, PayloadValue, null, text, DisclosureDocument, classified,
}
use zhiniu.CorporateEvents.Rules.{rules}
use zhiniu.CorporateEvents.Classify.{
  mentions, is_incentive_cancellation, matching_rules, families, classify_matches, classify_by,
  classify_title,
}
use zhiniu.CorporateEvents.Extract.{Payload, thread_identity}
use zhiniu.CorporateEvents.Extract.Threads.{thread_identity_case, thread_identity_collides}
use zhiniu.CorporateEvents.Candidates.{EventCandidate, Library, candidate_of, extract_candidate}
use zhiniu.CorporateEvents.Candidates.Outcome.{extract-classify}

abbrev document : ℕ → DisclosureDocument
document id = record {
  id = id;
  symbol = codes "SH600519";
  source_document_id = id ∷ [];
  title = codes "关于提起诉讼的公告";
  source_published_at = 5;
  source_published_precision = codes "date";
  known_at = 6;
}

abbrev case_payload : PayloadValue → Payload
case_payload amount =
    (codes "case_reference", text (codes "(2024) 1")) ∷ (codes "amount", amount) ∷ []

abbrev plan_payload : PayloadValue → Payload
plan_payload amount =
    (codes "holder_name", text (codes "A"))
    ∷ (codes "plan_reference", text (codes "P"))
    ∷ (codes "direction", text (codes "increase"))
    ∷ (codes "amount", amount)
    ∷ []

thread_identity_case_example :
    thread_identity (document 1) EventFamily.litigation_arbitration (case_payload null) none
    ≡ thread_identity
        (document 2)
        EventFamily.litigation_arbitration
        (case_payload (text (codes "7")))
        (some 9)
thread_identity_case_example =
    thread_identity_case (document 1) (document 2) (case_payload null)
      (case_payload (text (codes "7"))) none (some 9) refl refl refl

fallback_basis :
    (thread_identity (document 1) EventFamily.litigation_arbitration [] none).1
    ≡ codes "source_document_fallback"
unfolding thread_identity
fallback_basis = refl

thread_identity_collides_example :
    thread_identity (document 1) EventFamily.share_pledge [] none
    ≡ thread_identity (document 2) EventFamily.share_pledge [] none
thread_identity_collides_example =
    thread_identity_collides (document 1) (document 2) EventFamily.share_pledge [] [] none
      (λ e. cc e) (λ e. cc e) refl

abbrev lib : Library
lib = record {
  fromisoformat = λ value. none;
  hash_thread = λ material. 0;
  hash_version = λ thread document_id event_type payload version. 1;
}

extract-classify_example :
    let c = classify_title (document 1).title in
    (c.status ≡ classified)
    ↔ ((e : EventCandidate) × (extract_candidate lib (document 1) c none ≡ some e))
extract-classify_example = extract-classify lib (document 1) none

abbrev candidate : EventCandidate
candidate =
    candidate_of lib (document 1) EventFamily.litigation_arbitration EventType.case_filed none

extracted :
    extract_candidate lib (document 1) (classify_title (document 1).title) none ≡ some candidate
unfolding extract_candidate classify_title classify_by classify_matches matching_rules families
    mentions is_incentive_cancellation rules
extracted = refl
