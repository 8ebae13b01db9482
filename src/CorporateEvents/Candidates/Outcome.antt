-- ===== src/CorporateEvents/Candidates/Outcome.antt =====
-- A document gives a candidate exactly if its title is classified.
use zhiniu.Prelude.{◌≡◌, ◌↔◌, refl, sym, ap, ◌∙◌, Option, some, arith}
use mathlib.Core.Option.{some-injective}
use zhiniu.CorporateEvents.Models.{DisclosureDocument, SourceFact, classified}
use zhiniu.CorporateEvents.Classify.{classify_title}
use zhiniu.CorporateEvents.Classify.Families.{family_of, classified_family}
use zhiniu.CorporateEvents.Candidates.{EventCandidate, Library, candidate_of, extract_candidate}

-- With the classification of its own title, a document gives a candidate exactly if the title is
-- classified.
pub extract-classify :
    (lib : Library) (document : DisclosureDocument) (fact : Option SourceFact)
    → let c = classify_title document.title in
      (c.status ≡ classified)
      ↔ ((e : EventCandidate) × (extract_candidate lib document c fact ≡ some e))
unfolding extract_candidate
extract-classify lib document fact = (
  λ h.
      let (t, type, family) = classified_family document.title h in
      (candidate_of lib document (family_of t) t fact, rw (h, type, family) refl),
  λ found. let (e, h) = found in ground arith,
)

-- A candidate that is extracted with the classification of the document's title has the event type
-- of that classification and the family that the type belongs to.
pub extract-classify_event :
    (lib : Library) (document : DisclosureDocument) (fact : Option SourceFact) (e : EventCandidate)
    → extract_candidate lib document (classify_title document.title) fact ≡ some e
    → ((classify_title document.title).event_type ≡ some e.event_type)
      × (e.event_family ≡ family_of e.event_type)
unfolding extract_candidate candidate_of
extract-classify_event lib document fact e h =
    let status = (extract-classify lib document fact).1 (e, h) in
    let (t, type, family) = classified_family document.title status in
    let same : candidate_of lib document (family_of t) t fact ≡ e =
      some-injective _ e (sym (rw (status, type, family) refl) ∙ h) in
    let type_is : t ≡ e.event_type = ap (λ x. x.event_type) same in
    (type ∙ ap some type_is, sym (ap (λ x. x.event_family) same) ∙ ap family_of type_is)
