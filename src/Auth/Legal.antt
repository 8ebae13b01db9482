-- ===== src/Auth/Legal.antt =====
-- legal.py, and the acceptances of auth/service.py.
pub mod Accepted
use zhiniu.Prelude.{
  ℕ, Bool, true, false, not, ◌&&◌, Option, none, some, List, [], ◌∷◌, ◌++◌, codes, text_eq, find,
  filter_by, any_by, map, ◌==◌, if◌then◌else◌,
}
use zhiniu.Auth.Store.{
  AuthDb, Request, UserLegalAcceptanceRecord, Result, ok, err, legal_document_version_invalid,
  required_legal_acceptance_missing, ◌>>=◌, ◌>>◌, require, or_raise,
}

-- The title is left out.
pub record LegalDocument : Type 0 where
  pub document_type : List ℕ
  pub version : List ℕ
  pub path : List ℕ
  pub required_at_registration : Bool

-- LEGAL_DOCUMENTS
abbrev pub legal_documents : List LegalDocument
legal_documents =
    record {
      document_type = codes "terms_of_service";
      version = codes "2026-08-v1";
      path = codes "/legal/terms";
      required_at_registration = true;
    }
    ∷ record {
      document_type = codes "privacy_policy";
      version = codes "2026-08-v1";
      path = codes "/legal/privacy";
      required_at_registration = true;
    }
    ∷ record {
      document_type = codes "risk_disclosure";
      version = codes "2026-08-v1";
      path = codes "/legal/risk";
      required_at_registration = false;
    }
    ∷ record {
      document_type = codes "ai_content_notice";
      version = codes "2026-08-v1";
      path = codes "/legal/ai";
      required_at_registration = false;
    }
    ∷ []

-- `content_hash`
unfoldable pub content_hash : (List ℕ → ℕ) → LegalDocument → ℕ
content_hash sha256 d = sha256 (d.document_type ++ codes ":" ++ d.version ++ codes ":" ++ d.path)

unfoldable pub legal_document : List ℕ → Option LegalDocument
legal_document document_type = find (λ d. text_eq d.document_type document_type) legal_documents

unfoldable pub required_registration_documents : List LegalDocument
required_registration_documents = filter_by (λ d. d.required_at_registration) legal_documents

-- A `dict[str, str]` in its order; no key stands in it twice.
abbrev pub Acceptances : Type 0
Acceptances = List (List ℕ × List ℕ)

-- `acceptances.get(document_type) == version`
abbrev pub accepts : Acceptances → LegalDocument → Bool
accepts acceptances d = elim (find (λ a. text_eq a.0 d.document_type) acceptances) [
  | none ↦ false
  | some a ↦ text_eq a.1 d.version
]

abbrev pub each_accepted : Acceptances → List LegalDocument → Result (Unit {0})
each_accepted acceptances [] = ok tt
each_accepted acceptances (d ∷ ds) =
    let rest = each_accepted acceptances ds in
    require (accepts acceptances d) required_legal_acceptance_missing >> rest

unfoldable pub validate_registration_acceptances : Acceptances → Result (Unit {0})
unfolding required_registration_documents
validate_registration_acceptances acceptances =
    each_accepted acceptances required_registration_documents

abbrev pub acceptance_row :
    Request → ℕ → List ℕ → List ℕ → LegalDocument → UserLegalAcceptanceRecord
unfolding content_hash
acceptance_row rq user_id document_type version d = record {
  user_id = user_id;
  document_type = document_type;
  document_version = version;
  content_hash = content_hash rq.sha256 d;
  accepted_at = rq.now;
}

-- The rows that a registration adds; a document that is not known is passed over.
unfoldable pub registration_acceptances : Request → ℕ → Acceptances → List UserLegalAcceptanceRecord
unfolding legal_document
registration_acceptances rq user_id [] = []
registration_acceptances rq user_id ((document_type, version) ∷ rest) =
    let rows = registration_acceptances rq user_id rest in
    elim (legal_document document_type) [
      | none ↦ rows
      | some d ↦ acceptance_row rq user_id document_type version d ∷ rows
    ]

abbrev pub has_accepted : ℕ → List ℕ → List ℕ → UserLegalAcceptanceRecord → Bool
has_accepted user_id document_type version a =
    (a.user_id == user_id)
    && (text_eq a.document_type document_type && text_eq a.document_version version)

-- The loop of `accept_legal_documents`, on the rows so far; a select sees the rows that were added.
unfoldable pub accept_each :
    Request
    → ℕ
    → Acceptances
    → List UserLegalAcceptanceRecord
    → Result (List UserLegalAcceptanceRecord)
unfolding legal_document
accept_each rq user_id [] rows = ok rows
accept_each rq user_id ((document_type, version) ∷ rest) rows =
    elim (legal_document document_type) [
      | none ↦ err legal_document_version_invalid
      | some d ↦
          let rows' =
            if any_by (has_accepted user_id document_type version) rows
            then rows
            else rows ++ acceptance_row rq user_id document_type version d ∷ [] in
          let rest' = accept_each rq user_id rest rows' in
          require (text_eq d.version version) legal_document_version_invalid >> rest'
    ]

unfoldable pub required_legal_acceptances : List UserLegalAcceptanceRecord → ℕ → List (List ℕ)
unfolding required_registration_documents
required_legal_acceptances rows user_id =
    map (λ d. d.document_type)
      (filter_by (λ d. not (any_by (has_accepted user_id d.document_type d.version) rows))
        required_registration_documents)

unfoldable pub accept_legal_documents :
    Request → AuthDb → ℕ → Acceptances → Result (List (List ℕ) × AuthDb)
unfolding accept_each required_legal_acceptances
accept_legal_documents rq db user_id acceptances = do
  rows ← accept_each rq user_id acceptances db.acceptances
  ok (required_legal_acceptances rows user_id, record db { acceptances = rows })
