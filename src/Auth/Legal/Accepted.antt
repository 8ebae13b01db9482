-- ===== src/Auth/Legal/Accepted.antt =====
-- Documents that are accepted are not asked for again.
use zhiniu.Prelude.{
  ℕ, Bool, true, not, ◌||◌, ◌≡◌, refl, sym, ap, subst, inl, inr, some, List, [], ◌∷◌, ◌++◌, map,
  find, find-holds, any_by, filter_by, text_eq, text_eq-eq, text_eq_refl, arith, if◌then◌else◌,
  ==_refl, Option-cases, Bool-cases,
}
use mathlib.Core.Option.{some-injective}
use zhiniu.Auth.Store.{UserLegalAcceptanceRecord, AuthDb, Request, ok}
use zhiniu.Auth.Safe.{Safe, returned, raised, Safe-require, Safe-eq-ok, Safe->>=}
use zhiniu.Auth.Legal.{
  LegalDocument, Acceptances, legal_document, required_registration_documents, accepts,
  each_accepted, validate_registration_acceptances, acceptance_row, has_accepted, accept_each,
  required_legal_acceptances, accept_legal_documents,
}

any_by-append :
    {A : Type 0} (p : A → Bool) (xs : List A) (a : A) → any_by p (xs ++ a ∷ []) ≡ any_by p xs || p a
any_by-append p [] a = ground arith
any_by-append p (x ∷ xs) a = ground (arith, any_by-append p xs a)

-- The rows that the loop starts from when a document is accepted.
abbrev rows_with :
    Request
    → ℕ
    → List ℕ
    → List ℕ
    → LegalDocument
    → List UserLegalAcceptanceRecord
    → List UserLegalAcceptanceRecord
rows_with rq user_id document_type version d rows =
    if any_by (has_accepted user_id document_type version) rows
    then rows
    else rows ++ acceptance_row rq user_id document_type version d ∷ []

rows_with-keeps :
    (rq : Request) (user_id : ℕ) (document_type version : List ℕ) (d : LegalDocument)
    (rows : List UserLegalAcceptanceRecord) (q : UserLegalAcceptanceRecord → Bool)
    → any_by q rows ≡ true
    → any_by q (rows_with rq user_id document_type version d rows) ≡ true
rows_with-keeps rq user_id document_type version d rows q h =
    ground (arith, any_by-append q rows (acceptance_row rq user_id document_type version d))

rows_with-has :
    (rq : Request) (user_id : ℕ) (document_type version : List ℕ) (d : LegalDocument)
    (rows : List UserLegalAcceptanceRecord)
    → any_by
        (has_accepted user_id document_type version)
        (rows_with rq user_id document_type version d rows)
      ≡ true
unfolding acceptance_row
rows_with-has rq user_id document_type version d rows =
    let q = has_accepted user_id document_type version in
    elim (Bool-cases (any_by q rows)) [
      | inl there ↦ rw there there
      | inr absent ↦
          rw
            (
              absent,
              any_by-append q rows (acceptance_row rq user_id document_type version d),
              absent,
              ==_refl user_id,
              text_eq_refl document_type,
              text_eq_refl version,
            )
            refl
    ]

module _ (rq : Request) (user_id : ℕ) where
  -- What was accepted stays so.
  accept_each-keeps :
      (acceptances : Acceptances) (rows : List UserLegalAcceptanceRecord)
      (q : UserLegalAcceptanceRecord → Bool)
      → any_by q rows ≡ true
      → Safe (λ rows'. any_by q rows' ≡ true) (accept_each rq user_id acceptances rows)
  unfolding accept_each
  accept_each-keeps [] rows q h = returned h
  accept_each-keeps ((document_type, version) ∷ rest) rows q h =
      elim (Option-cases (legal_document document_type)) [
        | inl unknown ↦ rw unknown raised
        | inr (d, known) ↦ rw known (
            Safe-require (text_eq d.version version) _ λ _.
              accept_each-keeps rest _ q
                (rows_with-keeps rq user_id document_type version d rows q h))
      ]

  -- The documents of the request are accepted.
  accept_each-has :
      (acceptances : Acceptances) (rows : List UserLegalAcceptanceRecord) (key : List ℕ)
      (a : List ℕ × List ℕ)
      → find (λ x. text_eq x.0 key) acceptances ≡ some a
      → Safe
          (λ rows'. any_by (has_accepted user_id a.0 a.1) rows' ≡ true)
          (accept_each rq user_id acceptances rows)
  unfolding accept_each
  accept_each-has [] rows key a h = ground arith
  accept_each-has ((document_type, version) ∷ rest) rows key a h =
      elim (Option-cases (legal_document document_type)) [
        | inl unknown ↦ rw unknown raised
        | inr (d, known) ↦ rw known (
            Safe-require (text_eq d.version version) _ λ _.
              let rows' = rows_with rq user_id document_type version d rows in
              elim (Bool-cases (text_eq document_type key)) [
                | inl hit ↦
                    subst
                      (λ x.
                        Safe (λ r. any_by (has_accepted user_id x.0 x.1) r ≡ true)
                          (accept_each rq user_id rest rows'))
                      (some-injective (document_type, version) a (rw hit at h))
                      (accept_each-keeps rest rows' _
                        (rows_with-has rq user_id document_type version d rows))
                | inr miss ↦ accept_each-has rest rows' key a (rw miss at h)
              ])
      ]

  -- A document that the request accepts in its version is accepted.
  accepts-has :
      (acceptances : Acceptances) (rows rows' : List UserLegalAcceptanceRecord) (d : LegalDocument)
      → accepts acceptances d ≡ true
      → accept_each rq user_id acceptances rows ≡ ok rows'
      → any_by (has_accepted user_id d.document_type d.version) rows' ≡ true
  accepts-has acceptances rows rows' d h done =
      elim (Option-cases (find (λ a. text_eq a.0 d.document_type) acceptances)) [
        | inl absent ↦ ground arith
        | inr (a, there) ↦
            let same_type =
              text_eq-eq a.0 d.document_type
                (find-holds (λ x. text_eq x.0 d.document_type) acceptances a there) in
            let same_version = text_eq-eq a.1 d.version (rw (accepts, there) at h) in
            rw (sym same_type, sym same_version)
              (Safe-eq-ok rows' (accept_each-has acceptances rows d.document_type a there) done)
      ]

  none_left :
      (acceptances : Acceptances) (rows rows' : List UserLegalAcceptanceRecord)
      (ds : List LegalDocument)
      → accept_each rq user_id acceptances rows ≡ ok rows'
      → each_accepted acceptances ds ≡ ok tt
      → filter_by (λ d. not (any_by (has_accepted user_id d.document_type d.version) rows')) ds ≡ []
  none_left acceptances rows rows' [] done h = refl
  none_left acceptances rows rows' (d ∷ ds) done h = elim (Bool-cases (accepts acceptances d)) [
    | inl yes_d ↦
        rw (accepts-has acceptances rows rows' d yes_d done)
          (none_left acceptances rows rows' ds done (rw yes_d at h))
    | inr no_d ↦ absurd (ground (arith, rw no_d at h))
  ]

  -- A user who accepts the documents that a registration requires has none left to accept.
  accepted_none_left :
      (db : AuthDb) (acceptances : Acceptances) (p : List (List ℕ) × AuthDb)
      → validate_registration_acceptances acceptances ≡ ok tt
      → accept_legal_documents rq db user_id acceptances ≡ ok p
      → p.0 ≡ []
  unfolding validate_registration_acceptances accept_legal_documents required_legal_acceptances
  accepted_none_left db acceptances p valid h =
      Safe-eq-ok {P = λ p. p.0 ≡ []} p
        (Safe->>= (accept_each rq user_id acceptances db.acceptances) λ rows done. returned (
          ap (map (λ d. d.document_type))
            (none_left acceptances db.acceptances rows required_registration_documents done valid)))
        h
