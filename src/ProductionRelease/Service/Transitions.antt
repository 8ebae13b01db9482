-- ===== src/ProductionRelease/Service/Transitions.antt =====
-- Every operation moves the status of a candidate along one automaton and leaves the rest of its
-- row.
use zhiniu.Prelude.{
  ℕ, ◌≡◌, refl, sym, ap, ◌∙◌, subst, inl, inr, Bool, true, false, none, some, List, [], ◌∷◌, arith,
  Bool-cases, any_by, find, find-map, find-holds, ◌==◌, ==_iff, if◌then◌else◌,
}
use mathlib.Core.Option.{some-injective}
use zhiniu.ProductionRelease.Models.{
  ReleaseStatus, draft, blocked, ready_closed, deployed_observing, ready_invites, released,
  rolled_back, rejected, GateType, closed_deployment, invite_activation, GateStatus, gate_passed,
  gate_blocked, DeploymentEventType, deployed_event, released_event, failed_event,
  rolled_back_event, ProductionReleaseCandidateRecord, Db,
}
use zhiniu.ProductionRelease.Tables.{locked_candidate, set_status, is_terminal}
use zhiniu.ProductionRelease.Gates.{gate_refusal, status_after, record_gate}
use zhiniu.ProductionRelease.Service.{
  same_candidate, new_candidate, is_declined, event_allowed, event_status,
}
use zhiniu.ProductionRelease.Service.Steps.{
  Step, creates, evaluates, approves, records, create-committed, evaluate-committed,
  approve-committed, record_event-committed,
}

-- The automaton of a candidate.
pub data Moves : ReleaseStatus → ReleaseStatus → Type 0 where
  stays : {s : ReleaseStatus} → Moves s s
  draft_ready : Moves draft ready_closed
  draft_blocked : Moves draft blocked
  blocked_ready : Moves blocked ready_closed
  ready_blocked : Moves ready_closed blocked
  deploys : Moves ready_closed deployed_observing
  opens : Moves deployed_observing ready_invites
  releases : Moves ready_invites released
  closed_fails : Moves ready_closed rolled_back
  observed_fails : Moves deployed_observing rolled_back
  invites_fail : Moves ready_invites rolled_back
  rolls_back : Moves released rolled_back
  rejects : {s : ReleaseStatus} → is_terminal s ≡ false → Moves s rejected

-- A row of which at most the status has changed, along the automaton.
pub record Follows (c c' : ProductionReleaseCandidateRecord) : Type 0 where
  pub moves : Moves c.status c'.status
  pub artifacts : c'.artifacts ≡ c.artifacts
  pub creator : c'.created_by_user_id ≡ c.created_by_user_id

abbrev same_row : (c : ProductionReleaseCandidateRecord) → Follows c c
same_row c = record { moves = stays; artifacts = refl; creator = refl }

gate-Moves :
    (g : GateType) (b : GateStatus) (s : ReleaseStatus)
    → gate_refusal g s ≡ none
    → Moves s (status_after g b s)
unfolding status_after
gate-Moves closed_deployment gate_passed draft h = draft_ready
gate-Moves closed_deployment gate_passed blocked h = blocked_ready
gate-Moves closed_deployment gate_passed ready_closed h = stays
gate-Moves closed_deployment gate_blocked draft h = draft_blocked
gate-Moves closed_deployment gate_blocked blocked h = stays
gate-Moves closed_deployment gate_blocked ready_closed h = ready_blocked
gate-Moves invite_activation gate_passed deployed_observing h = opens
gate-Moves invite_activation gate_passed ready_invites h = stays
gate-Moves invite_activation gate_blocked s h = stays
gate-Moves g b s h = absurd (cc h)

event-Moves :
    (e : DeploymentEventType) (s : ReleaseStatus)
    → event_allowed e s ≡ true
    → Moves s (event_status e)
unfolding event_allowed
event-Moves deployed_event ready_closed h = deploys
event-Moves released_event ready_invites h = releases
event-Moves failed_event ready_closed h = closed_fails
event-Moves failed_event deployed_observing h = observed_fails
event-Moves failed_event ready_invites h = invites_fail
event-Moves rolled_back_event deployed_observing h = observed_fails
event-Moves rolled_back_event ready_invites h = invites_fail
event-Moves rolled_back_event released h = rolls_back
event-Moves e s h = absurd (cc h)

-- A row that is found fails a test that no row passes.
pub found_fails {ℓ} :
    {A : Type ℓ} (p q : A → Bool) (xs : List A) (a : A)
    → find p xs ≡ some a
    → any_by q xs ≡ false
    → q a ≡ false
found_fails p q [] a h k = ground arith
found_fails p q (x ∷ xs) a h k = elim (Bool-cases (p x)) [
  | inl hit ↦ subst (λ y. q y ≡ false) (some-injective x a (rw hit at h)) (ground (arith, k))
  | inr miss ↦ found_fails p q xs a (rw miss at h) (ground (arith, k))
]

-- The candidate under an identifier after the status of one candidate is set.
set_status-Follows :
    (db : Db) (id target : ℕ) (c candidate : ProductionReleaseCandidateRecord) (t : ReleaseStatus)
    → locked_candidate db id ≡ some c
    → locked_candidate db target ≡ some candidate
    → Moves candidate.status t
    → (c' : ProductionReleaseCandidateRecord) × (find
          (λ x. x.id == id)
          (set_status candidate.id t db.candidates)
        ≡ some c')
      × Follows c c'
unfolding locked_candidate set_status
set_status-Follows db id target c candidate t found locked moves =
    let keep =
      find-map (λ x. x.id == id) (λ x. if x.id == candidate.id then record x { status = t } else x)
        db.candidates c (λ x. ground arith) found in
    elim (Bool-cases (c.id == candidate.id)) [
      | inr other ↦ (c, rw other at keep, same_row c)
      | inl same ↦
          let here : c.id ≡ id =
            (==_iff c.id id).0 (find-holds (λ x. x.id == id) db.candidates c found) in
          let there : candidate.id ≡ target =
            (==_iff candidate.id target).0
              (find-holds (λ x. x.id == target) db.candidates candidate locked) in
          let ids : id ≡ target = sym here ∙ (==_iff c.id candidate.id).0 same ∙ there in
          let row : candidate ≡ c =
            some-injective candidate c (sym locked ∙ ap (locked_candidate db) (sym ids) ∙ found) in
          (
            record c { status = t },
            rw same at keep,
            record {
              moves = subst (λ x. Moves x.status t) row moves;
              artifacts = refl;
              creator = refl;
            },
          )
    ]

-- Whatever operation commits, a candidate keeps its identifier, its artifacts and its creator, and
-- its status moves along the automaton, if at all.
pub Step-Follows :
    (db db' : Db) (id : ℕ) (c : ProductionReleaseCandidateRecord)
    → Step db db'
    → locked_candidate db id ≡ some c
    → (c' : ProductionReleaseCandidateRecord) × (locked_candidate db' id ≡ some c') × Follows c c'
unfolding locked_candidate record_gate
Step-Follows db db' id c (creates request actor fresh_id h) found =
    let (free, e) = create-committed db db' request actor fresh_id h in
    let row = new_candidate request actor fresh_id in
    let new = found_fails (λ x. x.id == id) (same_candidate row) db.candidates c found free in
    let here = find-holds (λ x. x.id == id) db.candidates c found in
    let other : (fresh_id == id) ≡ false = ground (arith, new, here) in
    subst
      (λ d.
        (c' : ProductionReleaseCandidateRecord) × (locked_candidate d id ≡ some c') × Follows c c')
      e (c, rw other found, same_row c)
Step-Follows db db' id c (evaluates env target g s f draw h) found =
    let (candidate, locked, fits, e) = evaluate-committed env db db' target g s f draw h in
    subst
      (λ d.
        (c' : ProductionReleaseCandidateRecord) × (locked_candidate d id ≡ some c') × Follows c c')
      e
      (set_status-Follows db id target c candidate _ found locked
        (gate-Moves g _ candidate.status fits))
Step-Follows db db' id c (approves target role decision note actor operator fresh_id h) found =
    let (candidate, locked, open_, other, free, e) =
      approve-committed db db' target role decision note actor operator fresh_id h in
    subst
      (λ d.
        (c' : ProductionReleaseCandidateRecord) × (locked_candidate d id ≡ some c') × Follows c c')
      e
      (elim (Bool-cases (is_declined decision)) [
        | inl declines ↦
            rw declines
              (set_status-Follows db id target c candidate rejected found locked (rejects open_))
        | inr agrees ↦ rw agrees (c, found, same_row c)
      ])
Step-Follows db db' id c (records env target event ref reason actor now fresh_id h) found =
    let (candidate, locked, allowed, fits, e) =
      record_event-committed env db db' target event ref reason actor now fresh_id h in
    subst
      (λ d.
        (c' : ProductionReleaseCandidateRecord) × (locked_candidate d id ≡ some c') × Follows c c')
      e
      (set_status-Follows db id target c candidate _ found locked
        (event-Moves event candidate.status allowed))
