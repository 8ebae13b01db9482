-- ===== src/ProductionRelease/Service/Steps.antt =====
-- The operations as steps between the tables, and what each has checked when it commits.
use zhiniu.Prelude.{
  ℕ, ◌≡◌, inl, inr, true, false, Option, none, some, List, [], ◌∷◌, arith, Option-cases, Bool-cases,
  any_by, ◌==◌, if◌then◌else◌,
}
use zhiniu.ProductionRelease.Models.{
  rejected, GateType, ApprovalRole, ApprovalDecision, DeploymentEventType,
  ProductionReleaseCandidateCreate, ProductionReleaseCandidateRecord, Db,
}
use zhiniu.ProductionRelease.Environment.{Environment}
use zhiniu.ProductionRelease.Checks.{OperatorRole, approval_role_allowed}
use zhiniu.ProductionRelease.Tables.{committed, locked_candidate, set_status, is_terminal}
use zhiniu.ProductionRelease.Gates.{gate_refusal, gate_checks, record_gate, evaluate}
use zhiniu.ProductionRelease.Service.{
  same_candidate, new_candidate, create, same_approval, new_approval, is_declined, approve,
  event_allowed, event_refusal, event_status, same_event, new_event, record_event,
}

-- One committed operation.
pub data Step : Db → Db → Type 0 where
  creates :
      {db db' : Db} (request : ProductionReleaseCandidateCreate) (actor fresh_id : ℕ)
      → create db request actor fresh_id ≡ committed db'
      → Step db db'
  evaluates :
      {db db' : Db} (env : Environment) (id : ℕ) (gate_type : GateType) (started_at finished_at : ℕ)
      (draw : ℕ → ℕ)
      → evaluate env db id gate_type started_at finished_at draw ≡ committed db'
      → Step db db'
  approves :
      {db db' : Db} (id : ℕ) (role : ApprovalRole) (decision : ApprovalDecision)
      (note : Option (List ℕ)) (actor : ℕ) (operator : OperatorRole) (fresh_id : ℕ)
      → approve db id role decision note actor operator fresh_id ≡ committed db'
      → Step db db'
  records :
      {db db' : Db} (env : Environment) (id : ℕ) (event_type : DeploymentEventType) (ref : List ℕ)
      (reason : Option (List ℕ)) (actor now fresh_id : ℕ)
      → record_event env db id event_type ref reason actor now fresh_id ≡ committed db'
      → Step db db'

-- The tables that the operations reach from empty ones.
pub data Reachable : Db → Type 0 where
  empty : Reachable (record { candidates = []; approvals = []; events = []; runs = []; items = [] })
  after : {db db' : Db} → Reachable db → Step db db' → Reachable db'

committed-eq : (a b : Db) → committed a ≡ committed b → a ≡ b
committed-eq a b h = ground arith

pub create-committed :
    (db db' : Db) (request : ProductionReleaseCandidateCreate) (actor fresh_id : ℕ)
    → create db request actor fresh_id ≡ committed db'
    → let row = new_candidate request actor fresh_id in
      (any_by (same_candidate row) db.candidates ≡ false)
      × (record db { candidates = row ∷ db.candidates } ≡ db')
unfolding create
create-committed db db' request actor fresh_id h =
    let row = new_candidate request actor fresh_id in
    elim (Bool-cases (any_by (same_candidate row) db.candidates)) [
      | inl taken ↦ ground (arith, h, taken)
      | inr free ↦ (free, committed-eq _ db' (rw free at h))
    ]

pub evaluate-committed :
    (env : Environment) (db db' : Db) (id : ℕ) (gate_type : GateType) (started_at finished_at : ℕ)
    (draw : ℕ → ℕ)
    → evaluate env db id gate_type started_at finished_at draw ≡ committed db'
    → (c : ProductionReleaseCandidateRecord) × (locked_candidate db id ≡ some c)
      × (gate_refusal gate_type c.status ≡ none)
      × (record_gate env db c gate_type
            (gate_checks gate_type env db c started_at)
            started_at
            finished_at
            draw
          ≡ db')
unfolding evaluate
evaluate-committed env db db' id gate_type started_at finished_at draw h =
    elim (Option-cases (locked_candidate db id)) [
      | inl absent ↦ absurd (cc (rw (evaluate, absent) at h))
      | inr (c, found) ↦
          let h1 = rw (evaluate, found) at h in
          elim (Bool-cases (is_terminal c.status)) [
            | inl ended ↦ absurd (cc (rw ended at h1))
            | inr open_ ↦
                let h2 = rw open_ at h1 in
                elim (Option-cases (gate_refusal gate_type c.status)) [
                  | inr (e, bad) ↦ absurd (cc (rw bad at h2))
                  | inl fits ↦ (c, found, fits, committed-eq _ db' (rw fits at h2))
                ]
          ]
    ]

pub approve-committed :
    (db db' : Db) (id : ℕ) (role : ApprovalRole) (decision : ApprovalDecision)
    (note : Option (List ℕ)) (actor : ℕ) (operator : OperatorRole) (fresh_id : ℕ)
    → approve db id role decision note actor operator fresh_id ≡ committed db'
    → (c : ProductionReleaseCandidateRecord) × (locked_candidate db id ≡ some c)
      × (is_terminal c.status ≡ false)
      × ((c.created_by_user_id == actor) ≡ false)
      × (any_by (same_approval (new_approval c.id role decision note actor fresh_id)) db.approvals
          ≡ false)
      × (record db {
        candidates =
            if is_declined decision then set_status c.id rejected db.candidates else db.candidates;
        approvals = new_approval c.id role decision note actor fresh_id ∷ db.approvals;
      }
          ≡ db')
unfolding approve
approve-committed db db' id role decision note actor operator fresh_id h =
    elim (Option-cases (locked_candidate db id)) [
      | inl absent ↦ absurd (cc (rw (approve, absent) at h))
      | inr (c, found) ↦
          let h1 = rw (approve, found) at h in
          elim (Bool-cases (is_terminal c.status)) [
            | inl ended ↦ absurd (cc (rw ended at h1))
            | inr open_ ↦
                let h2 = rw open_ at h1 in
                elim (Bool-cases (c.created_by_user_id == actor)) [
                  | inl own ↦ absurd (cc (rw own at h2))
                  | inr other ↦
                      let h3 = rw other at h2 in
                      elim (Bool-cases (approval_role_allowed operator role)) [
                        | inr bad ↦ absurd (cc (rw bad at h3))
                        | inl allowed ↦
                            let h4 = rw allowed at h3 in
                            let row = new_approval c.id role decision note actor fresh_id in
                            elim (Bool-cases (any_by (same_approval row) db.approvals)) [
                              | inl taken ↦ absurd (cc (rw taken at h4))
                              | inr free ↦
                                  (c, found, open_, other, free, committed-eq _ db' (rw free at h4))
                            ]
                      ]
                ]
          ]
    ]

pub record_event-committed :
    (env : Environment) (db db' : Db) (id : ℕ) (event_type : DeploymentEventType) (ref : List ℕ)
    (reason : Option (List ℕ)) (actor now fresh_id : ℕ)
    → record_event env db id event_type ref reason actor now fresh_id ≡ committed db'
    → (c : ProductionReleaseCandidateRecord) × (locked_candidate db id ≡ some c)
      × (event_allowed event_type c.status ≡ true)
      × (event_refusal event_type env db c now ≡ none)
      × (record db {
        candidates = set_status c.id (event_status event_type) db.candidates;
        events = new_event c.id event_type ref reason actor fresh_id ∷ db.events;
      }
          ≡ db')
unfolding record_event
record_event-committed env db db' id event_type ref reason actor now fresh_id h =
    elim (Option-cases (locked_candidate db id)) [
      | inl absent ↦ absurd (cc (rw (record_event, absent) at h))
      | inr (c, found) ↦
          let h1 = rw (record_event, found) at h in
          elim (Bool-cases (event_allowed event_type c.status)) [
            | inr bad ↦ absurd (cc (rw bad at h1))
            | inl allowed ↦
                let h2 = rw allowed at h1 in
                elim (Option-cases (event_refusal event_type env db c now)) [
                  | inr (e, bad) ↦ absurd (cc (rw bad at h2))
                  | inl fits ↦
                      let h3 = rw fits at h2 in
                      let row = new_event c.id event_type ref reason actor fresh_id in
                      elim (Bool-cases (any_by (same_event row) db.events)) [
                        | inl taken ↦ absurd (cc (rw taken at h3))
                        | inr free ↦ (c, found, allowed, fits, committed-eq _ db' (rw free at h3))
                      ]
                ]
          ]
    ]
