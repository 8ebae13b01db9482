-- ===== src/ProductionRelease/Service/Lifecycle.antt =====
-- The rules that hold in every state that the operations reach, and what a release rests on.
use zhiniu.Prelude.{
  All-impl, ℕ, ◌≡◌, ◌≢◌, refl, sym, ◌∙◌, subst, inl, inr, true, false, ◌&&◌, none, some, List, [],
  ◌∷◌, arith, Bool-cases, any_by, find-holds, find-All, All, ◌==◌, ==_iff, if◌then◌else◌,
}
use zhiniu.ProductionRelease.Models.{
  engineering, data_compliance, product_operations, ReleaseStatus, released, rejected, GateType,
  closed_deployment, invite_activation, GateStatus, gate_passed, gate_blocked, DeploymentEventType,
  released_event, ApprovalRole, role_eq, approved, ProductionReleaseCandidateRecord,
  ProductionReleaseApprovalRecord, Db,
}
use zhiniu.ProductionRelease.Environment.{Environment}
use zhiniu.ProductionRelease.Checks.{passes, approval_of}
use zhiniu.ProductionRelease.Checks.Invite.{invite_activation_checks}
use zhiniu.ProductionRelease.Checks.Verdicts.{invite_gate-approvals}
use zhiniu.ProductionRelease.Tables.{locked_candidate, set_status}
use zhiniu.ProductionRelease.Gates.{gate_refusal, gate_checks, status_after, record_gate}
use zhiniu.ProductionRelease.Service.{
  same_candidate, new_candidate, same_approval, new_approval, is_declined, event_refusal,
  event_status,
}
use zhiniu.ProductionRelease.Service.Steps.{
  Step, creates, evaluates, approves, records, Reachable, empty, after, create-committed,
  evaluate-committed, approve-committed, record_event-committed,
}
use zhiniu.ProductionRelease.Service.Rules.{
  IsKnown, IsIndependent, IsBacked, IsKeyed, IsSound, any_by-find, any_by-clash, keyed-All,
  set_status-IsSound,
}
use zhiniu.ProductionRelease.Service.Approvals.{
  IsUnique, IsApproved, IsApproved-add, approval_of-holds, IsUnique-actors,
}

gate_not_released :
    (g : GateType) (b : GateStatus) (s : ReleaseStatus)
    → gate_refusal g s ≡ none
    → status_after g b s ≢ released
unfolding status_after
gate_not_released closed_deployment b s h = ground arith
gate_not_released invite_activation b s h = ground arith

-- The release of a candidate is backed: its gate has just passed again.
event_backed :
    (env : Environment) (db : Db) (c : ProductionReleaseCandidateRecord)
    (event : DeploymentEventType) (now : ℕ)
    → event_refusal event env db c now ≡ none
    → event_status event ≡ released
    → (role : ApprovalRole) → IsApproved db.approvals c.id role
event_backed env db c released_event now h e role =
    elim (Bool-cases (passes (invite_activation_checks env db.approvals c now))) [
      | inl good ↦ invite_gate-approvals env db.approvals c now good role
      | inr bad ↦ absurd (cc (rw bad at h))
    ]
event_backed env db c event now h e role = absurd (cc e)

-- The rules speak of two tables only.
IsSound-tables :
    (db d : Db) → db.candidates ≡ d.candidates → db.approvals ≡ d.approvals → IsSound db → IsSound d
IsSound-tables db d cs as_ sound = record {
  keyed = subst IsKeyed cs sound.keyed;
  unique = subst IsUnique as_ sound.unique;
  known = rw (sym cs, sym as_) sound.known;
  independent = rw (sym cs, sym as_) sound.independent;
  backed = rw (sym cs, sym as_) sound.backed;
}

-- A new candidate has no approvals, and is not released.
create-IsSound :
    (db : Db) (row : ProductionReleaseCandidateRecord)
    → IsSound db
    → any_by (same_candidate row) db.candidates ≡ false
    → row.status ≢ released
    → IsSound (record db { candidates = row ∷ db.candidates })
create-IsSound db row sound free fresh = record {
  keyed = (keys, sound.keyed);
  unique = sound.unique;
  known =
      All-impl (IsKnown db.candidates) (IsKnown (row ∷ db.candidates)) db.approvals
        (λ a h. ground (arith, h)) sound.known;
  independent = both db.approvals sound.known sound.independent;
  backed = (λ e. absurd (fresh e), sound.backed);
}
  where
    keys : any_by (λ x. x.id == row.id) db.candidates ≡ false
    keys = elim (Bool-cases (any_by (λ x. x.id == row.id) db.candidates)) [
      | inr none_ ↦ none_
      | inl some_ ↦ absurd (
          any_by-clash (λ x. x.id == row.id) (same_candidate row) db.candidates some_ free
            (λ x h. ground (arith, h)))
    ]

    both :
        (l : List ProductionReleaseApprovalRecord)
        → All (IsKnown db.candidates) l
        → All (λ a. All (λ c. IsIndependent c a) db.candidates) l
        → All (λ a. All (λ c. IsIndependent c a) (row ∷ db.candidates)) l
    both [] h k = tt
    both (a ∷ l) h k = (
      (
        λ hit. absurd (
            any_by-clash (λ c. c.id == a.candidate_id) (same_candidate row) db.candidates h.0 free
              (λ x e. ground (arith, e, hit))),
        k.0,
      ),
      both l h.1 k.1,
    )

-- An approval by another user than the creator, which violates no constraint.
approve-IsSound :
    (db : Db) (row : ProductionReleaseApprovalRecord) (id : ℕ)
    (c : ProductionReleaseCandidateRecord)
    → IsSound db
    → locked_candidate db id ≡ some c
    → row.candidate_id ≡ c.id
    → (c.created_by_user_id == row.actor_user_id) ≡ false
    → any_by (same_approval row) db.approvals ≡ false
    → IsSound (record db { approvals = row ∷ db.approvals })
unfolding locked_candidate
approve-IsSound db row id c sound found owner other free =
    let here : c.id ≡ id =
      (==_iff c.id id).0 (find-holds (λ x. x.id == id) db.candidates c found) in
    let key : id ≡ row.candidate_id = sym (owner ∙ here) in
    record {
      keyed = sound.keyed;
      unique = (free, sound.unique);
      known = (
        subst (λ k. any_by (λ x. x.id == k) db.candidates ≡ true) key
            (any_by-find (λ x. x.id == id) db.candidates c found),
        sound.known,
      );
      independent = (
        subst
            (λ k.
              All (λ x. (x.id == k) ≡ true → x.created_by_user_id ≢ row.actor_user_id)
                db.candidates)
            key
            (keyed-All (λ x. x.created_by_user_id ≢ row.actor_user_id) db.candidates id c
              sound.keyed found (λ e. ground (arith, other, e))),
        sound.independent,
      );
      backed =
          All-impl (IsBacked db.approvals) (IsBacked (row ∷ db.approvals)) db.candidates
            (λ x h e role. IsApproved-add row db.approvals x.id role free (h e role)) sound.backed;
    }

Step-IsSound : (db db' : Db) → Step db db' → IsSound db → IsSound db'
unfolding record_gate
Step-IsSound db db' (creates request actor fresh_id h) sound =
    let (free, e) = create-committed db db' request actor fresh_id h in
    subst IsSound e
      (create-IsSound db (new_candidate request actor fresh_id) sound free (λ k. cc k))
Step-IsSound db db' (evaluates env id g s f draw h) sound =
    let (c, locked, fits, e) = evaluate-committed env db db' id g s f draw h in
    let status = if passes (gate_checks g env db c s) then gate_passed else gate_blocked in
    subst IsSound e (
      IsSound-tables
        (record db { candidates = set_status c.id (status_after g status c.status) db.candidates })
        (record_gate env db c g (gate_checks g env db c s) s f draw) refl refl
        (set_status-IsSound db c.id (status_after g status c.status) sound
          (λ k. absurd (gate_not_released g status c.status fits k))))
Step-IsSound db db' (approves id role decision note actor operator fresh_id h) sound =
    let (c, locked, open_, other, free, e) =
      approve-committed db db' id role decision note actor operator fresh_id h in
    let row = new_approval c.id role decision note actor fresh_id in
    let more = approve-IsSound db row id c sound locked refl other free in
    subst IsSound e (elim (Bool-cases (is_declined decision)) [
      | inl declines ↦ rw declines (
          set_status-IsSound (record db { approvals = row ∷ db.approvals }) c.id rejected more
            (λ k. absurd (cc k)))
      | inr agrees ↦ rw agrees more
    ])
Step-IsSound db db' (records env id event ref reason actor now fresh_id h) sound =
    let (c, locked, allowed, fits, e) =
      record_event-committed env db db' id event ref reason actor now fresh_id h in
    subst IsSound e (
      IsSound-tables (record db { candidates = set_status c.id (event_status event) db.candidates })
        _ refl refl
        (set_status-IsSound db c.id (event_status event) sound
          (event_backed env db c event now fits)))

pub Reachable-IsSound : (db : Db) → Reachable db → IsSound db
Reachable-IsSound db empty = record {
  keyed = tt;
  unique = tt;
  known = tt;
  independent = tt;
  backed = tt;
}
Reachable-IsSound db (after {db = d} r s) = Step-IsSound d db s (Reachable-IsSound d r)

approval-independent :
    (db : Db) (c : ProductionReleaseCandidateRecord) (id : ℕ) (role : ApprovalRole)
    (a : ProductionReleaseApprovalRecord)
    → IsSound db
    → locked_candidate db id ≡ some c
    → approval_of db.approvals c.id role ≡ some a
    → a.actor_user_id ≢ c.created_by_user_id
unfolding locked_candidate approval_of
approval-independent db c id role a sound found given same =
    let all =
      find-All (λ x. All (λ y. IsIndependent y x) db.candidates)
        (λ x. (x.candidate_id == c.id) && role_eq x.approval_role role) db.approvals a
        sound.independent given in
    let one = find-All (λ y. IsIndependent y a) (λ x. x.id == id) db.candidates c all found in
    let owner = (approval_of-holds db.approvals c.id role a given).0 in
    one (ground (arith, owner)) (sym same)

-- In every state that the operations reach, a released candidate has an approval of each of the
-- three roles, all of them positive, by three different users, none of whom created it.
pub released_approvals :
    (db : Db) (id : ℕ) (c : ProductionReleaseCandidateRecord)
    → Reachable db
    → locked_candidate db id ≡ some c
    → c.status ≡ released
    → (a : ApprovalRole → ProductionReleaseApprovalRecord) × ((role : ApprovalRole)
        → (approval_of db.approvals c.id role ≡ some (a role))
          × ((a role).decision ≡ approved)
          × ((a role).actor_user_id ≢ c.created_by_user_id))
      × ((a engineering).actor_user_id ≢ (a data_compliance).actor_user_id)
      × ((a engineering).actor_user_id ≢ (a product_operations).actor_user_id)
      × ((a data_compliance).actor_user_id ≢ (a product_operations).actor_user_id)
unfolding locked_candidate
released_approvals db id c reach found out =
    let sound = Reachable-IsSound db reach in
    let backing =
      find-All (IsBacked db.approvals) (λ x. x.id == id) db.candidates c sound.backed found out in
    let apart = λ (role : ApprovalRole).
      approval-independent db c id role (backing role).0 sound found (backing role).1 in
    let different = λ (r s : ApprovalRole).
      IsUnique-actors db.approvals c.id r s (backing r).0 (backing s).0 sound.unique (backing r).1
        (backing s).1 in
    (
      λ role. (backing role).0,
      λ role. ((backing role).1, (backing role).2, apart role),
      different engineering data_compliance (λ e. cc e),
      different engineering product_operations (λ e. cc e),
      different data_compliance product_operations (λ e. cc e),
    )
