-- ===== src/Automation/Runs/Executed.antt =====
-- A run that is executed leaves no step open, and its status says how its steps ended.
use zhiniu.Prelude.{
  ℕ, ◌+◌, true, false, ◌≡◌, refl, inl, inr, some, List, [], ◌∷◌, map, filter_by, count_by, length,
  count_by-sort_by, All, All-map, All-impl, ◌==◌, ==_iff, if◌then◌else◌, arith, Bool-cases,
}
use zhiniu.Automation.Models.{
  AutomationRunRecord, AutomationRunStepRecord, is_running, is_succeeded, is_failed, is_skipped,
  is_blocked,
}
use zhiniu.Automation.Levels.{is_active}
use zhiniu.Automation.Runs.{
  Worker, AutomationDb, Ending, skips, ends, completed, raised, end_step, start_step, finish_step,
  execute_step, execute_steps, pending_of, pending_steps, get_run, change_run, beat, step_order,
}
use zhiniu.Automation.Runs.Leases.{
  recover_step, lease_over, acquire, acquire_run, of_run, is_held, finalize_run, finalized,
  execute_found, execute_run,
}
use zhiniu.Automation.Runs.Finishing.{
  All-both, Covered, IsFinished, IsOver, changed_run, ended_closed, final_closed, is_open,
  one_status, self_counted,
}

module _ (w : Worker) (run_id : ℕ) where
  -- The steps but the one that is executed.
  Rest : AutomationRunStepRecord → List AutomationRunStepRecord → AutomationRunStepRecord → Type 0
  Rest x todo s = (s.id == x.id) ≡ false → Covered run_id todo s

  others :
      (x : AutomationRunStepRecord) (todo : List AutomationRunStepRecord)
      (s : AutomationRunStepRecord)
      → Covered run_id (x ∷ todo) s
      → Rest x todo (if s.id == x.id then start_step w s else s)
  unfolding Rest
  others x todo s c = elim (Bool-cases (s.id == x.id)) [
    | inl same ↦ λ other. absurd (ground (arith, same, rw same at other))
    | inr other ↦ rw other (λ _ own open_s. ground (arith, other, c own open_s))
  ]

  closed :
      (e : Ending) (x : AutomationRunStepRecord) (todo : List AutomationRunStepRecord)
      (s : AutomationRunStepRecord)
      → Rest x todo s
      → Covered run_id todo (if s.id == x.id then end_step w e s else s)
  unfolding Rest
  closed e x todo s c = elim (Bool-cases (s.id == x.id)) [
    | inl same ↦ rw same (λ own open_s. absurd (ground (arith, ended_closed e, open_s)))
    | inr other ↦ rw other (c other)
  ]

  execute_step-Covered :
      (x : AutomationRunStepRecord) (todo : List AutomationRunStepRecord) (db : AutomationDb)
      → All (Covered run_id (x ∷ todo)) db.steps
      → All (Covered run_id todo) (execute_step w run_id x db).steps
  unfolding execute_step finish_step
  execute_step-Covered x todo db h =
      let started = map (λ s. if s.id == x.id then start_step w s else s) db.steps in
      All-map (Rest x todo) (Covered run_id todo) _ started (λ s c. closed _ x todo s c)
        (All-map (Covered run_id (x ∷ todo)) (Rest x todo) _ db.steps (λ s c. others x todo s c) h)

  execute_steps-IsOver :
      (todo : List AutomationRunStepRecord) (db : AutomationDb)
      → All (Covered run_id todo) db.steps
      → All (IsOver run_id) (execute_steps w run_id todo db).steps
  unfolding execute_steps
  execute_steps-IsOver [] db h = All-impl _ _ db.steps (λ s c own. ground (arith, c own)) h
  execute_steps-IsOver (x ∷ todo) db h =
      execute_steps-IsOver todo (execute_step w run_id x db) (execute_step-Covered x todo db h)

  -- The run stays in the table.
  abbrev IsThere : AutomationDb → Type 0
  IsThere db = (r : AutomationRunRecord) × (get_run db run_id ≡ some r)

  change_run-IsThere :
      (db db' : AutomationDb) (f : AutomationRunRecord → AutomationRunRecord)
      → ((r : AutomationRunRecord) → (f r).id ≡ r.id)
      → db'.runs ≡ change_run run_id f db.runs
      → IsThere db
      → IsThere db'
  change_run-IsThere db db' f same e (r, there) =
      (f r, rw e (changed_run db.runs run_id f r same there))

  beat_id : (id : ℕ) (e : Ending) (r : AutomationRunRecord) → (beat w id e r).id ≡ r.id
  beat_id id (skips reason) r = refl
  beat_id id (ends (completed x)) r = refl
  beat_id id (ends (raised code retryable)) r = refl

  execute_steps-IsThere :
      (todo : List AutomationRunStepRecord) (db : AutomationDb)
      → IsThere db
      → IsThere (execute_steps w run_id todo db)
  unfolding execute_steps execute_step finish_step
  execute_steps-IsThere [] db h = h
  execute_steps-IsThere (x ∷ todo) db h =
      execute_steps-IsThere todo (execute_step w run_id x db)
        (change_run-IsThere db (execute_step w run_id x db) _ (beat_id x.id _) refl h)

  recovered :
      (s : AutomationRunStepRecord)
      → (s.run_id ≡ run_id
          → is_running s.status ≡ true
          → lease_over w.now s.lease_expires_at ≡ true)
      → (recover_step run_id w.now s).run_id ≡ run_id
      → is_open (recover_step run_id w.now s).status ≡ true
      → pending_of run_id (recover_step run_id w.now s) ≡ true
  recovered s k own open_s = ground (arith, k, own, open_s)

  counts_add :
      (steps : List AutomationRunStepRecord)
      → All (IsOver run_id) steps
      → length (filter_by (of_run run_id) steps)
        ≡ count_by (λ s. is_succeeded s.status) (filter_by (of_run run_id) steps)
          + count_by (λ s. is_failed s.status) (filter_by (of_run run_id) steps)
          + count_by (λ s. is_skipped s.status) (filter_by (of_run run_id) steps)
          + count_by (λ s. is_blocked s.status) (filter_by (of_run run_id) steps)
  counts_add [] over = refl
  counts_add (s ∷ ss) over = elim (Bool-cases (of_run run_id s)) [
    | inl own ↦
        rw own
          (omega (arith, counts_add ss over.1, one_status s.status (over.0 ((==_iff _ _).0 own))))
    | inr other ↦ rw other (counts_add ss over.1)
  ]

  -- Once the leases of running steps are over, every open step is to be executed.
  acquire-Covered :
      (db : AutomationDb)
      → All
          (λ s.
            s.run_id ≡ run_id
            → is_running s.status ≡ true
            → lease_over w.now s.lease_expires_at ≡ true)
          db.steps
      → let db' = acquire w run_id db in All (Covered run_id (pending_steps w run_id db')) db'.steps
  unfolding pending_steps
  acquire-Covered db h =
      let db' = acquire w run_id db in
      let open_pending =
        All-map _ (λ s. s.run_id ≡ run_id → is_open s.status ≡ true → pending_of run_id s ≡ true)
          (recover_step run_id w.now) db.steps (λ s k own open_s. recovered s k own open_s) h in
      All-both _ _ _ db'.steps
        (λ s a b own open_s.
          rw
            (count_by-sort_by (step_order w) (λ t. t.id == s.id)
              (filter_by (pending_of run_id) db'.steps))
            (b (a own open_s)))
        open_pending (self_counted (pending_of run_id) db'.steps)

  pub finalize_run-IsFinished :
      (finished : ℕ) (db : AutomationDb)
      → IsThere db
      → All (IsOver run_id) db.steps
      → IsFinished run_id (finalize_run finished run_id db)
  unfolding finalize_run
  finalize_run-IsFinished finished db (r, there) over = record {
    run = finalized finished (filter_by (of_run run_id) db.steps) r;
    there =
        changed_run db.runs run_id (finalized finished (filter_by (of_run run_id) db.steps)) r
          (λ r. refl) there;
    ended =
        final_closed (count_by (λ s. is_failed s.status) (filter_by (of_run run_id) db.steps)) _ _;
    steps_over = over;
    total = counts_add db.steps over;
  }

  -- A run that may be executed, and whose running steps have no lease that still runs, is finished by
  -- its execution: the run is closed, none of its steps is pending or running, and its counts of
  -- steps add up with the blocked ones.
  pub execute_run-IsFinished :
      (db : AutomationDb) (r : AutomationRunRecord)
      → get_run db run_id ≡ some r
      → is_active r.status ≡ true
      → is_held w.now r ≡ false
      → All
          (λ s.
            s.run_id ≡ run_id
            → is_running s.status ≡ true
            → lease_over w.now s.lease_expires_at ≡ true)
          db.steps
      → (db' : AutomationDb) × (execute_run w run_id db ≡ some db') × IsFinished run_id db'
  unfolding execute_run execute_found
  execute_run-IsFinished db r there active free leases =
      let acquired = acquire w run_id db in
      let todo = pending_steps w run_id acquired in
      let executed = execute_steps w run_id todo acquired in
      (
        finalize_run w.finished run_id executed,
        rw (execute_run, there, execute_found, active, free) refl,
        finalize_run-IsFinished w.finished executed
            (execute_steps-IsThere todo acquired
              (change_run-IsThere db acquired (acquire_run w) (λ r. refl) refl (r, there)))
            (execute_steps-IsOver todo acquired (acquire-Covered db leases)),
      )
