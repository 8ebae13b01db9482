-- ===== src/Automation/Runs/Resuming.antt =====
-- Runs that are given up or resumed, and what the status of a finished run says.
use zhiniu.Prelude.{
  ℕ, ◌+◌, ◌≤◌, Bool, true, false, not, ◌&&◌, ◌≡◌, ◌↔◌, refl, some, List, [], ◌∷◌, map, count_by,
  All, All-map, codes, arith,
}
use zhiniu.Automation.Models.{
  RunStatus, run_succeeded, partial, run_failed, AutomationRunRecord, AutomationRunStepRecord,
  is_failed, is_ai,
}
use zhiniu.Automation.Runs.{Worker, AutomationDb, get_run}
use zhiniu.Automation.Runs.Leases.{
  accepted, finalized, finalize_run, mark_stalled_run, stall_step, is_resumable, resume_found,
  resumed, pend_run, resume_run, execute_run,
}
use zhiniu.Automation.Runs.Finishing.{IsOver, IsFinished, changed_run}
use zhiniu.Automation.Runs.Executed.{finalize_run-IsFinished, execute_run-IsFinished}

-- A run of an unfinished or failed kind.
abbrev pub has_failed : RunStatus → Bool
has_failed run_failed = true
has_failed partial = true
has_failed other = false

failed_split :
    (steps : List AutomationRunStepRecord)
    → count_by (λ s. is_failed s.status) steps
      ≡ count_by (λ s. is_failed s.status && is_ai s.step_key) steps
        + count_by (λ s. is_failed s.status && not (is_ai s.step_key)) steps
failed_split [] = refl
failed_split (s ∷ ss) = ground (arith, failed_split ss)

-- The status of a finished run is succeeded exactly when no step failed, and it is failed or partial
-- exactly when a step other than the research by a language model failed.
pub finalized_status :
    (finished : ℕ) (steps : List AutomationRunStepRecord) (r : AutomationRunRecord)
    → (((finalized finished steps r).status ≡ run_succeeded)
        ↔ (count_by (λ s. is_failed s.status) steps ≡ 0))
      × ((has_failed (finalized finished steps r).status ≡ true)
          ↔ (1 ≤ count_by (λ s. is_failed s.status && not (is_ai s.step_key)) steps))
finalized_status finished steps r = ground (arith, failed_split steps)

All-unit : {A : Type 0} (xs : List A) → All (λ _. Unit {0}) xs
All-unit [] = tt
All-unit (x ∷ xs) = (tt, All-unit xs)

module _ (w : Worker) (run_id : ℕ) where
  -- A run that has not moved for too long is finished by `_mark_stalled_run`, and the code says why.
  stalled : (now : ℕ) (s : AutomationRunStepRecord) → IsOver run_id (stall_step run_id now s)
  stalled now s own = ground (arith, own)

  pub mark_stalled_run-IsFinished :
      (now finished : ℕ) (db : AutomationDb) (r : AutomationRunRecord)
      → get_run db run_id ≡ some r
      → IsFinished run_id (mark_stalled_run run_id now finished db)
  unfolding mark_stalled_run finalize_run
  mark_stalled_run-IsFinished now finished db r there =
      let stalled_db : AutomationDb = record db { steps = map (stall_step run_id now) db.steps } in
      let f =
        finalize_run-IsFinished w run_id finished stalled_db (r, there)
          (All-map (λ _. Unit {0}) (IsOver run_id) (stall_step run_id now) db.steps
            (λ s _. stalled now s) (All-unit db.steps)) in
      record {
        run = record (f.run) { error_code = some (codes "preparation_stalled") };
        there =
            changed_run (finalize_run finished run_id stalled_db).runs run_id
              (λ r. record r { error_code = some (codes "preparation_stalled") }) f.run (λ r. refl)
              f.there;
        ended = f.ended;
        steps_over = f.steps_over;
        total = f.total;
      }

  -- A finished run that failed, or has warnings, is resumed; and the execution of the resumed run
  -- finishes it again.
  pub resume_run-execute :
      (db : AutomationDb) (r : AutomationRunRecord)
      → get_run db run_id ≡ some r
      → is_resumable r.status ≡ true
      → All (IsOver run_id) db.steps
      → (resumed executed : AutomationDb) × (resume_run run_id db ≡ some (accepted, resumed))
        × (execute_run w run_id resumed ≡ some executed)
        × IsFinished run_id executed
  unfolding resume_run
  resume_run-execute db r there resumable over =
      let (executed, done, finished) =
        execute_run-IsFinished w run_id (resumed run_id db) (pend_run r)
          (changed_run db.runs run_id pend_run r (λ r. refl) there) refl refl
          (All-map (IsOver run_id) _ _ db.steps
            (λ s k own going. absurd (ground (arith, k, own, going))) over) in
      (
        resumed run_id db,
        executed,
        rw (resume_run, there, resume_found, resumable) refl,
        done,
        finished,
      )
