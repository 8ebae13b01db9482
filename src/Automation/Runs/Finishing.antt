-- ===== src/Automation/Runs/Finishing.antt =====
-- Open steps, closed runs and the counts of a finished run.
use zhiniu.Prelude.{
  ℕ, ◌+◌, ◌≤◌, Bool, true, false, ◌||◌, ◌≡◌, refl, ◌∙◌, ap, some, List, [], ◌∷◌, find, find-map,
  find-holds, filter_by, count_by, All, All-impl, ◌==◌, ==_refl, if◌then◌else◌, arith,
}
use zhiniu.Automation.Models.{
  StepStatus, pending, running, succeeded, failed, skipped, blocked, AutomationRunRecord,
  AutomationRunStepRecord, is_pending, is_running, is_succeeded, is_failed, is_skipped, is_blocked,
}
use zhiniu.Automation.Levels.{is_active}
use zhiniu.Automation.Runs.{
  AutomationDb, Ending, skips, ends, completed, raised, ended_status, get_run, change_run,
}
use zhiniu.Automation.Runs.Leases.{of_run, final_status}

-- Still to be done, or being done.
abbrev pub is_open : StepStatus → Bool
is_open status = is_pending status || is_running status

-- An open step of the run is among those that are to be executed.
abbrev pub Covered : ℕ → List AutomationRunStepRecord → AutomationRunStepRecord → Type 0
Covered run_id todo s =
    s.run_id ≡ run_id → is_open s.status ≡ true → 1 ≤ count_by (λ t. t.id == s.id) todo

-- No step of the run is open.
abbrev pub IsOver : ℕ → AutomationRunStepRecord → Type 0
IsOver run_id s = s.run_id ≡ run_id → is_open s.status ≡ false

pub ended_closed : (e : Ending) → is_open (ended_status e) ≡ false
ended_closed (skips reason) = refl
ended_closed (ends (completed r)) = ground arith
ended_closed (ends (raised code retryable)) = refl

pub self_counted :
    (q : AutomationRunStepRecord → Bool) (xs : List AutomationRunStepRecord)
    → All (λ s. q s ≡ true → 1 ≤ count_by (λ t. t.id == s.id) (filter_by q xs)) xs
self_counted q [] = tt
self_counted q (x ∷ xs) = (
  λ h. rw (h, ==_refl x.id) (omega arith),
  All-impl _ _ xs (λ s k h. ground (arith, k h)) (self_counted q xs),
)

pub All-both :
    (P Q R : AutomationRunStepRecord → Type 0) (xs : List AutomationRunStepRecord)
    → ((x : AutomationRunStepRecord) → P x → Q x → R x)
    → All P xs
    → All Q xs
    → All R xs
All-both P Q R [] f a b = tt
All-both P Q R (x ∷ xs) f a b = (f x a.0 b.0, All-both P Q R xs f a.1 b.1)

pub final_closed : (a b c : ℕ) → is_active (final_status a b c) ≡ false
final_closed a b c = ground arith

pub one_status :
    (status : StepStatus)
    → is_open status ≡ false
    → (if is_succeeded status then 1 else 0)
        + (if is_failed status then 1 else 0)
        + (if is_skipped status then 1 else 0)
        + (if is_blocked status then 1 else 0)
      ≡ 1
one_status pending h = ground arith
one_status running h = ground arith
one_status succeeded h = refl
one_status failed h = refl
one_status skipped h = refl
one_status blocked h = refl

-- The row of a run after a change of other columns.
pub changed_run :
    (runs : List AutomationRunRecord) (run_id : ℕ) (f : AutomationRunRecord → AutomationRunRecord)
    (r : AutomationRunRecord)
    → ((r : AutomationRunRecord) → (f r).id ≡ r.id)
    → find (λ r. r.id == run_id) runs ≡ some r
    → find (λ r. r.id == run_id) (change_run run_id f runs) ≡ some (f r)
changed_run runs run_id f r same there =
    find-map (λ r. r.id == run_id) (λ r. if r.id == run_id then f r else r) runs r
      (λ r. ground (arith, same r)) there
    ∙ ap some (rw (find-holds (λ r. r.id == run_id) runs r there) refl)

-- The run that is left: it is closed, and its counts add up.
pub record IsFinished (run_id : ℕ) (db : AutomationDb) : Type 0 where
  pub run : AutomationRunRecord
  pub there : get_run db run_id ≡ some run
  pub ended : is_active run.status ≡ false
  pub steps_over : All (IsOver run_id) db.steps
  pub total :
      run.total_steps
      ≡ run.succeeded_steps
        + run.failed_steps
        + run.skipped_steps
        + count_by (λ s. is_blocked s.status) (filter_by (of_run run_id) db.steps)
