-- ===== src/Automation/Runs/Settled.antt =====
-- A step that has succeeded is never executed again.
use zhiniu.Prelude.{
  ℕ, Bool, true, false, not, ◌&&◌, ◌≡◌, refl, sym, ◌∙◌, ap, inl, inr, some, List, [], ◌∷◌, map,
  filter_by, All, All-map, All-impl, All-sort_by, ◌==◌, ==_iff, arith, Bool-cases, Option-cases,
}
use mathlib.Core.Option.{some-injective}
use zhiniu.Automation.Models.{AutomationRunRecord, AutomationRunStepRecord, is_succeeded}
use zhiniu.Automation.Levels.{is_active}
use zhiniu.Automation.Runs.{
  Worker, AutomationDb, get_run, execute_steps, execute_step, finish_step, pending_steps,
  pending_of, step_order,
}
use zhiniu.Automation.Runs.Leases.{
  execute_run, execute_found, acquire, recover_step, finalize_run, is_held, resumed,
}

-- The rows of an identifier; it is the key of the table.
abbrev pub rows_of : ℕ → List AutomationRunStepRecord → List AutomationRunStepRecord
rows_of k steps = filter_by (λ s. s.id == k) steps

-- The step of an identifier has succeeded.
abbrev pub IsSettled : ℕ → AutomationRunStepRecord → Type 0
IsSettled k s = s.id ≡ k → is_succeeded s.status ≡ true

-- A write that leaves the rows of the identifier alone.
rows_of-map :
    (k : ℕ) (f : AutomationRunStepRecord → AutomationRunStepRecord)
    (steps : List AutomationRunStepRecord)
    → ((s : AutomationRunStepRecord) → (f s).id ≡ s.id)
    → All (λ s. s.id ≡ k → f s ≡ s) steps
    → rows_of k (map f steps) ≡ rows_of k steps
rows_of-map k f [] same h = refl
rows_of-map k f (s ∷ ss) same h = elim (Bool-cases (s.id == k)) [
  | inl own ↦
      rw (same s, own, h.0 ((==_iff s.id k).0 own)) (ap (λ t. s ∷ t) (rows_of-map k f ss same h.1))
  | inr other ↦ rw (same s, other) (rows_of-map k f ss same h.1)
]

All-filter_by :
    (P : AutomationRunStepRecord → Type 0) (q : AutomationRunStepRecord → Bool)
    (xs : List AutomationRunStepRecord)
    → All (λ s. q s ≡ true → P s) xs
    → All P (filter_by q xs)
All-filter_by P q [] h = tt
All-filter_by P q (x ∷ xs) h = elim (Bool-cases (q x)) [
  | inl yes_x ↦ rw yes_x (h.0 yes_x, All-filter_by P q xs h.1)
  | inr no_x ↦ rw no_x (All-filter_by P q xs h.1)
]

All-always : {A : Type 0} (P : A → Type 0) (xs : List A) → ((x : A) → P x) → All P xs
All-always P [] f = tt
All-always P (x ∷ xs) f = (f x, All-always P xs f)

module _ (w : Worker) (run_id k : ℕ) where
  execute_step-kept :
      (x : AutomationRunStepRecord) (db : AutomationDb)
      → (x.id == k) ≡ false
      → rows_of k (execute_step w run_id x db).steps ≡ rows_of k db.steps
  unfolding execute_step finish_step
  execute_step-kept x db other =
      rows_of-map k _ _ (λ s. ground arith) (All-always _ _ (λ s own. ground (arith, own, other)))
      ∙ rows_of-map k _ db.steps (λ s. ground arith)
          (All-always _ _ (λ s own. ground (arith, own, other)))

  execute_steps-kept :
      (todo : List AutomationRunStepRecord) (db : AutomationDb)
      → All (λ x. (x.id == k) ≡ false) todo
      → rows_of k (execute_steps w run_id todo db).steps ≡ rows_of k db.steps
  unfolding execute_steps
  execute_steps-kept [] db h = refl
  execute_steps-kept (x ∷ todo) db h =
      execute_steps-kept todo (execute_step w run_id x db) h.1 ∙ execute_step-kept x db h.0

  recover-kept :
      (steps : List AutomationRunStepRecord)
      → All (IsSettled k) steps
      → rows_of k (map (recover_step run_id w.now) steps) ≡ rows_of k steps
  recover-kept steps h =
      rows_of-map k (recover_step run_id w.now) steps (λ s. ground arith)
        (All-impl (IsSettled k) _ steps (λ s c own. ground (arith, c own)) h)

  others_pending :
      (db : AutomationDb)
      → All (IsSettled k) db.steps
      → All (λ x. (x.id == k) ≡ false) (pending_steps w run_id db)
  unfolding pending_steps
  others_pending db h = All-sort_by (step_order w) _ (filter_by (pending_of run_id) db.steps) (
      All-filter_by _ (pending_of run_id) db.steps
        (All-impl (IsSettled k) _ db.steps (λ s c open_s. ground (arith, c, open_s)) h))

  executed_kept :
      (db : AutomationDb)
      → All (IsSettled k) db.steps
      → let db' = acquire w run_id db in
        rows_of k (execute_steps w run_id (pending_steps w run_id db') db').steps
        ≡ rows_of k db.steps
  executed_kept db h =
      let db' = acquire w run_id db in
      let h' =
        All-map (IsSettled k) (IsSettled k) (recover_step run_id w.now) db.steps
          (λ s c own. ground (arith, c, own)) h in
      execute_steps-kept (pending_steps w run_id db') db' (others_pending db' h')
      ∙ recover-kept db.steps h

  execute_found-kept :
      (db : AutomationDb) (r : AutomationRunRecord)
      → All (IsSettled k) db.steps
      → rows_of k (execute_found w run_id db r).steps ≡ rows_of k db.steps
  unfolding execute_found finalize_run
  execute_found-kept db r h = elim (Bool-cases (is_active r.status && not (is_held w.now r))) [
    | inl goes ↦ rw (execute_found, goes) (executed_kept db h)
    | inr stays ↦ rw (execute_found, stays) refl
  ]

  -- An execution of a run leaves the row of every step that has succeeded as it is.
  pub succeeded_kept :
      (db db' : AutomationDb)
      → All (IsSettled k) db.steps
      → execute_run w run_id db ≡ some db'
      → rows_of k db'.steps ≡ rows_of k db.steps
  unfolding execute_run
  succeeded_kept db db' h done = elim (Option-cases (get_run db run_id)) [
    | inl absent ↦ absurd (ground (arith, rw (execute_run, absent) at done))
    | inr (r, there) ↦
        ap (λ t. rows_of k t.steps)
          (sym (some-injective (execute_found w run_id db r) db' (rw (execute_run, there) at done)))
        ∙ execute_found-kept db r h
  ]

-- Nor does a resumption of the run and its execution after it.
pub resumed_kept :
    (w : Worker) (run_id k : ℕ) (db db' : AutomationDb)
    → All (IsSettled k) db.steps
    → execute_run w run_id (resumed run_id db) ≡ some db'
    → rows_of k db'.steps ≡ rows_of k db.steps
resumed_kept w run_id k db db' h done =
    succeeded_kept w run_id k (resumed run_id db) db'
      (All-map (IsSettled k) (IsSettled k) _ db.steps (λ s c own. ground (arith, c, own)) h) done
    ∙ rows_of-map k _ db.steps (λ s. ground arith)
        (All-impl (IsSettled k) _ db.steps (λ s c own. ground (arith, c own)) h)
