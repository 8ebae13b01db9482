-- ===== src/Auth/Kept.antt =====
-- What stays of a table whose rows are found by a digest: a row that is spent stays spent, and is
-- still the one that is found.
use zhiniu.Prelude.{
  ℕ, Bool, true, ◌≡◌, some, List, ◌++◌, map, find, find-map, find-append_some, ◌==◌,
}

module _ {A : Type 0} (key : A → ℕ) (spent : A → Bool) where
  -- The row of a digest is there, and spent.
  abbrev pub IsSpent : ℕ → List A → Type 0
  IsSpent h rows = (a : A) × (find (λ x. key x == h) rows ≡ some a) × (spent a ≡ true)

  abbrev pub Keeps : List A → List A → Type 0
  Keeps rows rows' = (h : ℕ) → IsSpent h rows → IsSpent h rows'

  pub Keeps-append : (rows more : List A) → Keeps rows (rows ++ more)
  Keeps-append rows more h (a, found, gone) =
      (a, find-append_some (λ x. key x == h) rows more a found, gone)

  pub Keeps-map :
      (f : A → A) (rows : List A)
      → ((x : A) → key (f x) ≡ key x)
      → ((x : A) → spent x ≡ true → spent (f x) ≡ true)
      → Keeps rows (map f rows)
  Keeps-map f rows same stays h (a, found, gone) =
      (f a, find-map (λ x. key x == h) f rows a (λ x. rw (same x)) found, stays a gone)

  -- A row that is found is spent after the writes, if they spend it.
  pub map-IsSpent :
      (f : A → A) (rows : List A) (h : ℕ) (a : A)
      → ((x : A) → key (f x) ≡ key x)
      → find (λ x. key x == h) rows ≡ some a
      → spent (f a) ≡ true
      → IsSpent h (map f rows)
  map-IsSpent f rows h a same found gone =
      (f a, find-map (λ x. key x == h) f rows a (λ x. rw (same x)) found, gone)
