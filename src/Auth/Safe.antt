-- ===== src/Auth/Safe.antt =====
-- The rules for what holds of the outcome of a request.
use zhiniu.Prelude.{◌≡◌, refl, Bool, true, false, Option, none, some, if◌then◌else◌, arith}
use zhiniu.Auth.Store.{
  AuthDb, AuthError, Result, after, err, except_integrity, ok, or_raise, require, ◌>>=◌, ◌>>◌,
}

-- What holds of the outcome of a request, unless it raises.
pub data Safe {A : Type 0} (P : A → Type 0) : Result A → Type 0 where
  returned : {a : A} → P a → Safe P (ok a)
  raised : {e : AuthError} → Safe P (err e)

pub Safe->>= :
    {A B : Type 0} {P : B → Type 0} (m : Result A) {f : A → Result B}
    → ((a : A) → m ≡ ok a → Safe P (f a))
    → Safe P (m >>= f)
Safe->>= (ok a) h = h a refl
Safe->>= (err e) h = raised

pub Safe-or_raise :
    {A B : Type 0} {P : B → Type 0} (o : Option A) (e : AuthError) {f : A → Result B}
    → ((a : A) → o ≡ some a → Safe P (f a))
    → Safe P (or_raise o e >>= f)
Safe-or_raise (some a) e h = h a refl
Safe-or_raise none e h = raised

pub Safe-require :
    {B : Type 0} {P : B → Type 0} (b : Bool) (e : AuthError) {k : Result B}
    → (b ≡ true → Safe P k)
    → Safe P (require b e >> k)
Safe-require true e h = h refl
Safe-require false e h = raised

pub Safe-then :
    {A B : Type 0} {P : A → Type 0} {Q : B → Type 0} {m : Result A} {f : A → Result B}
    → Safe P m
    → ((a : A) → P a → Safe Q (f a))
    → Safe Q (m >>= f)
Safe-then (returned p) h = h _ p
Safe-then raised h = raised

pub Safe-map :
    {A : Type 0} {P Q : A → Type 0} {r : Result A} → Safe P r → ((a : A) → P a → Q a) → Safe Q r
Safe-map (returned p) f = returned (f _ p)
Safe-map raised f = raised

pub Safe-except :
    {A : Type 0} {P : A → Type 0} (e : AuthError) {r : Result A}
    → Safe P r
    → Safe P (except_integrity e r)
Safe-except e (returned p) = returned p
Safe-except e raised = raised

pub Safe-if :
    {A : Type 0} {P : A → Type 0} {x y : Result A} (b : Bool)
    → (b ≡ true → Safe P x)
    → (b ≡ false → Safe P y)
    → Safe P (if b then x else y)
Safe-if true p q = p refl
Safe-if false p q = q refl

-- What holds of the outcome holds of the tables that are left, if it holds of those before.
pub Safe-after :
    {A : Type 0} (P : AuthDb → Type 0) {db : AuthDb} {r : Result (A × AuthDb)}
    → P db
    → Safe (λ p. P p.1) r
    → P (after db r)
Safe-after P kept (returned p) = p
Safe-after P kept raised = kept

pub Safe-eq-ok : {A : Type 0} {P : A → Type 0} {r : Result A} (a : A) → Safe P r → r ≡ ok a → P a
Safe-eq-ok a (returned p) h = ground (arith, p)
Safe-eq-ok a raised h = ground arith

pub Safe-self : {A : Type 0} (r : Result A) → Safe (λ a. r ≡ ok a) r
Safe-self (ok a) = returned refl
Safe-self (err e) = raised
