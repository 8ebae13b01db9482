-- ===== src/MarketData/Bars/Validity.antt =====
-- The checks of one bar amount to the ordering of its prices.
use zhiniu.Prelude.{
  ℕ, ◌≡◌, ◌↔◌, refl, inl, inr, Bool, true, false, not, ◌||◌, Option, none, some, List, [], ◌∷◌,
  arith, Option-cases, All, text_eq, if◌then◌else◌,
}
use zhiniu.Prelude.Int.{ℤ, pos, ◌≤ℤ◌, ltb_ℤ, leb_ℤ}
use zhiniu.MarketData.Bars.{DailyBar, min_ℤ, max_ℤ, bad_pre_close, check_bar, check_bars}

abbrev pub IsPositive : Option ℤ → Type 0
IsPositive none = Unit
IsPositive (some p) = pos 1 ≤ℤ p

-- What a bar of a symbol has to satisfy; a positive integer is one of at least 1.
pub record IsValidBar (symbol : List ℕ) (bar : DailyBar) : Type 0 where
  pub own : text_eq bar.canonical_symbol symbol ≡ true
  pub positive : pos 1 ≤ℤ bar.low
  pub open_range : (bar.low ≤ℤ bar.opening) × (bar.opening ≤ℤ bar.high)
  pub close_range : (bar.low ≤ℤ bar.close) × (bar.close ≤ℤ bar.high)
  pub previous : IsPositive bar.pre_close
  pub traded : (pos 0 ≤ℤ bar.volume) × (pos 0 ≤ℤ bar.amount)

min_below : (a b c : ℤ) → c ≤ℤ a → c ≤ℤ b → c ≤ℤ min_ℤ a b
min_below a b c h k = ground arith

below_min : (a b c : ℤ) → c ≤ℤ min_ℤ a b → (c ≤ℤ a) × (c ≤ℤ b)
below_min a b c h = (ground arith, ground arith)

max_above : (a b c : ℤ) → a ≤ℤ c → b ≤ℤ c → max_ℤ a b ≤ℤ c
max_above a b c h k = ground arith

above_max : (a b c : ℤ) → max_ℤ a b ≤ℤ c → (a ≤ℤ c) × (b ≤ℤ c)
above_max a b c h = (ground arith, ground arith)

above_zero : (a : ℤ) → leb_ℤ a (pos 0) ≡ false ↔ (pos 1 ≤ℤ a)
above_zero a = (λ h. ground arith, λ h. ground arith)

not_less : (a b : ℤ) → ltb_ℤ a b ≡ false ↔ (b ≤ℤ a)
not_less a b = (λ h. ground arith, λ h. ground arith)

IsPositive-pre_close : (o : Option ℤ) → bad_pre_close o ≡ false ↔ IsPositive o
IsPositive-pre_close none = (λ h. tt, λ h. refl)
IsPositive-pre_close (some p) = above_zero p

-- A guard that does not raise.
guarded {ℓ} :
    {E : Type ℓ} (b : Bool) (e : E) (rest : Option E)
    → (if b then some e else rest) ≡ none
    → (b ≡ false) × (rest ≡ none)
guarded true e rest h = absurd (cc h)
guarded false e rest h = (refl, h)

module _ (symbol : List ℕ) (bar : DailyBar) where
  -- A bar with no error.
  check_bar-IsValidBar : check_bar symbol bar ≡ none → IsValidBar symbol bar
  unfolding check_bar
  check_bar-IsValidBar h =
      let pair = min_ℤ bar.opening bar.high in
      let three = min_ℤ pair bar.low in
      let floor = max_ℤ bar.opening bar.low in
      let (own, h1) = guarded (not (text_eq bar.canonical_symbol symbol)) _ _ h in
      let (p, h2) = guarded (leb_ℤ (min_ℤ three bar.close) (pos 0)) _ _ h1 in
      let (t, h3) = guarded (ltb_ℤ bar.high (max_ℤ floor bar.close)) _ _ h2 in
      let (b, h4) = guarded (ltb_ℤ (min_ℤ pair bar.close) bar.low) _ _ h3 in
      let (q, h5) = guarded (bad_pre_close bar.pre_close) _ _ h4 in
      let (v, h6) = guarded (ltb_ℤ bar.volume (pos 0) || ltb_ℤ bar.amount (pos 0)) _ _ h5 in
      let lowest = below_min three bar.close (pos 1) ((above_zero (min_ℤ three bar.close)).0 p) in
      let (top, close_top) =
        above_max floor bar.close bar.high ((not_less bar.high (max_ℤ floor bar.close)).0 t) in
      let (bottom, close_bottom) =
        below_min pair bar.close bar.low ((not_less (min_ℤ pair bar.close) bar.low).0 b) in
      record {
        own = ground (arith, own);
        positive = (below_min pair bar.low (pos 1) lowest.0).1;
        open_range = (
          (below_min bar.opening bar.high bar.low bottom).0,
          (above_max bar.opening bar.low bar.high top).0,
        );
        close_range = (close_bottom, close_top);
        previous = (IsPositive-pre_close bar.pre_close).0 q;
        traded = (ground (arith, v), ground (arith, v));
      }

  IsValidBar-check_bar : IsValidBar symbol bar → check_bar symbol bar ≡ none
  unfolding check_bar
  IsValidBar-check_bar v =
      let o1 : pos 1 ≤ℤ bar.opening = omega (arith, v.positive, v.open_range.0) in
      let h1 : pos 1 ≤ℤ bar.high = omega (arith, o1, v.open_range.1) in
      let c1 : pos 1 ≤ℤ bar.close = omega (arith, v.positive, v.close_range.0) in
      let lh : bar.low ≤ℤ bar.high = omega (arith, v.open_range.0, v.open_range.1) in
      let lowest =
        min_below (min_ℤ (min_ℤ bar.opening bar.high) bar.low) bar.close (pos 1)
          (min_below (min_ℤ bar.opening bar.high) bar.low (pos 1)
            (min_below bar.opening bar.high (pos 1) o1 h1) v.positive)
          c1 in
      let top =
        max_above (max_ℤ bar.opening bar.low) bar.close bar.high
          (max_above bar.opening bar.low bar.high v.open_range.1 lh) v.close_range.1 in
      let bottom =
        min_below (min_ℤ bar.opening bar.high) bar.close bar.low
          (min_below bar.opening bar.high bar.low v.open_range.0 lh) v.close_range.0 in
      rw
        (
          v.own,
          (above_zero (min_ℤ (min_ℤ (min_ℤ bar.opening bar.high) bar.low) bar.close)).1 lowest,
          (not_less bar.high (max_ℤ (max_ℤ bar.opening bar.low) bar.close)).1 top,
          (not_less (min_ℤ (min_ℤ bar.opening bar.high) bar.close) bar.low).1 bottom,
          (IsPositive-pre_close bar.pre_close).1 v.previous,
          (not_less bar.volume (pos 0)).1 v.traded.0,
          (not_less bar.amount (pos 0)).1 v.traded.1,
        )
        refl

-- The loop raises no error exactly if every bar is valid.
pub check_bars-IsValidBar :
    (symbol : List ℕ) (bars : List DailyBar)
    → check_bars symbol bars ≡ none ↔ All (IsValidBar symbol) bars
unfolding check_bars
check_bars-IsValidBar symbol [] = (λ h. tt, λ h. refl)
check_bars-IsValidBar symbol (bar ∷ rest) =
    let (to, back) = check_bars-IsValidBar symbol rest in
    (
      λ h. elim (Option-cases (check_bar symbol bar)) [
        | inr (e, raised) ↦ absurd (cc (rw (check_bars, raised) at h))
        | inl fine ↦ (check_bar-IsValidBar symbol bar fine, to (rw (check_bars, fine) at h))
      ],
      λ h. rw (check_bars, IsValidBar-check_bar symbol bar h.0) (back h.1),
    )
