-- ===== src/MarketData/Bars/Batches.antt =====
-- A batch is accepted exactly if its dates are distinct and its bars valid, and comes back in the
-- strict order of its dates.
use zhiniu.Prelude.{
  ℕ, suc, ◌≤◌, ◌≡◌, ◌↔◌, refl, sym, ap, ◌∙◌, subst, inl, inr, Bool, true, false, ◌||◌, List, [],
  ◌∷◌, map, arith, Bool-cases, Option-cases, All, any_by, count_by, length, ltb, ◌==◌, ==_refl,
  ==_iff, sort_by, IsSorted, IsOrder, sort_by-IsSorted, count_by-sort_by, length-sort_by,
}
use zhiniu.MarketData.Bars.{
  DailyBar, distinct, check_bars, by_trade_date, accepted, validate_daily_bar_batch,
}
use zhiniu.MarketData.Bars.Validity.{IsValidBar, check_bars-IsValidBar}

-- No date stands on two bars.
abbrev pub IsDistinct : List DailyBar → Type 0
IsDistinct bars = (d : ℕ) → count_by (λ bar. bar.trade_date == d) bars ≤ 1

abbrev dates_of : List DailyBar → List ℕ
dates_of bars = map (λ bar. bar.trade_date) bars

length-distinct : (l : List ℕ) → length (distinct l) ≤ length l
length-distinct [] = omega arith
length-distinct (d ∷ l) = ground (arith, length-distinct l)

distinct-any : (l : List ℕ) (d : ℕ) → any_by (λ x. d == x) (distinct l) ≡ any_by (λ x. d == x) l
distinct-any [] d = refl
distinct-any (e ∷ l) d = elim (Bool-cases (any_by (λ x. e == x) (distinct l))) [
  | inr new ↦ rw new (ap (λ b. (d == e) || b) (distinct-any l d))
  | inl known ↦ elim (Bool-cases (d == e)) [
    | inl same ↦
        let d_is : e ≡ d = ground (arith, same) in
        rw (known, same) (subst (λ k. any_by (λ x. k == x) (distinct l) ≡ true) d_is known)
    | inr other ↦ rw (known, other) (distinct-any l d)
  ]
]

any-count :
    (bars : List DailyBar) (d : ℕ)
    → any_by (λ x. d == x) (dates_of bars) ≡ false
    → count_by (λ bar. bar.trade_date == d) bars ≡ 0
any-count [] d h = refl
any-count (bar ∷ rest) d h = ground (arith, any-count rest d (ground (arith, h)), h)

count-any :
    (bars : List DailyBar) (d : ℕ)
    → count_by (λ bar. bar.trade_date == d) bars ≡ 0
    → any_by (λ x. d == x) (dates_of bars) ≡ false
count-any [] d h = refl
count-any (bar ∷ rest) d h = ground (arith, count-any rest d (ground (arith, h)), h)

-- The dates lose none as a set exactly if no date stands on two bars.
distinct-IsDistinct :
    (bars : List DailyBar)
    → length (dates_of bars) ≡ length (distinct (dates_of bars))
    → IsDistinct bars
distinct-IsDistinct [] h d = omega arith
distinct-IsDistinct (bar ∷ rest) h d =
    let l = dates_of rest in
    elim (Bool-cases (any_by (λ x. bar.trade_date == x) (distinct l))) [
      | inl known ↦ absurd (omega (arith, rw known at h, length-distinct l))
      | inr new ↦
          let same : length l ≡ length (distinct l) = omega (arith, rw new at h) in
          let once = distinct-IsDistinct rest same d in
          let gone = any-count rest bar.trade_date (sym (distinct-any l bar.trade_date) ∙ new) in
          elim (Bool-cases (bar.trade_date == d)) [
            | inr other ↦ rw other (omega (arith, once))
            | inl hit ↦
                let here : bar.trade_date ≡ d = ground (arith, hit) in
                let none_left : count_by (λ b. b.trade_date == d) rest ≡ 0 =
                  subst (λ k. count_by (λ b. b.trade_date == k) rest ≡ 0) here gone in
                rw (hit, none_left) (omega arith)
          ]
    ]

IsDistinct-distinct :
    (bars : List DailyBar)
    → IsDistinct bars
    → length (dates_of bars) ≡ length (distinct (dates_of bars))
IsDistinct-distinct [] h = refl
IsDistinct-distinct (bar ∷ rest) h =
    let l = dates_of rest in
    let d = bar.trade_date in
    let all = h d in
    let gone : count_by (λ b. b.trade_date == d) rest ≡ 0 = omega (arith, rw (==_refl d) at all) in
    let new = distinct-any l d ∙ count-any rest d gone in
    let rest_once : IsDistinct rest = λ k. omega (arith, h k) in
    rw new (ap suc (IsDistinct-distinct rest rest_once))

abbrev pub before : DailyBar → DailyBar → Bool
before a b = ltb a.trade_date b.trade_date

All-before :
    (bar : DailyBar) (l : List DailyBar)
    → All (λ b. by_trade_date bar b ≡ true) l
    → count_by (λ b. b.trade_date == bar.trade_date) l ≡ 0
    → All (λ b. before bar b ≡ true) l
All-before bar [] h k = tt
All-before bar (b ∷ l) h k = (ground (arith, h.0, k), All-before bar l h.1 (ground (arith, k)))

-- Distinct dates in order are in strict order.
before-IsSorted : (l : List DailyBar) → IsDistinct l → IsSorted by_trade_date l → IsSorted before l
before-IsSorted [] h s = tt
before-IsSorted (bar ∷ l) h s =
    let d = bar.trade_date in
    let all = h d in
    let gone : count_by (λ b. b.trade_date == d) l ≡ 0 = omega (arith, rw (==_refl d) at all) in
    (All-before bar l s.0 gone, before-IsSorted l (λ k. omega (arith, h k)) s.1)

by_trade_date-IsOrder : IsOrder by_trade_date
by_trade_date-IsOrder = record { trans = λ x y z h k. ground arith; total = λ x y h. ground arith }

-- A batch is accepted exactly if no date stands on two of its bars and each bar is valid for the
-- symbol.
pub validate-accepted :
    (bars : List DailyBar) (symbol : List ℕ)
    → ((out : List DailyBar) × (validate_daily_bar_batch bars symbol ≡ accepted out))
      ↔ (IsDistinct bars × All (IsValidBar symbol) bars)
unfolding validate_daily_bar_batch
validate-accepted bars symbol = (to, back)
  where
    to :
        ((out : List DailyBar) × (validate_daily_bar_batch bars symbol ≡ accepted out))
        → IsDistinct bars × All (IsValidBar symbol) bars
    to (out, h) = elim (Bool-cases (length (dates_of bars) == length (distinct (dates_of bars)))) [
      | inr twice ↦ absurd (cc (rw (validate_daily_bar_batch, twice) at h))
      | inl once ↦ elim (Option-cases (check_bars symbol bars)) [
        | inr (e, raised) ↦ absurd (cc (rw (validate_daily_bar_batch, once, raised) at h))
        | inl fine ↦ (
          distinct-IsDistinct bars ((==_iff _ _).0 once),
          (check_bars-IsValidBar symbol bars).0 fine,
        )
      ]
    ]

    back :
        IsDistinct bars × All (IsValidBar symbol) bars
        → (out : List DailyBar) × (validate_daily_bar_batch bars symbol ≡ accepted out)
    back (once, all) = (
      sort_by by_trade_date bars,
      rw ((==_iff _ _).1 (IsDistinct-distinct bars once), (check_bars-IsValidBar symbol bars).1 all)
          refl,
    )

accepted_out :
    (bars out : List DailyBar) (symbol : List ℕ)
    → validate_daily_bar_batch bars symbol ≡ accepted out
    → out ≡ sort_by by_trade_date bars
unfolding validate_daily_bar_batch
accepted_out bars out symbol h = ground arith

-- An accepted batch comes back as its own bars, each as often, in the strict order of their dates.
pub validate-IsSorted :
    (bars out : List DailyBar) (symbol : List ℕ)
    → validate_daily_bar_batch bars symbol ≡ accepted out
    → IsSorted before out
      × (length out ≡ length bars)
      × ((p : DailyBar → Bool) → count_by p out ≡ count_by p bars)
validate-IsSorted bars out symbol h =
    let (once, all) = (validate-accepted bars symbol).0 (out, h) in
    let same = accepted_out bars out symbol h in
    rw same (
      before-IsSorted (sort_by by_trade_date bars)
          (λ d.
            omega (arith, count_by-sort_by by_trade_date (λ bar. bar.trade_date == d) bars, once d))
          (sort_by-IsSorted by_trade_date by_trade_date-IsOrder bars),
      length-sort_by by_trade_date bars,
      λ p. count_by-sort_by by_trade_date p bars,
    )
