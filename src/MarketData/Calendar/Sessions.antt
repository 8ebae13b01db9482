-- ===== src/MarketData/Calendar/Sessions.antt =====
-- The sessions that come out of the normaliser.
use zhiniu.Prelude.{
  if◌then◌else◌, ℕ, ◌+◌, ◌*◌, ◌≤◌, ◌≡◌, refl, sym, inl, inr, ◌⊎◌, Bool, true, false, ◌&&◌, ◌||◌,
  none, some, List, [], ◌∷◌, arith, Bool-cases, All, All-impl, count_by, ltb, ◌==◌, sort_by,
  IsSorted, IsOrder, sort_by-IsSorted, All-sort_by, count_by-sort_by,
}
use zhiniu.MarketData.Calendar.{
  Exchange, exchange_index, DataNormalizationError, RawTradingSession, TradingSession, Library,
  Result, err, ok, or_raw, parse_date, parse_bool, has_identity, was_seen, new_session, normalize,
  by_identity, sessions,
}

Result-cases {ℓ} :
    {A : Type ℓ} (r : Result A)
    → ((e : DataNormalizationError) × (r ≡ err e)) ⊎ ((a : A) × (r ≡ ok a))
Result-cases (err e) = inl (e, refl)
Result-cases (ok a) = inr (a, refl)

-- The facts about one session that the loop has established.
pub record IsNormalized (first last : ℕ) (s : TradingSession) : Type 0 where
  pub range : (first ≤ s.trade_date) × (s.trade_date ≤ last)
  pub opens :
      s.session_open_at ≡ (if s.is_open then some ((s.trade_date * 1440 + 90) * 60000000) else none)
  pub closes :
      s.session_close_at
      ≡ (if s.is_open then some ((s.trade_date * 1440 + 420) * 60000000) else none)

-- No exchange has two sessions on one day.
abbrev pub IsSingle : List TradingSession → Type 0
IsSingle out = (e : Exchange) (d : ℕ) → count_by (has_identity e d) out ≤ 1

abbrev IsNew : List (Exchange × ℕ) → TradingSession → Type 0
IsNew seen s = was_seen s.exchange s.trade_date seen ≡ false

module _ (lib : Library) (first last ingested : ℕ) where
  -- What one turn of the loop did.
  abbrev Turn :
      List (Exchange × ℕ)
      → RawTradingSession
      → List RawTradingSession
      → List TradingSession
      → Type 0
  Turn seen row rest out =
      (d : ℕ) × (b : Bool) × (out' : List TradingSession) × (first ≤ d)
      × (d ≤ last)
      × (was_seen row.exchange d seen ≡ false)
      × (normalize lib first last ingested ((row.exchange, d) ∷ seen) rest ≡ ok out')
      × (out ≡ new_session lib row d b ingested ∷ out')

  turn :
      (seen : List (Exchange × ℕ)) (row : RawTradingSession) (rest : List RawTradingSession)
      (out : List TradingSession)
      → normalize lib first last ingested seen (row ∷ rest) ≡ ok out
      → (normalize lib first last ingested seen rest ≡ ok out) ⊎ Turn seen row rest out
  unfolding normalize
  turn seen row rest out h = elim (Result-cases (parse_date lib (or_raw row.trade_date row.date))) [
    | inl (e, bad) ↦ absurd (cc (rw (normalize, bad) at h))
    | inr (d, read) ↦
        let h1 = rw (normalize, read) at h in
        elim (Bool-cases (ltb d first || ltb last d)) [
          | inl outside ↦ inl (rw outside at h1)
          | inr inside ↦
              let h2 = rw inside at h1 in
              elim (Bool-cases (was_seen row.exchange d seen)) [
                | inl twice ↦ absurd (cc (rw twice at h2))
                | inr new ↦
                    let h3 = rw new at h2 in
                    elim (Result-cases (parse_bool lib row.is_open)) [
                      | inl (e, bad) ↦ absurd (cc (rw bad at h3))
                      | inr (b, flag) ↦
                          let h4 = rw flag at h3 in
                          elim (Result-cases
                            (normalize lib first last ingested ((row.exchange, d) ∷ seen) rest)) [
                              | inl (e, bad) ↦ absurd (cc (rw bad at h4))
                              | inr (out', more) ↦ inr (
                                d,
                                b,
                                out',
                                ground (arith, inside),
                                ground (arith, inside),
                                new,
                                more,
                                ground (arith, rw more at h4),
                              )
                            ]
                    ]
              ]
        ]
  ]

  new_session-IsNormalized :
      (row : RawTradingSession) (d : ℕ) (b : Bool)
      → first ≤ d
      → d ≤ last
      → IsNormalized first last (new_session lib row d b ingested)
  unfolding new_session
  new_session-IsNormalized row d b low high = record {
    range = (low, high);
    opens = refl;
    closes = refl;
  }

same_exchange : (a b : Exchange) → (exchange_index a == exchange_index b) ≡ true → a ≡ b
same_exchange a b h = ground arith

-- Sessions that are new beside an identity do not have it.
count-IsNew :
    (e : Exchange) (d : ℕ) (seen : List (Exchange × ℕ)) (out : List TradingSession)
    → All (IsNew ((e, d) ∷ seen)) out
    → count_by (has_identity e d) out ≡ 0
count-IsNew e d seen [] h = refl
count-IsNew e d seen (s ∷ out) h = ground (arith, h.0, count-IsNew e d seen out h.1)

module _ (lib : Library) (first last ingested : ℕ) where
  IsSingle-add :
      (row : RawTradingSession) (d : ℕ) (b : Bool) (seen : List (Exchange × ℕ))
      (out : List TradingSession)
      → All (IsNew ((row.exchange, d) ∷ seen)) out
      → IsSingle out
      → IsSingle (new_session lib row d b ingested ∷ out)
  unfolding new_session
  IsSingle-add row d b seen out fresh single e' d' =
      elim (Bool-cases ((exchange_index row.exchange == exchange_index e') && (d == d'))) [
        | inr other ↦ rw other (omega (arith, single e' d'))
        | inl hit ↦
            let same_e = same_exchange row.exchange e' (ground (arith, hit)) in
            let same_d : d ≡ d' = ground (arith, hit) in
            let gone = count-IsNew row.exchange d seen out fresh in
            let gone' : count_by (has_identity e' d') out ≡ 0 = rw (sym same_e, sym same_d) gone in
            rw (hit, gone') (omega arith)
      ]

  normalize_lem :
      (seen : List (Exchange × ℕ)) (rows : List RawTradingSession) (out : List TradingSession)
      → normalize lib first last ingested seen rows ≡ ok out
      → All (IsNormalized first last) out × All (IsNew seen) out × IsSingle out
  unfolding normalize new_session
  normalize_lem seen [] [] h = (tt, tt, λ e d. omega arith)
  normalize_lem seen [] (s ∷ out) h = absurd (cc h)
  normalize_lem seen (row ∷ rest) out h = elim (turn lib first last ingested seen row rest out h) [
    | inl skipped ↦ normalize_lem seen rest out skipped
    | inr (d, b, out', low, high, new, more, e) ↦
        let (fine, fresh, single) = normalize_lem ((row.exchange, d) ∷ seen) rest out' more in
        rw e (
          (new_session-IsNormalized lib first last ingested row d b low high, fine),
          (
            new,
            All-impl (IsNew ((row.exchange, d) ∷ seen)) (IsNew seen) out' (λ s k. ground (arith, k))
                fresh,
          ),
          IsSingle-add row d b seen out' fresh single,
        )
  ]

by_identity-IsOrder : IsOrder by_identity
by_identity-IsOrder = record { trans = λ x y z h k. ground arith; total = λ x y h. ground arith }

-- Strictly earlier in the order of exchanges and dates.
abbrev pub precedes : TradingSession → TradingSession → Bool
precedes a b =
    ltb (exchange_index a.exchange) (exchange_index b.exchange)
    || ((exchange_index a.exchange == exchange_index b.exchange) && ltb a.trade_date b.trade_date)

All-precedes :
    (s : TradingSession) (l : List TradingSession)
    → All (λ t. by_identity s t ≡ true) l
    → count_by (has_identity s.exchange s.trade_date) l ≡ 0
    → All (λ t. precedes s t ≡ true) l
All-precedes s [] h k = tt
All-precedes s (t ∷ l) h k = (ground (arith, h.0, k), All-precedes s l h.1 (ground (arith, k)))

identity_refl : (s : TradingSession) → has_identity s.exchange s.trade_date s ≡ true
identity_refl s = ground arith

precedes-IsSorted :
    (l : List TradingSession) → IsSingle l → IsSorted by_identity l → IsSorted precedes l
precedes-IsSorted [] h s = tt
precedes-IsSorted (x ∷ l) h s =
    let once = h x.exchange x.trade_date in
    let gone : count_by (has_identity x.exchange x.trade_date) l ≡ 0 =
      omega (arith, rw (identity_refl x) at once) in
    (All-precedes x l s.0 gone, precedes-IsSorted l (λ e d. omega (arith, h e d)) s.1)

-- The sessions that are returned lie in the range, one for each exchange and day, in the strict
-- order of exchange and day; those of an open day run from 01:30 to 07:00 UTC, and those of a
-- closed day have no times.
pub sessions_lem :
    (lib : Library) (rows : List RawTradingSession) (first last ingested : ℕ)
    (out : List TradingSession)
    → sessions lib rows first last ingested ≡ ok out
    → All (IsNormalized first last) out × IsSingle out × IsSorted precedes out
unfolding sessions
sessions_lem lib rows first last ingested out h = elim (Bool-cases (ltb last first)) [
  | inl invalid ↦ absurd (cc (rw (sessions, invalid) at h))
  | inr valid ↦ elim (Result-cases (normalize lib first last ingested [] rows)) [
    | inl (e, bad) ↦ absurd (cc (rw (sessions, valid, bad) at h))
    | inr (l, good) ↦
        let (fine, fresh, single) = normalize_lem lib first last ingested [] rows l good in
        let same : out ≡ sort_by by_identity l = ground (arith, rw (sessions, valid, good) at h) in
        let single' : IsSingle (sort_by by_identity l) =
          λ e d. omega (arith, count_by-sort_by by_identity (has_identity e d) l, single e d) in
        rw same (
          All-sort_by by_identity (IsNormalized first last) l fine,
          single',
          precedes-IsSorted (sort_by by_identity l) single'
              (sort_by-IsSorted by_identity by_identity-IsOrder l),
        )
  ]
]
