-- ===== src/CorporateEvents/Classify/Outcome.antt =====
-- A title is classified exactly if no exclusion applies and the rules that match it agree on the
-- family; the first of them then gives the event.
use zhiniu.Prelude.{
  ℕ, ◌≤◌, true, false, ◌≡◌, ◌≢◌, ◌↔◌, refl, sym, ap, subst, inl, inr, none, some, List, [], ◌∷◌,
  arith, Bool-cases, any_by, find, length, ltb, All, ltb→ge,
}
use zhiniu.CorporateEvents.Models.{EventFamily, classified, family_eq}
use zhiniu.CorporateEvents.Rules.{ClassificationRule, rules}
use zhiniu.CorporateEvents.Classify.{
  mentions, excluded_terms, is_incentive_cancellation, matching_rules, families, classify_matches,
  classify_by, classify_title,
}

family_eq_sound : (a b : EventFamily) → family_eq a b ≡ true → a ≡ b
family_eq_sound a b h = ground arith

family_eq_refl : (a : EventFamily) → family_eq a a ≡ true
family_eq_refl a = ground arith

-- All rules of a list have one family.
abbrev SameFamily : EventFamily → List ClassificationRule → Type 0
SameFamily f l = All (λ s. s.family ≡ f) l

families-nil : (l : List ClassificationRule) → families l ≡ [] → l ≡ []
unfolding families
families-nil [] h = refl
families-nil (r ∷ rest) h = elim (Bool-cases (any_by (family_eq r.family) (families rest))) [
  | inl known ↦
      let e : families rest ≡ [] = rw known at h in
      ground (arith, subst (λ l. any_by (family_eq r.family) l ≡ true) e known)
  | inr new ↦ ground arith
]

families-single :
    (l : List ClassificationRule) (f : EventFamily) → families l ≡ f ∷ [] → SameFamily f l
unfolding families
families-single [] f h = tt
families-single (r ∷ rest) f h = elim (Bool-cases (any_by (family_eq r.family) (families rest))) [
  | inl known ↦
      let e : families rest ≡ f ∷ [] = rw known at h in
      (
        family_eq_sound r.family f
            (ground (arith, subst (λ l. any_by (family_eq r.family) l ≡ true) e known)),
        families-single rest f e,
      )
  | inr new ↦
      let e : families rest ≡ [] = ground (arith, h, new) in
      (ground (arith, h, new), rw (families-nil rest e) tt)
]

single-families :
    (r : ClassificationRule) (rest : List ClassificationRule) (f : EventFamily)
    → SameFamily f (r ∷ rest)
    → families (r ∷ rest) ≡ f ∷ []
unfolding families
single-families r [] f all = ap (λ g. g ∷ []) all.0
single-families r (s ∷ rest) f all =
    let e = single-families s rest f all.1 in
    let known : any_by (family_eq r.family) (families (s ∷ rest)) ≡ true =
      rw (e, all.0, family_eq_refl f) in
    rw known e

families-length :
    (l : List ClassificationRule)
    → length (families l) ≤ 1
    → l ≢ []
    → (f : EventFamily) × (families l ≡ f ∷ [])
families-length l h ne = go (families l) refl h
  where
    go :
        (fs : List EventFamily)
        → families l ≡ fs
        → length fs ≤ 1
        → (f : EventFamily) × (fs ≡ f ∷ [])
    go [] e k = absurd (ne (families-nil l e))
    go (f ∷ []) e k = (f, refl)
    go (f ∷ g ∷ fs) e k = absurd (omega arith)

-- The matching rules are empty, or begin with the first rule that matches.
matching-none :
    (title : List ℕ) (table : List ClassificationRule)
    → matching_rules title table ≡ []
    → find (λ r. mentions title r.terms) table ≡ none
unfolding matching_rules
matching-none title [] h = refl
matching-none title (r ∷ table) h = elim (Bool-cases (mentions title r.terms)) [
  | inl hit ↦ ground arith
  | inr miss ↦ rw miss (matching-none title table (rw miss at h))
]

matching-first :
    (title : List ℕ) (table : List ClassificationRule) (r : ClassificationRule)
    (rest : List ClassificationRule)
    → matching_rules title table ≡ r ∷ rest
    → find (λ s. mentions title s.terms) table ≡ some r
unfolding matching_rules
matching-first title [] r rest h = ground arith
matching-first title (s ∷ table) r rest h = elim (Bool-cases (mentions title s.terms)) [
  | inl hit ↦ ground arith
  | inr miss ↦ rw miss (matching-first title table r rest (rw miss at h))
]

-- A property of the rules that match.
abbrev Matching : List ℕ → (ClassificationRule → Type 0) → List ClassificationRule → Type 0
Matching title P table = All (λ s. mentions title s.terms ≡ true → P s) table

pub Matching-All :
    (title : List ℕ) (P : ClassificationRule → Type 0) (table : List ClassificationRule)
    → All P (matching_rules title table) ↔ Matching title P table
unfolding matching_rules
Matching-All title P [] = (λ h. tt, λ h. tt)
Matching-All title P (s ∷ table) = elim (Bool-cases (mentions title s.terms)) [
  | inl hit ↦
      let (to, back) = Matching-All title P table in
      rw hit (λ h. (λ e. h.0, to h.1), λ h. (h.0 refl, back h.1))
  | inr miss ↦
      let (to, back) = Matching-All title P table in rw miss (λ h. (λ e. cc e, to h), λ h. back h.1)
]

-- No two rules of a list differ in family.
matches-classified :
    (r : ClassificationRule) (rest : List ClassificationRule)
    → SameFamily r.family (r ∷ rest)
    → let c = classify_matches (r ∷ rest) in
      (c.status ≡ classified)
      × (c.event_family ≡ some r.family)
      × (c.event_type ≡ some r.event_type)
unfolding classify_matches
matches-classified r rest all = rw (single-families r rest r.family all) (refl, refl, refl)

classified-matches :
    (r : ClassificationRule) (rest : List ClassificationRule)
    → (classify_matches (r ∷ rest)).status ≡ classified
    → SameFamily r.family (r ∷ rest)
unfolding classify_matches
classified-matches r rest h = elim (Bool-cases (ltb 1 (length (families (r ∷ rest))))) [
  | inl many ↦ ground (arith, h, many)
  | inr one ↦
      let (f, e) = families-length (r ∷ rest) (ltb→ge 1 _ one) (λ k. cc k) in
      let all = families-single (r ∷ rest) f e in
      subst (λ g. SameFamily g (r ∷ rest)) (sym all.0) all
]

-- The rule that decides about a title, if any: the first one that matches, where no exclusion
-- applies and every other rule that matches has its family.
abbrev pub Decides : List ClassificationRule → List ℕ → ClassificationRule → Type 0
Decides table title r =
    (mentions title excluded_terms ≡ false)
    × (is_incentive_cancellation title ≡ false)
    × (find (λ s. mentions title s.terms) table ≡ some r)
    × Matching title (λ s. s.family ≡ r.family) table

Decides-classified :
    (table : List ClassificationRule) (title : List ℕ) (r : ClassificationRule)
    → Decides table title r
    → let c = classify_by table title in
      (c.status ≡ classified)
      × (c.event_family ≡ some r.family)
      × (c.event_type ≡ some r.event_type)
unfolding classify_by
Decides-classified table title r (plain, kept, first, same) = go (matching_rules title table) refl
  where
    go :
        (l : List ClassificationRule)
        → matching_rules title table ≡ l
        → let c = classify_by table title in
          (c.status ≡ classified)
          × (c.event_family ≡ some r.family)
          × (c.event_type ≡ some r.event_type)
    go [] e = absurd (ground (arith, matching-none title table e, first))
    go (s ∷ rest) e =
        let found : r ≡ s = ground (arith, matching-first title table s rest e, first) in
        let (to, back) = Matching-All title (λ t. t.family ≡ r.family) table in
        let all : SameFamily r.family (s ∷ rest) = subst (SameFamily r.family) e (back same) in
        rw (plain, kept, e)
          (subst
            (λ t.
              (classify_matches (s ∷ rest)).status ≡ classified
              × ((classify_matches (s ∷ rest)).event_family ≡ some t.family)
              × ((classify_matches (s ∷ rest)).event_type ≡ some t.event_type))
            (sym found)
            (matches-classified s rest (subst (λ t. SameFamily t.family (s ∷ rest)) found all)))

classified-Decides :
    (table : List ClassificationRule) (title : List ℕ)
    → (classify_by table title).status ≡ classified
    → (r : ClassificationRule) × Decides table title r
unfolding classify_by classify_matches
classified-Decides table title h = elim (Bool-cases (mentions title excluded_terms)) [
  | inl out ↦ ground (arith, h, out)
  | inr plain ↦ elim (Bool-cases (is_incentive_cancellation title)) [
    | inl out ↦ ground (arith, h, out, plain)
    | inr kept ↦ go plain kept (matching_rules title table) refl (rw (plain, kept) at h)
  ]
]
  where
    go :
        mentions title excluded_terms ≡ false
        → is_incentive_cancellation title ≡ false
        → (l : List ClassificationRule) → matching_rules title table ≡ l
        → (classify_matches (matching_rules title table)).status ≡ classified
        → (r : ClassificationRule) × Decides table title r
    go plain kept [] e k = absurd (ground (arith, rw e at k))
    go plain kept (r ∷ rest) e k =
        let all = classified-matches r rest (rw e at k) in
        let (to, back) = Matching-All title (λ t. t.family ≡ r.family) table in
        (
          r,
          (
            plain,
            kept,
            matching-first title table r rest e,
            to (subst (SameFamily r.family) (sym e) all),
          ),
        )

-- A title is classified exactly if some rule decides about it: no exclusion applies, the rule is
-- the first that matches, and all that match have its family.
pub classify_title_lem :
    (title : List ℕ)
    → ((classify_title title).status ≡ classified)
      ↔ ((r : ClassificationRule) × Decides rules title r)
unfolding classify_title
classify_title_lem title =
    (classified-Decides rules title, λ d. (Decides-classified rules title d.0 d.1).0)

-- The event of a title is the one that the rule names which decides about it.
pub classify_title_event :
    (title : List ℕ) (r : ClassificationRule)
    → Decides rules title r
    → ((classify_title title).event_family ≡ some r.family)
      × ((classify_title title).event_type ≡ some r.event_type)
unfolding classify_title
classify_title_event title r d =
    let (status, family, event) = Decides-classified rules title r d in (family, event)
