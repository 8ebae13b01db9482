-- ===== src/AccessControl/Codes/RoundTrip.antt =====
-- What the canonical form of a code forgets, and that a generated code has one.
use zhiniu.Prelude.{
  ℕ, zero, suc, true, false, ◌≡◌, refl, sym, ap, subst, ◌∙◌, ◌⊎◌, inl, inr, ◌&&◌, some, List, [],
  ◌∷◌, ◌++◌, map, length, filter_by, all_by, arith, Bool-cases, Option-cases,
}
use zhiniu.AccessControl.Codes.{
  CodeDomain, inv, act, domain_text, code_length, groups_of_four, generate_code, to_upper, is_alnum,
  is_space, strip_left, strip_right, compact_code, in_alphabet, code_body, checked_body,
  canonicalize_code, code_hmac,
}

-- A character of the alphabet is an upper-case letter or a digit.
in_alphabet-clean :
    (c : ℕ) → in_alphabet c ≡ true → (to_upper c ≡ c) × (is_alnum c ≡ true) × (is_space c ≡ false)
in_alphabet-clean c h = ground arith

space_not_alnum : (c : ℕ) → is_space c ≡ true → is_alnum c ≡ false
space_not_alnum c h = ground arith

filter-strip_left : (xs : List ℕ) → filter_by is_alnum (strip_left xs) ≡ filter_by is_alnum xs
filter-strip_left [] = refl
filter-strip_left (c ∷ cs) = elim (Bool-cases (is_space c)) [
  | inl blank ↦ rw (blank, space_not_alnum c blank) (filter-strip_left cs)
  | inr solid ↦ rw solid
]

filter-blank : (xs : List ℕ) → all_by is_space xs ≡ true → filter_by is_alnum xs ≡ []
filter-blank [] h = refl
filter-blank (c ∷ cs) h = elim (Bool-cases (is_space c)) [
  | inl blank ↦ rw (space_not_alnum c blank) (filter-blank cs (rw blank at h))
  | inr solid ↦ cc (subst (λ b. (b && all_by is_space cs) ≡ true) solid h)
]

filter-strip_right : (xs : List ℕ) → filter_by is_alnum (strip_right xs) ≡ filter_by is_alnum xs
filter-strip_right [] = refl
filter-strip_right (c ∷ cs) = elim (Bool-cases (is_space c && all_by is_space cs)) [
  | inl blank ↦ rw blank (sym (filter-blank (c ∷ cs) blank))
  | inr solid ↦ rw solid (rw (filter-strip_right cs))
]

-- The compact form depends on the letters and digits alone.
pub compact_code-eq-filter :
    (value : List ℕ) → compact_code value ≡ filter_by is_alnum (map to_upper value)
unfolding compact_code
compact_code-eq-filter value =
    filter-strip_right (strip_left (map to_upper value)) ∙ filter-strip_left (map to_upper value)

all_by-head :
    (c : ℕ) (cs : List ℕ)
    → all_by in_alphabet (c ∷ cs) ≡ true
    → (in_alphabet c ≡ true) × (all_by in_alphabet cs ≡ true)
all_by-head c cs h = elim (Bool-cases (in_alphabet c)) [
  | inl good ↦ (good, rw good at h)
  | inr bad ↦ cc (subst (λ b. (b && all_by in_alphabet cs) ≡ true) bad h)
]

keep_clean :
    (c : ℕ) (cs : List ℕ)
    → in_alphabet c ≡ true
    → filter_by is_alnum (map to_upper (c ∷ cs)) ≡ c ∷ filter_by is_alnum (map to_upper cs)
keep_clean c cs h = let (up, alnum, _) = in_alphabet-clean c h in rw (up, alnum)

clean_text :
    (xs : List ℕ) → all_by in_alphabet xs ≡ true → filter_by is_alnum (map to_upper xs) ≡ xs
clean_text [] h = refl
clean_text (c ∷ cs) h =
    let (good, rest) = all_by-head c cs h in
    keep_clean c cs good ∙ ap (λ t. c ∷ t) (clean_text cs rest)

clean_groups :
    (room : ℕ) (xs : List ℕ)
    → all_by in_alphabet xs ≡ true
    → filter_by is_alnum (map to_upper (groups_of_four room xs)) ≡ xs
unfolding groups_of_four
clean_groups room [] h = refl
clean_groups zero (c ∷ cs) h =
    let (good, rest) = all_by-head c cs h in
    keep_clean c (groups_of_four 3 cs) good ∙ ap (λ t. c ∷ t) (clean_groups 3 cs rest)
clean_groups (suc room) (c ∷ cs) h =
    let (good, rest) = all_by-head c cs h in
    keep_clean c (groups_of_four room cs) good ∙ ap (λ t. c ∷ t) (clean_groups room cs rest)

body_of_eight : (xs : List ℕ) → length xs ≡ 8 → code_body inv xs ≡ some xs
unfolding code_body
body_of_eight xs h = ground arith

body_of_act : (xs : List ℕ) → length xs ≡ 26 → code_body act (domain_text act ++ xs) ≡ some xs
unfolding code_body
body_of_act xs h = ground arith

clean_generated :
    (domain : CodeDomain) (body : List ℕ)
    → all_by in_alphabet body ≡ true
    → compact_code (generate_code domain body)
      ≡ elim domain [ inv ↦ body | act ↦ domain_text act ++ body ]
unfolding generate_code
clean_generated inv body h = compact_code-eq-filter (groups_of_four 4 body) ∙ clean_groups 4 body h
clean_generated act body h =
    compact_code-eq-filter (domain_text act ++ b'-' ∷ groups_of_four 4 body)
    ∙ ap (λ t. domain_text act ++ t) (clean_groups 4 body h)

-- A generated code, whatever characters of the alphabet were drawn for it, is accepted, and its
-- canonical form is the name of the domain and then those characters.
pub canonicalize-generate :
    (domain : CodeDomain) (body : List ℕ)
    → length body ≡ code_length domain
    → all_by in_alphabet body ≡ true
    → canonicalize_code (generate_code domain body) domain ≡ some (domain_text domain ++ body)
unfolding canonicalize_code
canonicalize-generate inv body n h =
    ap (λ t. checked_body inv (code_body inv t)) (clean_generated inv body h)
    ∙ ap (checked_body inv) (body_of_eight body n)
    ∙ rw h
canonicalize-generate act body n h =
    ap (λ t. checked_body act (code_body act t)) (clean_generated act body h)
    ∙ ap (checked_body act) (body_of_act body n)
    ∙ rw h

-- Two texts with the same letters and digits, up to case, have the same canonical form.
pub canonicalize_by_alnum :
    (value other : List ℕ) (domain : CodeDomain)
    → filter_by is_alnum (map to_upper value) ≡ filter_by is_alnum (map to_upper other)
    → canonicalize_code value domain ≡ canonicalize_code other domain
unfolding canonicalize_code
canonicalize_by_alnum value other domain h =
    ap (λ t. checked_body domain (code_body domain t))
      (compact_code-eq-filter value ∙ h ∙ sym (compact_code-eq-filter other))

-- The lengths that a body may have.
abbrev pub IsBody : CodeDomain → List ℕ → Type 0
IsBody inv body = (length body ≡ 8) ⊎ (length body ≡ 26)
IsBody act body = length body ≡ 26

code_body-IsBody :
    (domain : CodeDomain) (compact body : List ℕ)
    → code_body domain compact ≡ some body
    → IsBody domain body
unfolding code_body
code_body-IsBody inv compact body h = ground arith
code_body-IsBody act (a ∷ b ∷ c ∷ rest) body h = ground arith
code_body-IsBody act _ body h = ground arith

-- An accepted text yields the domain's name and a body of an allowed length over the alphabet.
pub canonicalize-IsBody :
    (domain : CodeDomain) (value canonical : List ℕ)
    → canonicalize_code value domain ≡ some canonical
    → (body : List ℕ) × (canonical ≡ domain_text domain ++ body)
      × IsBody domain body
      × (all_by in_alphabet body ≡ true)
unfolding canonicalize_code
canonicalize-IsBody domain value canonical h =
    elim (Option-cases (code_body domain (compact_code value))) [
      | inl refused ↦ cc (subst (λ o. checked_body domain o ≡ some canonical) refused h)
      | inr (body, e) ↦
          let g = subst (λ o. checked_body domain o ≡ some canonical) e h in
          (
            body,
            ground (arith, g),
            code_body-IsBody domain (compact_code value) body e,
            ground (arith, g),
          )
    ]

canonical-code_body :
    (domain : CodeDomain) (body : List ℕ)
    → IsBody domain body
    → code_body domain (domain_text domain ++ body) ≡ some body
unfolding code_body
canonical-code_body inv body h = ground arith
canonical-code_body act body h = ground arith

compact-canonical :
    (domain : CodeDomain) (body : List ℕ)
    → all_by in_alphabet body ≡ true
    → compact_code (domain_text domain ++ body) ≡ domain_text domain ++ body
compact-canonical inv body h =
    compact_code-eq-filter (domain_text inv ++ body)
    ∙ ap (λ t. domain_text inv ++ t) (clean_text body h)
compact-canonical act body h =
    compact_code-eq-filter (domain_text act ++ body)
    ∙ ap (λ t. domain_text act ++ t) (clean_text body h)

-- A canonical form is its own canonical form.
pub canonicalize_idempotent :
    (domain : CodeDomain) (value canonical : List ℕ)
    → canonicalize_code value domain ≡ some canonical
    → canonicalize_code canonical domain ≡ some canonical
unfolding canonicalize_code
canonicalize_idempotent domain value canonical h =
    let (body, e, fits, good) = canonicalize-IsBody domain value canonical h in
    rw e (
      ap (λ t. checked_body domain (code_body domain t)) (compact-canonical domain body good)
      ∙ ap (checked_body domain) (canonical-code_body domain body fits)
      ∙ rw good)

-- The digest of a generated code.
pub code_hmac-generate :
    (hmac : List ℕ → List ℕ → ℕ) (domain : CodeDomain) (body secret : List ℕ)
    → length body ≡ code_length domain
    → all_by in_alphabet body ≡ true
    → code_hmac hmac (generate_code domain body) domain secret
      ≡ some (hmac secret (domain_text domain ++ b':' ∷ (domain_text domain ++ body)))
unfolding code_hmac
code_hmac-generate hmac domain body secret n h = rw (canonicalize-generate domain body n h)
