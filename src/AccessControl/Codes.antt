-- ===== src/AccessControl/Codes.antt =====
-- access_control/codes.py. Texts are ASCII code points; `secrets.choice` and `hmac` are arguments.
pub mod RoundTrip
use mathlib.Core.Option
use zhiniu.Prelude.{
  ℕ, zero, suc, ◌+◌, ◌-◌, Bool, true, false, not, ◌&&◌, ◌||◌, Option, none, some, List, [], ◌∷◌,
  ◌++◌, map, codes, starts_with, length, take, drop, filter_by, any_by, all_by, leb, ◌==◌,
  if◌then◌else◌,
}

-- CODE_ALPHABET
abbrev pub code_alphabet : List ℕ
code_alphabet = codes "ABCDEFGHJKLMNPQRSTUVWXYZ23456789"

abbrev pub invitation_code_characters : ℕ
invitation_code_characters = 8

abbrev pub legacy_invitation_code_characters : ℕ
legacy_invitation_code_characters = 26

abbrev pub activation_code_characters : ℕ
activation_code_characters = 26

-- CodeDomain
pub data CodeDomain : Type 0 where
  inv act : CodeDomain

abbrev pub domain_text : CodeDomain → List ℕ
domain_text inv = codes "INV"
domain_text act = codes "ACT"

abbrev pub code_length : CodeDomain → ℕ
code_length inv = invitation_code_characters
code_length act = activation_code_characters

abbrev dash : ℕ
dash = b'-'

-- `"-".join(body[index : index + 4] for index in range(0, len(body), 4))`, by the characters of
-- the current group that are still to come
unfoldable pub groups_of_four : ℕ → List ℕ → List ℕ
groups_of_four room [] = []
groups_of_four zero (c ∷ cs) = dash ∷ c ∷ groups_of_four 3 cs
groups_of_four (suc room) (c ∷ cs) = c ∷ groups_of_four room cs

-- `generate_code`, on the characters that `choice` has drawn
unfoldable pub generate_code : CodeDomain → List ℕ → List ℕ
unfolding groups_of_four
generate_code inv body = groups_of_four 4 body
generate_code act body = domain_text act ++ dash ∷ groups_of_four 4 body

abbrev pub to_upper : ℕ → ℕ
to_upper c = if leb b'a' c && leb c b'z' then c - 32 else c

abbrev pub is_digit : ℕ → Bool
is_digit c = leb b'0' c && leb c b'9'

abbrev pub is_alnum : ℕ → Bool
is_alnum c = is_digit c || (leb b'A' c && leb c b'Z') || (leb b'a' c && leb c b'z')

abbrev pub is_space : ℕ → Bool
is_space c = (leb 9 c && leb c 13) || (leb 28 c && leb c 32)

-- `str.lstrip`, and `str.rstrip` as the removal of a blank tail
abbrev pub strip_left : List ℕ → List ℕ
strip_left [] = []
strip_left (c ∷ cs) = if is_space c then strip_left cs else c ∷ cs

abbrev pub strip_right : List ℕ → List ℕ
strip_right [] = []
strip_right (c ∷ cs) = if is_space c && all_by is_space cs then [] else c ∷ strip_right cs

-- `"".join(character for character in value.upper().strip() if character.isalnum())`
unfoldable pub compact_code : List ℕ → List ℕ
compact_code value = filter_by is_alnum (strip_right (strip_left (map to_upper value)))

abbrev pub in_alphabet : ℕ → Bool
in_alphabet c = any_by (λ a. c == a) code_alphabet

-- The body of a compact text, or none where `canonicalize_code` raises on its length or prefix.
unfoldable pub code_body : CodeDomain → List ℕ → Option (List ℕ)
code_body inv compact =
    let n = length compact in
    let prefixed =
      (n == 3 + invitation_code_characters) || (n == 3 + legacy_invitation_code_characters) in
    let body =
      if starts_with (domain_text inv) compact && prefixed then drop 3 compact else compact in
    let m = length body in
    if (m == invitation_code_characters) || (m == legacy_invitation_code_characters)
    then some body
    else none
code_body act compact =
    if not (starts_with (domain_text act) compact)
      || not (length compact == 3 + activation_code_characters)
    then none
    else some (drop 3 compact)

-- The check of the characters, and the domain in front.
abbrev pub checked_body : CodeDomain → Option (List ℕ) → Option (List ℕ)
checked_body domain none = none
checked_body domain (some body) =
    if all_by in_alphabet body then some (domain_text domain ++ body) else none

-- `canonicalize_code`; none is the `ValueError`
unfoldable pub canonicalize_code : List ℕ → CodeDomain → Option (List ℕ)
canonicalize_code value domain = checked_body domain (code_body domain (compact_code value))

-- `code_hmac`, over the keyed digest of the standard library
unfoldable pub code_hmac : (List ℕ → List ℕ → ℕ) → List ℕ → CodeDomain → List ℕ → Option ℕ
code_hmac hmac value domain secret =
    Option.map (λ canonical. hmac secret (domain_text domain ++ b':' ∷ canonical))
      (canonicalize_code value domain)

-- `code_prefix`
unfoldable pub code_prefix : List ℕ → List ℕ
code_prefix value = take 13 value
