-- ===== src/Prelude/Text.antt =====
-- Texts as lists of code points, and the operations of Python's `str` that the program uses.
use Prim.Native.Nat.{ℕ}
use Prim.Native.Char.{code}
use Prim.Native.String.{String}
use mathlib.Core.Path.{◌≡◌, refl}
use native.Mathlib.Omega.{arith}
use mathlib.Core.Bool.{Bool, true, false, ◌&&◌, ◌||◌}
use mathlib.Core.List.{List, [], ◌∷◌, map}
use zhiniu.Prelude.Tests.{◌==◌, leb, if◌then◌else◌}

-- The code points of a literal. `String` has its own `[]` and `∷`.
abbrev pub codes : String → List ℕ
codes String.[] = []
codes (String.◌∷◌ c s) = code c ∷ codes s

-- `a == b` on texts
abbrev pub text_eq : List ℕ → List ℕ → Bool
text_eq [] [] = true
text_eq [] (y ∷ ys) = false
text_eq (x ∷ xs) [] = false
text_eq (x ∷ xs) (y ∷ ys) = (x == y) && text_eq xs ys

-- `text.startswith(prefix)`
abbrev pub starts_with : List ℕ → List ℕ → Bool
starts_with [] text = true
starts_with (p ∷ ps) [] = false
starts_with (p ∷ ps) (c ∷ cs) = (p == c) && starts_with ps cs

-- `term in text`
abbrev pub is_infix : List ℕ → List ℕ → Bool
is_infix term [] = starts_with term []
is_infix term (c ∷ cs) = starts_with term (c ∷ cs) || is_infix term cs

-- `c.isspace()`
abbrev is_space : ℕ → Bool
is_space c =
    (leb 9 c && leb c 13)
    || (leb 28 c && leb c 32)
    || (c == 133)
    || (c == 160)
    || (c == 5760)
    || (leb 8192 c && leb c 8202)
    || (c == 8232)
    || (c == 8233)
    || (c == 8239)
    || (c == 8287)
    || (c == 12288)

abbrev lstrip : List ℕ → List ℕ
lstrip [] = []
lstrip (c ∷ cs) = let rest = lstrip cs in if is_space c then rest else c ∷ cs

abbrev rstrip : List ℕ → List ℕ
rstrip [] = []
rstrip (c ∷ cs) = elim (rstrip cs) [
  | [] ↦ if is_space c then [] else c ∷ []
  | ◌∷◌ d ds ↦ c ∷ d ∷ ds
]

-- `text.strip()`
abbrev pub strip : List ℕ → List ℕ
strip text = rstrip (lstrip text)

-- `text.replace("/", "-")`
abbrev pub dashes : List ℕ → List ℕ
dashes value = map (λ c. if c == 47 then 45 else c) value

pub text_eq-eq : (a b : List ℕ) → text_eq a b ≡ true → a ≡ b
text_eq-eq [] [] h = refl
text_eq-eq [] (y ∷ ys) h = ground arith
text_eq-eq (x ∷ xs) [] h = ground arith
text_eq-eq (x ∷ xs) (y ∷ ys) h = ground (arith, text_eq-eq xs ys)

pub text_eq_refl : (a : List ℕ) → text_eq a a ≡ true
text_eq_refl [] = refl
text_eq_refl (x ∷ xs) = ground (arith, text_eq_refl xs)
