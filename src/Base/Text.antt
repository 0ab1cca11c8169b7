-- ===== src/Base/Text.antt =====
-- Go strings as lists of their bytes, and the functions of package `strings` that the code calls.
use Prim.Native.Nat.{ℕ, zero, suc, ◌-◌}
use Prim.Native.Char.{code}
use Prim.Native.String.{String}
use mathlib.Core.Path.{◌≡◌, refl}
use mathlib.Core.Logic.{◌↔◌}
use mathlib.Core.Bool.{Bool, true, false, ◌&&◌, ◌||◌}
use mathlib.Core.Option.{Option, none, some}
use mathlib.Core.List.{List, [], ◌∷◌, reverse}
use native.Mathlib.Omega.{arith}
use ai_supervisor.Base.Tests.{leb, ltb, ◌==◌, if◌then◌else◌}

abbrev pub Text : Type 0
Text = List ℕ

-- The bytes of an ASCII literal.
abbrev pub codes : String → Text
codes String.[] = []
codes (String.◌∷◌ c s) = code c ∷ codes s

-- `==` on strings. It is shut: proofs use its law.
infix 50 ◌=ᵗ◌
unfoldable pub ◌=ᵗ◌ : Text → Text → Bool
[] =ᵗ [] = true
[] =ᵗ (y ∷ ys) = false
(x ∷ xs) =ᵗ [] = false
(x ∷ xs) =ᵗ (y ∷ ys) = (x == y) && (xs =ᵗ ys)

text_eq_sound : (s t : Text) → (s =ᵗ t) ≡ true → s ≡ t
unfolding ◌=ᵗ◌
text_eq_sound [] [] h = refl
text_eq_sound [] (y ∷ ys) h = cc
text_eq_sound (x ∷ xs) [] h = cc
text_eq_sound (x ∷ xs) (y ∷ ys) h = ground (arith, text_eq_sound xs ys)

pub text_eq_refl : (s : Text) → (s =ᵗ s) ≡ true
unfolding ◌=ᵗ◌
text_eq_refl [] = refl
text_eq_refl (x ∷ xs) = ground (arith, text_eq_refl xs)

text_eq_complete : (s t : Text) → s ≡ t → (s =ᵗ t) ≡ true
text_eq_complete s t e = rw e (text_eq_refl t)

pub text_eq_iff : (s t : Text) → ((s =ᵗ t) ≡ true) ↔ (s ≡ t)
text_eq_iff s t = (text_eq_sound s t, text_eq_complete s t)

-- A nullable column or pointer compared with a value.
abbrev pub has_text : Option Text → Text → Bool
has_text none t = false
has_text (some s) t = s =ᵗ t

-- `s == ""`
abbrev pub is_empty : Text → Bool
is_empty [] = true
is_empty (x ∷ s) = false

-- The width in bytes of the space that begins a text, 0 if none does: unicode.IsSpace on the rune
-- that UTF-8 spells there. `wide_space` takes the three bytes of U+1680, U+2000 to U+200A, U+2028,
-- U+2029, U+202F, U+205F and U+3000; U+0085 and U+00A0 have two bytes.
abbrev ascii_space : ℕ → Bool
ascii_space b = (leb 9 b && leb b 13) || b == 32

abbrev latin_space : ℕ → ℕ → Bool
latin_space b c = b == 0xc2 && (c == 0x85 || c == 0xa0)

abbrev wide_space : ℕ → ℕ → ℕ → Bool
wide_space b c d =
    (b == 0xe1 && c == 0x9a && d == 0x80)
    || (b == 0xe2
        && c == 0x80
        && ((leb 0x80 d && leb d 0x8a) || d == 0xa8 || d == 0xa9 || d == 0xaf))
    || (b == 0xe2 && c == 0x81 && d == 0x9f)
    || (b == 0xe3 && c == 0x80 && d == 0x80)

unfoldable pub leading_space : Text → ℕ
leading_space (b ∷ c ∷ d ∷ s) =
    if ascii_space b then 1 else if latin_space b c then 2 else if wide_space b c d then 3 else 0
leading_space (b ∷ c ∷ []) = if ascii_space b then 1 else if latin_space b c then 2 else 0
leading_space (b ∷ []) = if ascii_space b then 1 else 0
leading_space [] = 0

-- The same at the end of a text, whose bytes are given backwards.
unfoldable pub trailing_space : Text → ℕ
trailing_space (d ∷ c ∷ b ∷ s) =
    if ascii_space d then 1 else if latin_space c d then 2 else if wide_space b c d then 3 else 0
trailing_space (d ∷ c ∷ []) = if ascii_space d then 1 else if latin_space c d then 2 else 0
trailing_space (d ∷ []) = if ascii_space d then 1 else 0
trailing_space [] = 0

-- Drop `skip` bytes, then spaces as long as there are some.
unfoldable pub trim_by : (Text → ℕ) → ℕ → Text → Text
trim_by width skip [] = []
trim_by width (suc skip) (b ∷ s) = trim_by width skip s
trim_by width zero (b ∷ s) =
    let rest = trim_by width (width (b ∷ s) - 1) s in if width (b ∷ s) == 0 then b ∷ s else rest

-- strings.TrimSpace
unfoldable pub trim_space : Text → Text
unfolding trim_by leading_space trailing_space
trim_space s = reverse (trim_by trailing_space 0 (reverse (trim_by leading_space 0 s)))

-- `strings.TrimSpace(s) == ""`
unfoldable pub is_blank : Text → Bool
unfolding trim_space
is_blank s = is_empty (trim_space s)

-- The order of texts by their bytes, as SQLite's ORDER BY.
unfoldable pub text_leb : Text → Text → Bool
text_leb [] t = true
text_leb (x ∷ xs) [] = false
text_leb (x ∷ xs) (y ∷ ys) = ltb x y || (x == y && text_leb xs ys)
