-- ===== src/Contract/Scope.antt =====
-- internal/contract/path_policy.go: ValidateScopePatterns. filepath.VolumeName depends on the system
-- that the program is built for, and is an argument.
pub mod Parents
use ai_supervisor.Base.{
  ℕ, Bool, true, false, ◌&&◌, ◌||◌, not, List, [], ◌∷◌, map, Result, ok, ◌>>◌, guard, ◌==◌, any,
  all, if◌then◌else◌,
}
use ai_supervisor.Base.Text.{Text, codes, ◌=ᵗ◌, is_empty, trim_space}
use ai_supervisor.Contract.Values.{ValidationError, scope_error}

abbrev pub slash : ℕ
slash = 0x2f

abbrev pub backslash : ℕ
backslash = 0x5c

-- strings.HasPrefix
unfoldable pub has_prefix : Text → Text → Bool
has_prefix s [] = true
has_prefix [] (c ∷ p) = false
has_prefix (b ∷ s) (c ∷ p) = b == c && has_prefix s p

-- `len(s) >= 2 && s[1] == ':'`
unfoldable pub is_drive_qualified : Text → Bool
is_drive_qualified [] = false
is_drive_qualified (b ∷ []) = false
is_drive_qualified (b ∷ c ∷ s) = c == b':'

-- strings.ReplaceAll(s, "\\", "/")
unfoldable pub to_slashes : Text → Text
to_slashes s = map (λ b. if b == backslash then slash else b) s

-- strings.Split(s, "/")
abbrev pub cons_head : ℕ → List Text → List Text
cons_head b [] = (b ∷ []) ∷ []
cons_head b (part ∷ parts) = (b ∷ part) ∷ parts

unfoldable pub split_slash : Text → List Text
split_slash [] = [] ∷ []
split_slash (b ∷ s) = if b == slash then [] ∷ split_slash s else cons_head b (split_slash s)

-- One turn of the loop.
unfoldable pub validate_scope_pattern : (Text → Text) → Text → Result ValidationError (Unit {0})
validate_scope_pattern volume_name pattern_text = do
  guard (pattern_text =ᵗ trim_space pattern_text) scope_error
  guard (not (is_empty pattern_text)) scope_error
  guard (not (has_prefix pattern_text (slash ∷ []) || has_prefix pattern_text (backslash ∷ [])))
      scope_error
  guard (not (is_drive_qualified pattern_text)) scope_error
  guard (is_empty (volume_name pattern_text)) scope_error
  guard
      (not (
        has_prefix pattern_text (backslash ∷ backslash ∷ [])
        || has_prefix pattern_text (slash ∷ slash ∷ [])))
      scope_error
  guard
      (not (
        has_prefix pattern_text (backslash ∷ backslash ∷ b'?' ∷ backslash ∷ [])
        || has_prefix pattern_text (backslash ∷ b'?' ∷ b'?' ∷ backslash ∷ [])))
      scope_error
  guard (not (any (λ part. part =ᵗ codes "..") (split_slash (to_slashes pattern_text)))) scope_error

unfoldable pub validate_scope_patterns :
    (Text → Text) → List Text → Result ValidationError (Unit {0})
unfolding validate_scope_pattern
validate_scope_patterns volume_name [] = ok tt
validate_scope_patterns volume_name (p ∷ patterns) =
    validate_scope_pattern volume_name p >> validate_scope_patterns volume_name patterns
