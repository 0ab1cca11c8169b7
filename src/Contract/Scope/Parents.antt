-- ===== src/Contract/Scope/Parents.antt =====
-- Which scope patterns internal/contract/path_policy.go accepts, read byte by byte.
use ai_supervisor.Base.{
  ℕ, ◌≡◌, refl, sym, ap, ◌∙◌, Bool, true, false, ◌&&◌, ◌||◌, not, List, [], ◌∷◌, ◌>>◌, guard, ◌==◌,
  any, all, arith, Bool-cases, inl, inr,
}
use ai_supervisor.Base.Text.{Text, codes, ◌=ᵗ◌, is_empty, trim_space}
use ai_supervisor.Contract.Values.{scope_error}
use ai_supervisor.Contract.Scope.{
  slash, backslash, has_prefix, is_drive_qualified, to_slashes, cons_head, split_slash,
  validate_scope_pattern, validate_scope_patterns,
}

abbrev pub is_separator : ℕ → Bool
is_separator b = b == slash || b == backslash

-- The text is empty or begins with a separator.
abbrev pub at_boundary : Text → Bool
at_boundary [] = true
at_boundary (b ∷ s) = is_separator b

-- Two periods and then the end or a separator.
abbrev pub starts_with_parent : Text → Bool
starts_with_parent [] = false
starts_with_parent (b ∷ []) = false
starts_with_parent (b ∷ c ∷ s) = b == b'.' && c == b'.' && at_boundary s

-- The same behind a separator, anywhere in the text.
abbrev pub has_parent_behind : Text → Bool
has_parent_behind [] = false
has_parent_behind (b ∷ s) = (is_separator b && starts_with_parent s) || has_parent_behind s

abbrev pub has_parent : Text → Bool
has_parent s = starts_with_parent s || has_parent_behind s

-- An accepted pattern: trimmed and not empty, neither absolute nor qualified by a drive or a volume,
-- with no parent traversal.
abbrev pub is_relative : (Text → Text) → Text → Bool
is_relative volume_name p =
    p =ᵗ trim_space p
    && not (is_empty p)
    && not (has_prefix p (slash ∷ []))
    && not (has_prefix p (backslash ∷ []))
    && not (is_drive_qualified p)
    && is_empty (volume_name p)
    && not (has_parent p)

abbrev head_part : List Text → Text
head_part [] = []
head_part (part ∷ parts) = part

abbrev tail_parts : List Text → List Text
tail_parts [] = []
tail_parts (part ∷ parts) = parts

abbrev is_dots : Text → Bool
is_dots part = part =ᵗ codes ".."

head-cons_head : (b : ℕ) (l : List Text) → head_part (cons_head b l) ≡ b ∷ head_part l
head-cons_head b [] = refl
head-cons_head b (part ∷ parts) = refl

tail-cons_head : (b : ℕ) (l : List Text) → tail_parts (cons_head b l) ≡ tail_parts l
tail-cons_head b [] = refl
tail-cons_head b (part ∷ parts) = refl

-- The segments of a pattern.
abbrev parts : Text → List Text
parts s = split_slash (to_slashes s)

parts-separator : (b : ℕ) (s : Text) → is_separator b ≡ true → parts (b ∷ s) ≡ [] ∷ parts s
unfolding split_slash to_slashes
parts-separator b s h = ground arith

parts-other : (b : ℕ) (s : Text) → is_separator b ≡ false → parts (b ∷ s) ≡ cons_head b (parts s)
unfolding split_slash to_slashes
parts-other b s h = ground arith

parts-cons : (s : Text) → parts s ≡ head_part (parts s) ∷ tail_parts (parts s)
unfolding split_slash to_slashes
parts-cons [] = refl
parts-cons (b ∷ s) = elim (Bool-cases (is_separator b)) [
  | inl sep ↦ let e = parts-separator b s sep in e ∙ sym (ap (λ l. head_part l ∷ tail_parts l) e)
  | inr other ↦
      let e = parts-other b s other in
      e ∙ whole (parts s) ∙ sym (ap (λ l. head_part l ∷ tail_parts l) e)
]
  where
    whole : (l : List Text) → cons_head b l ≡ head_part (cons_head b l) ∷ tail_parts (cons_head b l)
    whole [] = refl
    whole (x ∷ l) = refl

head-separator : (b : ℕ) (s : Text) → is_separator b ≡ true → head_part (parts (b ∷ s)) ≡ []
head-separator b s h = ap head_part (parts-separator b s h)

head-other :
    (b : ℕ) (s : Text)
    → is_separator b ≡ false
    → head_part (parts (b ∷ s)) ≡ b ∷ head_part (parts s)
head-other b s h = ap head_part (parts-other b s h) ∙ head-cons_head b (parts s)

is_empty-head : (s : Text) → (head_part (parts s) =ᵗ []) ≡ at_boundary s
unfolding ◌=ᵗ◌ split_slash to_slashes
is_empty-head [] = refl
is_empty-head (b ∷ s) = elim (Bool-cases (is_separator b)) [
  | inl sep ↦ ap (λ t. t =ᵗ []) (head-separator b s sep) ∙ sym sep
  | inr other ↦ ap (λ t. t =ᵗ []) (head-other b s other) ∙ sym other
]

one_dot :
    (c : ℕ) (s : Text) → (head_part (parts (c ∷ s)) =ᵗ codes ".") ≡ (c == b'.' && at_boundary s)
unfolding ◌=ᵗ◌
one_dot c s = elim (Bool-cases (is_separator c)) [
  | inl sep ↦ ap (λ t. t =ᵗ codes ".") (head-separator c s sep) ∙ ground arith
  | inr other ↦
      ap (λ t. t =ᵗ codes ".") (head-other c s other) ∙ ap (λ b. c == b'.' && b) (is_empty-head s)
]

is_dots-head : (s : Text) → is_dots (head_part (parts s)) ≡ starts_with_parent s
unfolding ◌=ᵗ◌ split_slash to_slashes
is_dots-head [] = refl
is_dots-head (b ∷ []) = elim (Bool-cases (is_separator b)) [
  | inl sep ↦ ap is_dots (head-separator b [] sep)
  | inr other ↦ ap is_dots (head-other b [] other) ∙ ground arith
]
is_dots-head (b ∷ c ∷ s) = elim (Bool-cases (is_separator b)) [
  | inl sep ↦ ap is_dots (head-separator b (c ∷ s) sep) ∙ ground arith
  | inr other ↦
      ap is_dots (head-other b (c ∷ s) other)
      ∙ ap (λ x. b == b'.' && x) (one_dot c s)
      ∙ ground arith
]

any-parts :
    (s : Text)
    → any is_dots (parts s) ≡ (starts_with_parent s || any is_dots (tail_parts (parts s)))
any-parts s =
    ap (any is_dots) (parts-cons s)
    ∙ ap (λ b. b || any is_dots (tail_parts (parts s))) (is_dots-head s)

any-tail_parts : (s : Text) → any is_dots (tail_parts (parts s)) ≡ has_parent_behind s
unfolding split_slash to_slashes
any-tail_parts [] = refl
any-tail_parts (b ∷ s) = elim (Bool-cases (is_separator b)) [
  | inl sep ↦
      ap (λ l. any is_dots (tail_parts l)) (parts-separator b s sep)
      ∙ any-parts s
      ∙ ground (arith, any-tail_parts s)
  | inr other ↦
      ap (λ l. any is_dots (tail_parts l)) (parts-other b s other)
      ∙ ap (any is_dots) (tail-cons_head b (parts s))
      ∙ ground (arith, any-tail_parts s)
]

-- Splitting finds a segment of two periods exactly where the bytes have one.
any-dots : (s : Text) → any is_dots (parts s) ≡ has_parent s
any-dots s = any-parts s ∙ ap (λ b. starts_with_parent s || b) (any-tail_parts s)

prefix-weaken :
    (p : Text) (c : ℕ) (r : Text)
    → (has_prefix p (c ∷ []) || has_prefix p (c ∷ r)) ≡ has_prefix p (c ∷ [])
unfolding has_prefix
prefix-weaken [] c r = refl
prefix-weaken (b ∷ p) c r = ground arith

guard-and : {E : Type 0} (a b : Bool) (e : E) → (guard a e >> guard b e) ≡ guard (a && b) e
unfolding guard ◌>>◌
guard-and true b e = refl
guard-and false b e = refl

-- The tests for UNC and device paths follow from those for a leading slash.
fewer_tests :
    (a b s k d v kk ss kq qq m : Bool)
    → (k || kk) ≡ k
    → (s || ss) ≡ s
    → (k || kq) ≡ k
    → (k || qq) ≡ k
    → (a && (b && (not (s || k) && (d && (v && (not (kk || ss) && (not (kq || qq) && m)))))))
      ≡ (a && b && not s && not k && d && v && m)
fewer_tests a b s k d v kk ss kq qq m h i j l = ground arith

validate_scope_pattern-lem :
    (volume_name : Text → Text) (p : Text)
    → validate_scope_pattern volume_name p ≡ guard (is_relative volume_name p) scope_error
unfolding validate_scope_pattern
validate_scope_pattern-lem volume_name p = simp guard-and (
    ap (λ b. guard b scope_error)
      (fewer_tests _ _ _ _ _ _ _ _ _ _ _ (prefix-weaken p backslash (backslash ∷ []))
          (prefix-weaken p slash (slash ∷ []))
          (prefix-weaken p backslash (backslash ∷ b'?' ∷ backslash ∷ []))
          (prefix-weaken p backslash (b'?' ∷ b'?' ∷ backslash ∷ []))
        ∙ ap
            (λ m.
              p =ᵗ trim_space p
              && not (is_empty p)
              && not (has_prefix p (slash ∷ []))
              && not (has_prefix p (backslash ∷ []))
              && not (is_drive_qualified p)
              && is_empty (volume_name p)
              && not m)
            (any-dots p)))

-- ValidateScopePatterns accepts a list of patterns exactly if each is trimmed, not empty, neither
-- absolute nor qualified by a drive or a volume, and has nowhere two periods between separators or
-- the ends; else the error is that of a scope pattern.
pub validate_scope_patterns-lem :
    (volume_name : Text → Text) (patterns : List Text)
    → validate_scope_patterns volume_name patterns
      ≡ guard (all (is_relative volume_name) patterns) scope_error
unfolding validate_scope_patterns guard
validate_scope_patterns-lem volume_name [] = refl
validate_scope_patterns-lem volume_name (p ∷ patterns) =
    ap (λ m. m >> validate_scope_patterns volume_name patterns)
      (validate_scope_pattern-lem volume_name p)
    ∙ ap (λ m. guard (is_relative volume_name p) scope_error >> m)
        (validate_scope_patterns-lem volume_name patterns)
    ∙ guard-and _ _ _
