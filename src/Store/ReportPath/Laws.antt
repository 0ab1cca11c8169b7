-- ===== src/Store/ReportPath/Laws.antt =====
-- Accepted identities are plain segments, and the report path is theirs alone.
use ai_supervisor.Base.{
  true, false, not, none, [], ◌∷◌, ◌++◌, ok, ◌≡◌, refl, ap, ◌==◌, any, is_some, length,
  length-append, arith, guard->>-eq-ok,
}
use ai_supervisor.Base.Text.{Text, codes, is_empty}
use ai_supervisor.Store.ReportPath.{
  validate_identity_segment, is_forbidden_byte, has_dot_dot, ends_with,
  canonical_expected_report_path,
}

-- An accepted identity is not empty, ends in no period, has no `..`, and has no separator, control
-- character or other byte that Windows reserves.
pub accepted_segment :
    (s : Text)
    → validate_identity_segment s ≡ none
    → (is_empty s ≡ false)
      × (ends_with b'.' s ≡ false)
      × (has_dot_dot s ≡ false)
      × (any is_forbidden_byte s ≡ false)
unfolding validate_identity_segment
accepted_segment s h = ground arith

no_slash : (s : Text) → any is_forbidden_byte s ≡ false → any (λ b. b == b'/') s ≡ false
unfolding is_forbidden_byte
no_slash [] h = refl
no_slash (b ∷ s) h = ground (arith, no_slash s)

-- Texts up to the first slash are determined by the whole.
split_at_slash :
    (s t x y : Text)
    → any (λ b. b == b'/') s ≡ false
    → any (λ b. b == b'/') t ≡ false
    → s ++ b'/' ∷ x ≡ t ++ b'/' ∷ y
    → (s ≡ t) × (x ≡ y)
split_at_slash [] [] x y h k e = (refl, cc)
split_at_slash [] (c ∷ t) x y h k e = let e' : b'/' ≡ c = cc in absurd (ground arith)
split_at_slash (b ∷ s) [] x y h k e = let e' : b ≡ b'/' = cc in absurd (ground arith)
split_at_slash (b ∷ s) (c ∷ t) x y h k e =
    let (p, q) = split_at_slash s t x y (ground arith) (ground arith) (cc) in (cc, q)

cut_suffix : (s t x : Text) → s ++ x ≡ t ++ x → s ≡ t
cut_suffix [] [] x e = refl
cut_suffix [] (c ∷ t) x e = absurd (omega (arith, ap length e, length-append t x))
cut_suffix (b ∷ s) [] x e = absurd (omega (arith, ap length e, length-append s x))
cut_suffix (b ∷ s) (c ∷ t) x e = let rest = cut_suffix s t x (cc) in cc

cut_prefix : (x s t : Text) → x ++ s ≡ x ++ t → s ≡ t
cut_prefix [] s t e = e
cut_prefix (b ∷ x) s t e = cut_prefix x s t (cc)

segment_ok :
    (s : Text)
    → not (is_some (validate_identity_segment s)) ≡ true
    → validate_identity_segment s ≡ none
segment_ok s h = ground arith

-- The paths of two attempts differ, if either the tasks or the attempts do.
pub canonical_expected_report_path_injective :
    (task attempt task' attempt' : Text) {path : Text}
    → canonical_expected_report_path task attempt ≡ ok path
    → canonical_expected_report_path task' attempt' ≡ ok path
    → (task ≡ task') × (attempt ≡ attempt')
unfolding canonical_expected_report_path
canonical_expected_report_path_injective task attempt task' attempt' {path} h k =
    let (a, h1) = guard->>-eq-ok _ _ _ h in
    let (b, h2) = guard->>-eq-ok _ _ _ h1 in
    let (c, k1) = guard->>-eq-ok _ _ _ k in
    let (d, k2) = guard->>-eq-ok _ _ _ k1 in
    let plain = λ (s : Text) (v : not (is_some (validate_identity_segment s)) ≡ true).
      no_slash s (accepted_segment s (segment_ok s v)).3 in
    let same : codes ".supervisor/reports/" ++ (task ++ (b'/' ∷ (attempt ++ codes ".json")))
        ≡ codes ".supervisor/reports/" ++ (task' ++ (b'/' ∷ (attempt' ++ codes ".json"))) =
      cc in
    let (t, rest) =
      split_at_slash task task' _ _ (plain task a) (plain task' c)
        (cut_prefix (codes ".supervisor/reports/") _ _ same) in
    (t, cut_suffix attempt attempt' (codes ".json") rest)
