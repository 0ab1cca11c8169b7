-- ===== src/Store/ReportPath.antt =====
-- internal/store/report_path.go: which identities may be a segment of a path, and the path of a
-- worker's report.
pub mod Laws
pub mod Tests
use ai_supervisor.Base.{
  ℕ, ◌+◌, ◌-◌, Bool, true, false, ◌&&◌, ◌||◌, not, Option, none, some, List, [], ◌∷◌, ◌++◌, map, ok,
  ◌>>◌, guard, leb, ◌==◌, if◌then◌else◌, any, is_some,
}
use ai_supervisor.Base.Text.{Text, codes, ◌=ᵗ◌, is_empty, trim_space}
use ai_supervisor.Store.Schema.{Outcome, report_path_mismatch}

-- strings.HasSuffix with a suffix of one byte.
unfoldable pub ends_with : ℕ → Text → Bool
ends_with c [] = false
ends_with c (b ∷ s) = if is_empty s then b == c else ends_with c s

abbrev starts_with_dot : Text → Bool
starts_with_dot [] = false
starts_with_dot (c ∷ r) = c == b'.'

-- strings.Contains(s, "..")
unfoldable pub has_dot_dot : Text → Bool
has_dot_dot [] = false
has_dot_dot (b ∷ s) = (b == b'.' && starts_with_dot s) || has_dot_dot s

-- The bytes that the loop refuses: control characters and `<>:"/\|?*`.
unfoldable pub is_forbidden_byte : ℕ → Bool
is_forbidden_byte b =
    leb b 0x1f
    || b == 0x7f
    || b == b'<'
    || b == b'>'
    || b == b':'
    || b == 34
    || b == b'/'
    || b == 92
    || b == b'|'
    || b == b'?'
    || b == b'*'

-- The part before the first period.
unfoldable pub base_name : Text → Text
base_name [] = []
base_name (b ∷ s) = if b == b'.' then [] else b ∷ base_name s

-- strings.ToUpper on ASCII. Of the other characters only the dotless i and the long s have an ASCII
-- upper case, I and S, and no device name contains one of these.
unfoldable pub upper : ℕ → ℕ
upper b = if leb b'a' b && leb b b'z' then b - 32 else b

unfoldable pub device_names : List Text
device_names =
    codes "CON"
    ∷ codes "PRN"
    ∷ codes "AUX"
    ∷ codes "NUL"
    ∷ codes "COM1"
    ∷ codes "COM2"
    ∷ codes "COM3"
    ∷ codes "COM4"
    ∷ codes "COM5"
    ∷ codes "COM6"
    ∷ codes "COM7"
    ∷ codes "COM8"
    ∷ codes "COM9"
    ∷ codes "LPT1"
    ∷ codes "LPT2"
    ∷ codes "LPT3"
    ∷ codes "LPT4"
    ∷ codes "LPT5"
    ∷ codes "LPT6"
    ∷ codes "LPT7"
    ∷ codes "LPT8"
    ∷ codes "LPT9"
    ∷ []

pub data SegmentFault : Type 0 where
  empty_segment outer_space trailing_period dots traversal forbidden_byte device_name : SegmentFault

-- validateIdentitySegment: `none` is the nil error.
unfoldable pub validate_identity_segment : Text → Option SegmentFault
validate_identity_segment val =
    if is_empty val
    then some empty_segment
    else if not (trim_space val =ᵗ val)
    then some outer_space
    else if ends_with 32 val || ends_with b'.' val
    then some trailing_period
    else if val =ᵗ codes "." || val =ᵗ codes ".."
    then some dots
    else if has_dot_dot val
    then some traversal
    else if any is_forbidden_byte val
    then some forbidden_byte
    else if any (λ d. map upper (base_name val) =ᵗ d) device_names
    then some device_name
    else none

-- CanonicalExpectedReportPath
unfoldable pub canonical_expected_report_path : Text → Text → Outcome Text
canonical_expected_report_path task_id attempt_id = do
  guard (not (is_some (validate_identity_segment task_id))) report_path_mismatch
  guard (not (is_some (validate_identity_segment attempt_id))) report_path_mismatch
  ok (codes ".supervisor/reports/" ++ (task_id ++ (b'/' ∷ (attempt_id ++ codes ".json"))))
