-- ===== src/Store/ReportPath/Tests.antt =====
-- Report paths at concrete identities.
use ai_supervisor.Base.{none, some, ok, guard, ◌>>◌, ◌≡◌, refl}
use ai_supervisor.Base.Text.{codes, ◌=ᵗ◌, leading_space, trailing_space, trim_by, trim_space}
use ai_supervisor.Store.ReportPath.{
  ends_with, has_dot_dot, is_forbidden_byte, base_name, upper, device_names, traversal, device_name,
  validate_identity_segment, canonical_expected_report_path,
}
use ai_supervisor.Store.ReportPath.Laws.{canonical_expected_report_path_injective}

verdicts :
    (validate_identity_segment (codes "task-1") ≡ none)
    × (validate_identity_segment (codes "a..b") ≡ some traversal)
    × (validate_identity_segment (codes "nul.txt") ≡ some device_name)
unfolding validate_identity_segment ◌=ᵗ◌ leading_space trailing_space trim_by trim_space ends_with
    has_dot_dot is_forbidden_byte base_name upper device_names
verdicts = (refl, refl, refl)

built :
    canonical_expected_report_path (codes "task-1") (codes "a2")
    ≡ ok (codes ".supervisor/reports/task-1/a2.json")
unfolding canonical_expected_report_path guard ◌>>◌ validate_identity_segment ◌=ᵗ◌ leading_space
    trailing_space trim_by trim_space ends_with has_dot_dot is_forbidden_byte base_name upper
    device_names
built = refl

canonical_expected_report_path_injective_example :
    (codes "task-1" ≡ codes "task-1") × (codes "a2" ≡ codes "a2")
canonical_expected_report_path_injective_example =
    canonical_expected_report_path_injective (codes "task-1") (codes "a2") (codes "task-1")
      (codes "a2") built built
