-- ===== src/Contract/Validator/Tests.antt =====
-- A sample contract for internal/contract, on a file system of directories without links.
use ai_supervisor.Base.{
  ◌≡◌, refl, true, false, Option, none, some, [], ◌∷◌, ◌++◌, ok, ◌⊎◌, guard, or_fail, ◌>>=◌, ◌>>◌,
  if◌then◌else◌, All, all,
}
use ai_supervisor.Base.Text.{
  Text, codes, ◌=ᵗ◌, text_eq_iff, trim_space, trim_by, leading_space, trailing_space, is_blank,
}
use ai_supervisor.Contract.Values.{pos, scope_error}
use ai_supervisor.Contract.Scope.{
  slash, has_prefix, is_drive_qualified, to_slashes, split_slash, validate_scope_pattern,
  validate_scope_patterns,
}
use ai_supervisor.Contract.Scope.Parents.{is_relative, validate_scope_patterns-lem}
use ai_supervisor.Contract.Revision.{
  VerificationRequest, TaskContract, items, validate_succession, validate_first_revision,
  validate_revision_lineage, same_specification, validate_immutability,
}
use ai_supervisor.Contract.Revision.Immutable.{validate_immutability-eq}
use ai_supervisor.Contract.Paths.{
  Platform, present, contains_parent, is_relative_inside, is_within_root, canonical_root,
  check_lexical, enter, walk, check_contained, validate_cwd_containment,
}
use ai_supervisor.Contract.Paths.Containment.{resolve, validate_cwd_containment-Inside}
use ai_supervisor.Contract.Validator.{
  ProfilePolicy, Objects, validate_verification_request, validate_requests_from,
  validate_verification_requests, check_immutability, validate_contract,
}
use ai_supervisor.Contract.Validator.Accepted.{Follows, IsRunnable, validate_contract-Follows}

abbrev after_root : Text → Text → Option Text
after_root root target = if has_prefix target root then some (codes "inside") else some (codes "..")

abbrev directories : Platform
directories = record {
  abs = λ s. some s;
  clean = λ s. s;
  from_slash = λ s. s;
  to_slash = λ s. s;
  volume_name = λ s. [];
  join = λ s t. s ++ slash ∷ t;
  rel = after_root;
  separator = slash;
  equal_fold = λ s t. s =ᵗ t;
  stat = λ s. some true;
  lstat = λ s. present;
  eval_symlinks = λ s. some s;
}

-- JSON objects as texts, all of which the schema accepts.
abbrev objects : Objects Text
objects = record {
  is_without_members = λ s. false;
  deep_equal = λ s t. s =ᵗ t;
  compile = λ s. some (λ p. true);
  project = λ p. some p;
}

abbrev profile : ProfilePolicy Text
profile = record {
  profile_id = codes "go";
  parameter_schema = some (codes "{}");
  cwd_policy = codes "worktree_contained";
  max_timeout_seconds = pos 60;
}

abbrev lookup_profile : Text → Option (ProfilePolicy Text)
lookup_profile id = if id =ᵗ codes "go" then some profile else none

abbrev first_contract : TaskContract Text
first_contract = record {
  contract_id = codes "C1";
  task_id = codes "T";
  revision_number = pos 1;
  supersedes_contract_id = none;
  phase_id = codes "P";
  objective = [];
  requirements = none;
  architecture_refs = none;
  base_sha = codes "abc";
  allowed_scope = some (codes "src/*" ∷ []);
  forbidden_scope = none;
  constraints = none;
  acceptance_criteria = none;
  verification_requests = none;
  required_evidence = none;
  worker_profile = [];
  report_contract = [];
  stop_conditions = none;
  is_immutable = true;
}

abbrev request : VerificationRequest Text
request = record {
  id = codes "V";
  profile_id = codes "go";
  parameters = some [];
  cwd = codes "a/b";
  timeout_seconds = pos 30;
}

abbrev second_contract : TaskContract Text
second_contract = record first_contract {
  contract_id = codes "C2";
  revision_number = pos 2;
  supersedes_contract_id = some (codes "C1");
  verification_requests = some (request ∷ []);
}

accepted :
    (validate_contract objects directories
        (some lookup_profile)
        second_contract
        (some first_contract)
        (codes "r")
      ≡ ok tt)
    × (validate_cwd_containment directories (codes "a/b") (codes "r") (codes "worktree_contained")
        ≡ ok tt)
    × (canonical_root directories (codes "r") ≡ ok (codes "r"))
    × (check_lexical directories (codes "a/b") ≡ ok (codes "a/b"))
    × (split_slash (codes "a/b") ≡ (codes "a" ∷ []) ++ codes "b" ∷ [])
    × (resolve directories (codes "r") (codes "a" ∷ []) ≡ some (codes "r/a"))
    × (validate_immutability (λ s t. s =ᵗ t) first_contract first_contract ≡ ok tt)
unfolding ◌>>=◌ ◌>>◌ guard or_fail ◌=ᵗ◌ trim_space trim_by leading_space trailing_space is_blank
    has_prefix is_drive_qualified to_slashes split_slash validate_scope_pattern
    validate_scope_patterns validate_succession validate_first_revision validate_revision_lineage
    same_specification validate_immutability contains_parent is_relative_inside is_within_root
    canonical_root check_lexical enter walk check_contained validate_cwd_containment resolve
    validate_verification_request validate_requests_from validate_verification_requests
    check_immutability validate_contract
accepted = (refl, refl, refl, refl, refl, refl, refl)

validate_contract-Follows_example :
    Follows second_contract (some first_contract)
    × (all (is_relative directories.volume_name) (items second_contract.allowed_scope) ≡ true)
    × (all (is_relative directories.volume_name) (items second_contract.forbidden_scope) ≡ true)
    × All
        (IsRunnable objects directories lookup_profile (codes "r"))
        (items second_contract.verification_requests)
validate_contract-Follows_example =
    validate_contract-Follows objects directories lookup_profile second_contract
      (some first_contract) (codes "r") accepted.0

validate_cwd_containment-Inside_example :
    (codes "r/a" ≡ codes "r") ⊎ (is_within_root directories (codes "r/a") (codes "r") ≡ true)
validate_cwd_containment-Inside_example =
    validate_cwd_containment-Inside directories (codes "a/b") (codes "r")
      (codes "worktree_contained") (codes "r") (codes "a/b") (codes "a" ∷ []) (codes "b" ∷ [])
      accepted.1 accepted.2 accepted.3 accepted.4 accepted.5

validate_scope_patterns-lem_example :
    validate_scope_patterns directories.volume_name (codes "src/../x" ∷ [])
    ≡ guard (all (is_relative directories.volume_name) (codes "src/../x" ∷ [])) scope_error
validate_scope_patterns-lem_example =
    validate_scope_patterns-lem directories.volume_name (codes "src/../x" ∷ [])

validate_immutability-eq_example :
    record first_contract { is_immutable = first_contract.is_immutable } ≡ first_contract
validate_immutability-eq_example =
    validate_immutability-eq (λ s t. s =ᵗ t) (λ s t h. (text_eq_iff s t).0 h) first_contract
      first_contract refl refl accepted.6
