-- ===== src/Contract/Validator.antt =====
-- internal/contract/validator.go: ValidateContract and ValidateVerificationRequests. The catalog of
-- profiles is domain.VerificationPolicyCatalog of internal/domain/verification_policy.go.
pub mod Accepted
pub mod Tests
use ai_supervisor.Base.{
  ℕ, suc, ◌+◌, Bool, true, false, not, Option, none, some, List, [], ◌∷◌, Result, ok, err, ◌>>=◌,
  ◌>>◌, guard, or_fail, is_some, if◌then◌else◌,
}
use ai_supervisor.Base.Text.{Text, codes, ◌=ᵗ◌, is_empty}
use ai_supervisor.Contract.Values.{
  ℤ, is_positive, is_negative, gtb, no_field, named, of_request, ValidationError, profile_error,
}
use ai_supervisor.Contract.Scope.{validate_scope_patterns}
use ai_supervisor.Contract.Revision.{
  VerificationRequest, TaskContract, items, validate_revision_lineage, validate_immutability,
}
use ai_supervisor.Contract.Paths.{Platform, policy_or_default, validate_cwd_containment}

-- domain.VerificationProfilePolicy, over the type of JSON objects.
pub record ProfilePolicy (P : Type 0) : Type 0 where
  pub profile_id : Text
  pub parameter_schema : Option P
  pub cwd_policy : Text
  pub max_timeout_seconds : ℤ

-- What the validator uses of JSON objects: their size, reflect.DeepEqual, the compilation of a JSON
-- schema into a test by the jsonschema library, and the projection of the numbers for it.
pub record Objects (P : Type 0) : Type 0 where
  pub is_without_members : P → Bool
  pub deep_equal : P → P → Bool
  pub compile : P → Option (P → Bool)
  pub project : P → Option P

module _ {P : Type 0} (o : Objects P) (fs : Platform)
    (catalog : Option (Text → Option (ProfilePolicy P))) where
  -- `policy.ParameterSchema == nil || len(policy.ParameterSchema) == 0`
  abbrev given_schema : Option P → Option P
  given_schema none = none
  given_schema (some s) = if o.is_without_members s then none else some s

  -- One turn of the loop, for the i-th request.
  unfoldable pub validate_verification_request :
      Text → ℕ → VerificationRequest P → Result ValidationError (Unit {0})
  validate_verification_request worktree_root i req = do
    guard (not (is_empty req.id)) (profile_error (of_request i (codes "id")))
    guard (not (is_empty req.profile_id)) (profile_error (of_request i (codes "profile_id")))
    lookup_profile ← or_fail catalog (profile_error (named req.profile_id))
    policy ← or_fail (lookup_profile req.profile_id) (profile_error (named req.profile_id))
    guard (not (is_empty policy.profile_id)) (profile_error (of_request i (codes "profile_id")))
    guard (policy.profile_id =ᵗ req.profile_id) (profile_error (of_request i (codes "profile_id")))
    guard (is_positive policy.max_timeout_seconds)
        (profile_error (of_request i (codes "profile_id")))
    guard (not (is_negative req.timeout_seconds))
        (profile_error (of_request i (codes "timeout_seconds")))
    guard (not (gtb req.timeout_seconds policy.max_timeout_seconds))
        (profile_error (of_request i (codes "timeout_seconds")))
    schema ←
        or_fail (given_schema policy.parameter_schema)
          (profile_error (of_request i (codes "profile_id")))
    parameters ← or_fail req.parameters (profile_error (of_request i (codes "parameters")))
    accepts ← or_fail (o.compile schema) (profile_error (named req.profile_id))
    projected ← or_fail (o.project parameters) (profile_error (of_request i (codes "parameters")))
    guard (accepts projected) (profile_error (of_request i (codes "parameters")))
    validate_cwd_containment fs req.cwd worktree_root (policy_or_default policy.cwd_policy)

  unfoldable pub validate_requests_from :
      Text → ℕ → List (VerificationRequest P) → Result ValidationError (Unit {0})
  unfolding validate_verification_request
  validate_requests_from worktree_root i [] = ok tt
  validate_requests_from worktree_root i (req ∷ requests) =
      validate_verification_request worktree_root i req
      >> validate_requests_from worktree_root (i + 1) requests

  -- ValidateVerificationRequests
  unfoldable pub validate_verification_requests :
      Text → List (VerificationRequest P) → Result ValidationError (Unit {0})
  unfolding validate_requests_from
  validate_verification_requests worktree_root requests =
      validate_requests_from worktree_root 0 requests

  -- `if previous != nil && previous.IsImmutable { … }`
  unfoldable pub check_immutability :
      Option (TaskContract P) → TaskContract P → Result ValidationError (Unit {0})
  check_immutability none contract = ok tt
  check_immutability (some previous) contract =
      if previous.is_immutable then validate_immutability o.deep_equal previous contract else ok tt

  -- ValidateContract, of a contract that is not nil.
  unfoldable pub validate_contract :
      TaskContract P → Option (TaskContract P) → Text → Result ValidationError (Unit {0})
  unfolding check_immutability validate_verification_requests
  validate_contract contract previous worktree_root = do
    validate_revision_lineage contract previous
    check_immutability previous contract
    validate_scope_patterns fs.volume_name (items contract.allowed_scope)
    validate_scope_patterns fs.volume_name (items contract.forbidden_scope)
    validate_verification_requests worktree_root (items contract.verification_requests)
