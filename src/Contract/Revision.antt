-- ===== src/Contract/Revision.antt =====
-- internal/contract/revision.go. A slice is none where it is nil, which reflect.DeepEqual tells from
-- an empty one. The parameters of a request are JSON objects, with the equality of reflect.DeepEqual.
pub mod Immutable
use ai_supervisor.Base.{
  ℕ, Bool, true, false, ◌&&◌, ◌||◌, not, Option, none, some, List, [], ◌∷◌, Result, ok, err, ◌>>◌,
  guard, is_some, if◌then◌else◌,
}
use ai_supervisor.Base.Text.{Text, ◌=ᵗ◌, has_text}
use ai_supervisor.Contract.Values.{
  ℤ, pos, is_positive, ◌==ℤ◌, next, ValidationError, lineage_error, immutability_error,
}

abbrev pub Slice : Type 0 → Type 0
Slice A = Option (List A)

-- domain.VerificationRequest, over the parameters' type.
pub record VerificationRequest (P : Type 0) : Type 0 where
  pub id : Text
  pub profile_id : Text
  pub parameters : Option P
  pub cwd : Text
  pub timeout_seconds : ℤ

-- domain.TaskContract
pub record TaskContract (P : Type 0) : Type 0 where
  pub contract_id : Text
  pub task_id : Text
  pub revision_number : ℤ
  pub supersedes_contract_id : Option Text
  pub phase_id : Text
  pub objective : Text
  pub requirements : Slice Text
  pub architecture_refs : Slice Text
  pub base_sha : Text
  pub allowed_scope : Slice Text
  pub forbidden_scope : Slice Text
  pub constraints : Slice Text
  pub acceptance_criteria : Slice Text
  pub verification_requests : Slice (VerificationRequest P)
  pub required_evidence : Slice Text
  pub worker_profile : Text
  pub report_contract : Text
  pub stop_conditions : Slice Text
  pub is_immutable : Bool

-- `slice` ranges over nothing where it is nil.
abbrev pub items : {A : Type 0} → Slice A → List A
items none = []
items (some l) = l

-- reflect.DeepEqual of two slices, by the equality of their members.
abbrev pub list_equal : {A : Type 0} → (A → A → Bool) → List A → List A → Bool
list_equal eq [] [] = true
list_equal eq [] (y ∷ m) = false
list_equal eq (x ∷ l) [] = false
list_equal eq (x ∷ l) (y ∷ m) = eq x y && list_equal eq l m

abbrev pub slice_equal : {A : Type 0} → (A → A → Bool) → Slice A → Slice A → Bool
slice_equal eq none none = true
slice_equal eq none (some m) = false
slice_equal eq (some l) none = false
slice_equal eq (some l) (some m) = list_equal eq l m

abbrev pub texts_equal : Slice Text → Slice Text → Bool
texts_equal = slice_equal (λ s t. s =ᵗ t)

-- Two pointers to texts: both nil, or to the same text.
abbrev pub pointers_equal : Option Text → Option Text → Bool
pointers_equal none none = true
pointers_equal none (some t) = false
pointers_equal (some s) none = false
pointers_equal (some s) (some t) = s =ᵗ t

module _ {P : Type 0} where
  -- Revision N > 1 against the one before it.
  unfoldable pub validate_succession :
      TaskContract P → Option (TaskContract P) → Result ValidationError (Unit {0})
  validate_succession current none = err lineage_error
  validate_succession current (some previous) = do
    guard (current.task_id =ᵗ previous.task_id) lineage_error
    guard (not (current.contract_id =ᵗ previous.contract_id)) lineage_error
    guard (current.revision_number ==ℤ next previous.revision_number) lineage_error
    guard (is_some current.supersedes_contract_id) lineage_error
    guard (has_text current.supersedes_contract_id previous.contract_id) lineage_error
    guard (current.base_sha =ᵗ previous.base_sha) lineage_error

  unfoldable pub validate_first_revision :
      TaskContract P → Option (TaskContract P) → Result ValidationError (Unit {0})
  validate_first_revision current previous = do
    guard (not (is_some current.supersedes_contract_id)) lineage_error
    guard (not (is_some previous)) lineage_error

  -- ValidateRevisionLineage, of a contract that is not nil.
  unfoldable pub validate_revision_lineage :
      TaskContract P → Option (TaskContract P) → Result ValidationError (Unit {0})
  unfolding validate_succession validate_first_revision
  validate_revision_lineage current previous = do
    guard (is_positive current.revision_number) lineage_error
    if current.revision_number ==ℤ pos 1
        then validate_first_revision current previous
        else validate_succession current previous

  module _ (deep_equal : P → P → Bool) where
    abbrev pub parameters_equal : Option P → Option P → Bool
    parameters_equal none none = true
    parameters_equal none (some q) = false
    parameters_equal (some p) none = false
    parameters_equal (some p) (some q) = deep_equal p q

    abbrev pub requests_equal : VerificationRequest P → VerificationRequest P → Bool
    requests_equal q r =
        q.id =ᵗ r.id
        && q.profile_id =ᵗ r.profile_id
        && parameters_equal q.parameters r.parameters
        && q.cwd =ᵗ r.cwd
        && q.timeout_seconds ==ℤ r.timeout_seconds

    -- Every field that is serialized but the contract's identity, which the caller has compared.
    unfoldable pub same_specification : TaskContract P → TaskContract P → Bool
    same_specification original candidate =
        pointers_equal original.supersedes_contract_id candidate.supersedes_contract_id
        && original.task_id =ᵗ candidate.task_id
        && original.revision_number ==ℤ candidate.revision_number
        && original.phase_id =ᵗ candidate.phase_id
        && original.objective =ᵗ candidate.objective
        && original.base_sha =ᵗ candidate.base_sha
        && original.worker_profile =ᵗ candidate.worker_profile
        && original.report_contract =ᵗ candidate.report_contract
        && texts_equal original.requirements candidate.requirements
        && texts_equal original.architecture_refs candidate.architecture_refs
        && texts_equal original.allowed_scope candidate.allowed_scope
        && texts_equal original.forbidden_scope candidate.forbidden_scope
        && texts_equal original.constraints candidate.constraints
        && texts_equal original.acceptance_criteria candidate.acceptance_criteria
        && slice_equal requests_equal original.verification_requests candidate.verification_requests
        && texts_equal original.required_evidence candidate.required_evidence
        && texts_equal original.stop_conditions candidate.stop_conditions

    -- ValidateImmutability, of two contracts that are not nil.
    unfoldable pub validate_immutability :
        TaskContract P → TaskContract P → Result ValidationError (Unit {0})
    unfolding same_specification
    validate_immutability original candidate =
        if not (original.contract_id =ᵗ candidate.contract_id)
        then ok tt
        else if not original.is_immutable
        then ok tt
        else guard (same_specification original candidate) immutability_error
