-- ===== src/Contract/Validator/Accepted.antt =====
-- What a contract satisfies that internal/contract/validator.go accepts.
use ai_supervisor.Base.{
  ℕ, ◌+◌, ◌≡◌, ◌≢◌, refl, sym, ap, ◌∙◌, Bool, true, false, not, Option, none, some, List, [], ◌∷◌,
  ok, is_some, if◌then◌else◌, All, all, arith, guard->>-eq-ok, not-true, Ensures, returns,
  Ensures-guard, Ensures-or_fail, Ensures-then, Ensures-map, Ensures_elim, Ensures-self,
  guard-eq-ok,
}
use ai_supervisor.Base.Text.{Text, ◌=ᵗ◌, text_eq_iff, has_text}
use ai_supervisor.Contract.Values.{pos, is_positive, is_negative, ◌==ℤ◌, ==ℤ-eq, gtb, next}
use ai_supervisor.Contract.Scope.Parents.{is_relative, validate_scope_patterns-lem}
use ai_supervisor.Contract.Revision.{
  VerificationRequest, TaskContract, items, validate_succession, validate_first_revision,
  validate_revision_lineage,
}
use ai_supervisor.Contract.Paths.{Platform, policy_or_default, validate_cwd_containment}
use ai_supervisor.Contract.Validator.{
  ProfilePolicy, Objects, validate_verification_request, validate_requests_from,
  validate_verification_requests, validate_contract,
}

module _ {P : Type 0} where
  -- A first revision, or one that succeeds the previous contract.
  pub data Follows (contract : TaskContract P) : Option (TaskContract P) → Type 0 where
    first :
        contract.revision_number ≡ pos 1
        → contract.supersedes_contract_id ≡ none
        → Follows contract none
    later :
        {previous : TaskContract P}
        → is_positive contract.revision_number ≡ true
        → contract.revision_number ≡ next previous.revision_number
        → contract.task_id ≡ previous.task_id
        → contract.contract_id ≢ previous.contract_id
        → contract.supersedes_contract_id ≡ some previous.contract_id
        → contract.base_sha ≡ previous.base_sha
        → Follows contract (some previous)

  pub record IsRunnable (o : Objects P) (fs : Platform)
      (lookup_profile : Text → Option (ProfilePolicy P)) (worktree_root : Text)
      (req : VerificationRequest P) : Type 0 where
    pub policy : ProfilePolicy P
    pub profile : lookup_profile req.profile_id ≡ some policy
    pub same_profile : policy.profile_id ≡ req.profile_id
    pub limited : is_positive policy.max_timeout_seconds ≡ true
    pub not_negative : is_negative req.timeout_seconds ≡ false
    pub within_limit : gtb req.timeout_seconds policy.max_timeout_seconds ≡ false
    pub parameters : P
    pub given : req.parameters ≡ some parameters
    pub contained :
        validate_cwd_containment fs req.cwd worktree_root (policy_or_default policy.cwd_policy)
        ≡ ok tt

has_text-eq-some : (o : Option Text) (t : Text) → has_text o t ≡ true → o ≡ some t
has_text-eq-some none t h = cc
has_text-eq-some (some s) t h = ap some ((text_eq_iff s t).0 h)

is_some-none : {A : Type 0} (o : Option A) → not (is_some o) ≡ true → o ≡ none
is_some-none none h = refl
is_some-none (some a) h = cc

module _ {P : Type 0} where
  first-Follows :
      (contract : TaskContract P) (previous : Option (TaskContract P))
      → contract.revision_number ≡ pos 1
      → validate_first_revision contract previous ≡ ok tt
      → Follows contract previous
  unfolding validate_first_revision
  first-Follows contract none one h =
      let (alone, h1) = guard->>-eq-ok _ _ _ h in first one (is_some-none _ alone)
  first-Follows contract (some previous) one h =
      let (alone, h1) = guard->>-eq-ok _ _ _ h in let no = guard-eq-ok _ _ h1 in cc

  succession-Follows :
      (contract : TaskContract P) (previous : Option (TaskContract P))
      → is_positive contract.revision_number ≡ true
      → validate_succession contract previous ≡ ok tt
      → Follows contract previous
  unfolding validate_succession
  succession-Follows contract none positive h = cc
  succession-Follows contract (some previous) positive h =
      let (task, h1) = guard->>-eq-ok _ _ _ h in
      let (other, h2) = guard->>-eq-ok _ _ _ h1 in
      let (number, h3) = guard->>-eq-ok _ _ _ h2 in
      let (given, h4) = guard->>-eq-ok _ _ _ h3 in
      let (supersedes, h5) = guard->>-eq-ok _ _ _ h4 in
      later positive (==ℤ-eq _ _ number) ((text_eq_iff _ _).0 task) (differs other)
        (has_text-eq-some _ _ supersedes) ((text_eq_iff _ _).0 (guard-eq-ok _ _ h5))
    where
      differs :
          not (contract.contract_id =ᵗ previous.contract_id) ≡ true
          → contract.contract_id ≢ previous.contract_id
      differs h e =
          let same = (text_eq_iff contract.contract_id previous.contract_id).1 e in ground arith

  validate_revision_lineage-Follows :
      (contract : TaskContract P) (previous : Option (TaskContract P))
      → validate_revision_lineage contract previous ≡ ok tt
      → Follows contract previous
  unfolding validate_revision_lineage
  validate_revision_lineage-Follows contract previous h =
      let (positive, h1) = guard->>-eq-ok _ _ _ h in
      by_number (contract.revision_number ==ℤ pos 1) refl positive h1
    where
      by_number :
          (b : Bool)
          → (contract.revision_number ==ℤ pos 1) ≡ b
          → is_positive contract.revision_number ≡ true
          → (if b
              then validate_first_revision contract previous
              else validate_succession contract previous)
            ≡ ok tt
          → Follows contract previous
      by_number true e positive h =
          first-Follows contract previous (==ℤ-eq contract.revision_number (pos 1) e) h
      by_number false e positive h = succession-Follows contract previous positive h

  module _ (o : Objects P) (fs : Platform) (lookup_profile : Text → Option (ProfilePolicy P)) where
    same_lookup : {f g : Text → Option (ProfilePolicy P)} → some f ≡ some g → f ≡ g
    same_lookup e = cc

    validate_verification_request-IsRunnable :
        (worktree_root : Text) (i : ℕ) (req : VerificationRequest P)
        → Ensures
            (λ u. IsRunnable o fs lookup_profile worktree_root req)
            (validate_verification_request o fs (some lookup_profile) worktree_root i req)
    unfolding validate_verification_request
    validate_verification_request-IsRunnable worktree_root i req =
        Ensures-guard _ _ _ λ named_request. Ensures-guard _ _ _ λ named_profile.
          Ensures-or_fail _ _ _ λ lookup configured. Ensures-or_fail _ _ _ λ policy found.
            Ensures-guard _ _ _ λ named_policy. Ensures-guard _ _ _ λ same.
              Ensures-guard _ _ _ λ limited. Ensures-guard _ _ _ λ natural.
                Ensures-guard _ _ _ λ within. Ensures-or_fail _ _ _ λ schema has_schema.
                  Ensures-or_fail _ _ _ λ parameters given.
                    Ensures-or_fail _ _ _ λ accepts compiled.
                      Ensures-or_fail _ _ _ λ projected exact. Ensures-guard _ _ _ λ accepted.
                        Ensures-self λ u contained. record {
                          policy = policy;
                          profile = ap (λ f. f req.profile_id) (same_lookup configured) ∙ found;
                          same_profile = (text_eq_iff _ _).0 same;
                          limited = limited;
                          not_negative = not-true _ natural;
                          within_limit = not-true _ within;
                          parameters = parameters;
                          given = given;
                          contained = contained;
                        }

    requests-IsRunnable :
        (worktree_root : Text) (i : ℕ) (requests : List (VerificationRequest P))
        → Ensures
            (λ u. All (IsRunnable o fs lookup_profile worktree_root) requests)
            (validate_requests_from o fs (some lookup_profile) worktree_root i requests)
    unfolding validate_requests_from
    requests-IsRunnable worktree_root i [] = returns tt
    requests-IsRunnable worktree_root i (req ∷ requests) =
        let here = validate_verification_request-IsRunnable worktree_root i req in
        Ensures-then _ _ λ valid.
          Ensures-map (λ u rest. (Ensures_elim here valid, rest))
            (requests-IsRunnable worktree_root (i + 1) requests)

    -- ValidateContract accepts a contract only if it is a first revision without a predecessor, or
    -- succeeds the previous contract: of the same task and base, with the next number and another
    -- identity, and superseding it; all its scope patterns are relative and without traversal; and
    -- each of its verification requests has a profile of the catalog, parameters, a timeout within
    -- the profile's limit, and an accepted working directory.
    pub validate_contract-Follows :
        (contract : TaskContract P) (previous : Option (TaskContract P)) (worktree_root : Text)
        → validate_contract o fs (some lookup_profile) contract previous worktree_root ≡ ok tt
        → Follows contract previous
          × (all (is_relative fs.volume_name) (items contract.allowed_scope) ≡ true)
          × (all (is_relative fs.volume_name) (items contract.forbidden_scope) ≡ true)
          × All
              (IsRunnable o fs lookup_profile worktree_root)
              (items contract.verification_requests)
    unfolding validate_contract validate_verification_requests
    validate_contract-Follows contract previous worktree_root e =
        Ensures_elim
          {Q = λ u.
            Follows contract previous
            × (all (is_relative fs.volume_name) (items contract.allowed_scope) ≡ true)
            × (all (is_relative fs.volume_name) (items contract.forbidden_scope) ≡ true)
            × All (IsRunnable o fs lookup_profile worktree_root)
                (items contract.verification_requests)}
          (Ensures-then _ _ λ follows. Ensures-then _ _ λ immutable. Ensures-then _ _ λ allowed.
            Ensures-then _ _ λ forbidden.
              Ensures-map
                (λ u runnable. (
                  validate_revision_lineage-Follows contract previous follows,
                  guard-eq-ok _ _ (
                      sym
                        (validate_scope_patterns-lem fs.volume_name (items contract.allowed_scope))
                      ∙ allowed),
                  guard-eq-ok _ _ (
                      sym (
                        validate_scope_patterns-lem fs.volume_name (items contract.forbidden_scope))
                      ∙ forbidden),
                  runnable,
                ))
                (requests-IsRunnable worktree_root 0 (items contract.verification_requests)))
          e
