-- ===== src/Contract/Revision/Immutable.antt =====
-- What a candidate for an immutable contract has in common with it, if internal/contract/revision.go
-- accepts it.
use ai_supervisor.Base.{
  ◌≡◌, refl, ap, Bool, true, ◌&&◌, Option, none, some, List, [], ◌∷◌, ok, and_left, and_right,
  guard-eq-ok,
}
use ai_supervisor.Base.Text.{Text, ◌=ᵗ◌, text_eq_iff}
use ai_supervisor.Contract.Values.{==ℤ-eq}
use ai_supervisor.Contract.Revision.{
  Slice, VerificationRequest, TaskContract, list_equal, slice_equal, pointers_equal,
  parameters_equal, requests_equal, same_specification, validate_immutability,
}

-- A test that holds of equal values only.
abbrev pub IsSound : {A : Type 0} → (A → A → Bool) → Type 0
IsSound {A} eq = (x y : A) → eq x y ≡ true → x ≡ y

text_eq : (s t : Text) → (s =ᵗ t) ≡ true → s ≡ t
text_eq s t h = (text_eq_iff s t).0 h

module _ {A : Type 0} (eq : A → A → Bool) (sound : (x y : A) → eq x y ≡ true → x ≡ y) where
  list_equal-eq : (l m : List A) → list_equal eq l m ≡ true → l ≡ m
  list_equal-eq [] [] h = refl
  list_equal-eq [] (y ∷ m) h = cc
  list_equal-eq (x ∷ l) [] h = cc
  list_equal-eq (x ∷ l) (y ∷ m) h =
      let here = sound x y (and_left (eq x y) (list_equal eq l m) h) in
      let rest = list_equal-eq l m (and_right (eq x y) (list_equal eq l m) h) in cc

  slice_equal-eq : (l m : Slice A) → slice_equal eq l m ≡ true → l ≡ m
  slice_equal-eq none none h = refl
  slice_equal-eq none (some m) h = cc
  slice_equal-eq (some l) none h = cc
  slice_equal-eq (some l) (some m) h = ap some (list_equal-eq l m h)

pointers_equal-eq : (s t : Option Text) → pointers_equal s t ≡ true → s ≡ t
pointers_equal-eq none none h = refl
pointers_equal-eq none (some t) h = cc
pointers_equal-eq (some s) none h = cc
pointers_equal-eq (some s) (some t) h = ap some (text_eq s t h)

both : (a b : Bool) → (a && b) ≡ true → (a ≡ true) × (b ≡ true)
both a b h = (and_left a b h, and_right a b h)

module _ {P : Type 0} (deep_equal : P → P → Bool)
    (sound : (p q : P) → deep_equal p q ≡ true → p ≡ q) where
  parameters_equal-eq : (p q : Option P) → parameters_equal deep_equal p q ≡ true → p ≡ q
  parameters_equal-eq none none h = refl
  parameters_equal-eq none (some q) h = cc
  parameters_equal-eq (some p) none h = cc
  parameters_equal-eq (some p) (some q) h = ap some (sound p q h)

  requests_equal-eq : (q r : VerificationRequest P) → requests_equal deep_equal q r ≡ true → q ≡ r
  requests_equal-eq q r h =
      let (h4, timeout) = both _ _ h in
      let (h3, cwd) = both _ _ h4 in
      let (h2, parameters) = both _ _ h3 in
      let (id, profile) = both _ _ h2 in
      λ i. record {
        id = text_eq q.id r.id id i;
        profile_id = text_eq q.profile_id r.profile_id profile i;
        parameters = parameters_equal-eq q.parameters r.parameters parameters i;
        cwd = text_eq q.cwd r.cwd cwd i;
        timeout_seconds = ==ℤ-eq q.timeout_seconds r.timeout_seconds timeout i;
      }

  same_specification-eq :
      (a b : TaskContract P)
      → a.contract_id ≡ b.contract_id
      → same_specification deep_equal a b ≡ true
      → record a { is_immutable = b.is_immutable } ≡ b
  unfolding same_specification
  same_specification-eq a b same h16 =
      let (h15, stop_conditions) = both _ _ h16 in
      let (h14, required_evidence) = both _ _ h15 in
      let (h13, verification_requests) = both _ _ h14 in
      let (h12, acceptance_criteria) = both _ _ h13 in
      let (h11, constraints) = both _ _ h12 in
      let (h10, forbidden_scope) = both _ _ h11 in
      let (h9, allowed_scope) = both _ _ h10 in
      let (h8, architecture_refs) = both _ _ h9 in
      let (h7, requirements) = both _ _ h8 in
      let (h6, report_contract) = both _ _ h7 in
      let (h5, worker_profile) = both _ _ h6 in
      let (h4, base_sha) = both _ _ h5 in
      let (h3, objective) = both _ _ h4 in
      let (h2, phase_id) = both _ _ h3 in
      let (h1, revision_number) = both _ _ h2 in
      let (supersedes_contract_id, task_id) = both _ _ h1 in
      λ i. record {
        contract_id = same i;
        task_id = text_eq a.task_id b.task_id task_id i;
        revision_number = ==ℤ-eq a.revision_number b.revision_number revision_number i;
        supersedes_contract_id =
            pointers_equal-eq a.supersedes_contract_id b.supersedes_contract_id
              supersedes_contract_id i;
        phase_id = text_eq a.phase_id b.phase_id phase_id i;
        objective = text_eq a.objective b.objective objective i;
        requirements =
            slice_equal-eq (λ s t. s =ᵗ t) text_eq a.requirements b.requirements requirements i;
        architecture_refs =
            slice_equal-eq (λ s t. s =ᵗ t) text_eq a.architecture_refs b.architecture_refs
              architecture_refs i;
        base_sha = text_eq a.base_sha b.base_sha base_sha i;
        allowed_scope =
            slice_equal-eq (λ s t. s =ᵗ t) text_eq a.allowed_scope b.allowed_scope allowed_scope i;
        forbidden_scope =
            slice_equal-eq (λ s t. s =ᵗ t) text_eq a.forbidden_scope b.forbidden_scope
              forbidden_scope i;
        constraints =
            slice_equal-eq (λ s t. s =ᵗ t) text_eq a.constraints b.constraints constraints i;
        acceptance_criteria =
            slice_equal-eq (λ s t. s =ᵗ t) text_eq a.acceptance_criteria b.acceptance_criteria
              acceptance_criteria i;
        verification_requests =
            slice_equal-eq (requests_equal deep_equal) requests_equal-eq a.verification_requests
              b.verification_requests verification_requests i;
        required_evidence =
            slice_equal-eq (λ s t. s =ᵗ t) text_eq a.required_evidence b.required_evidence
              required_evidence i;
        worker_profile = text_eq a.worker_profile b.worker_profile worker_profile i;
        report_contract = text_eq a.report_contract b.report_contract report_contract i;
        stop_conditions =
            slice_equal-eq (λ s t. s =ᵗ t) text_eq a.stop_conditions b.stop_conditions
              stop_conditions i;
        is_immutable = b.is_immutable;
      }

  -- ValidateImmutability accepts a candidate with the identity of an immutable contract only if it is
  -- that contract in every field that is serialized, where equal parameters are the same.
  pub validate_immutability-eq :
      (original candidate : TaskContract P)
      → original.is_immutable ≡ true
      → original.contract_id ≡ candidate.contract_id
      → validate_immutability deep_equal original candidate ≡ ok tt
      → record original { is_immutable = candidate.is_immutable } ≡ candidate
  unfolding validate_immutability
  validate_immutability-eq original candidate frozen same h =
      let equal = (text_eq_iff original.contract_id candidate.contract_id).1 same in
      same_specification-eq original candidate same (guard-eq-ok _ _ (rw (equal, frozen) at h))
