-- ===== src/Contract/Values.antt =====
-- The values that internal/contract validates: domain.TaskContract of internal/domain/entities.go,
-- domain.VerificationProfilePolicy of internal/domain/verification_policy.go, and the errors of
-- internal/contract/errors.go, without their messages and causes.
use ai_supervisor.Base.{ℕ, zero, suc, ◌+◌, Bool, true, false, ◌==◌, ltb, ◌≡◌, ap, arith}
use ai_supervisor.Base.Text.{Text, codes}

-- A Go int, which is -(n + 1) in the second case.
pub data ℤ : Type 0 where
  pos : ℕ → ℤ
  negsuc : ℕ → ℤ

abbrev pub is_positive : ℤ → Bool
is_positive (pos n) = ltb 0 n
is_positive (negsuc n) = false

abbrev pub is_negative : ℤ → Bool
is_negative (pos n) = false
is_negative (negsuc n) = true

infix 50 ◌==ℤ◌
abbrev pub ◌==ℤ◌ : ℤ → ℤ → Bool
pos m ==ℤ pos n = m == n
negsuc m ==ℤ negsuc n = m == n
pos m ==ℤ negsuc n = false
negsuc m ==ℤ pos n = false

pub ==ℤ-eq : (a b : ℤ) → (a ==ℤ b) ≡ true → a ≡ b
==ℤ-eq (pos m) (pos n) h = ap pos (ground arith)
==ℤ-eq (pos m) (negsuc n) h = cc
==ℤ-eq (negsuc m) (pos n) h = cc
==ℤ-eq (negsuc m) (negsuc n) h = ap negsuc (ground arith)

-- `a > b`
abbrev pub gtb : ℤ → ℤ → Bool
gtb (pos m) (pos n) = ltb n m
gtb (pos m) (negsuc n) = true
gtb (negsuc m) (pos n) = false
gtb (negsuc m) (negsuc n) = ltb m n

-- `n + 1`
abbrev pub next : ℤ → ℤ
next (pos n) = pos (n + 1)
next (negsuc zero) = pos 0
next (negsuc (suc n)) = negsuc n

pub data Category : Type 0 where
  schema : Category
  lineage : Category
  immutability : Category
  verification_profile : Category
  path_containment : Category
  scope_pattern : Category

-- The Field of an error: none, a text, or a field of the i-th verification request.
pub data Field : Type 0 where
  no_field : Field
  named : Text → Field
  of_request : ℕ → Text → Field

pub record ValidationError : Type 0 where
  pub category : Category
  pub field : Field

abbrev pub schema_error : ValidationError
schema_error = record { category = schema; field = no_field }

abbrev pub lineage_error : ValidationError
lineage_error = record { category = lineage; field = no_field }

abbrev pub immutability_error : ValidationError
immutability_error = record { category = immutability; field = no_field }

abbrev pub profile_error : Field → ValidationError
profile_error f = record { category = verification_profile; field = f }

abbrev pub path_error : Text → ValidationError
path_error f = record { category = path_containment; field = named f }

abbrev pub scope_error : ValidationError
scope_error = record { category = scope_pattern; field = named (codes "pattern") }
