-- ===== src/Base/Table.antt =====
-- A table of the database as the list of its rows, in the order of insertion, with the statements
-- that the code issues: a query for one row, a conditional update with its count of rows, a count.
pub mod Laws
pub mod Rows
pub mod Order
use ai_supervisor.Base.Tests.{if◌then◌else◌}
use Prim.Native.Nat.{ℕ, ◌+◌}
use mathlib.Core.Bool.{Bool, false, ◌||◌}
use mathlib.Core.Option.{Option, none, some}
use mathlib.Core.List.{List, [], ◌∷◌, ◌++◌}

module _ {A : Type 0} where
  -- SELECT … WHERE p LIMIT 1
  unfoldable pub find : (A → Bool) → List A → Option A
  find p [] = none
  find p (a ∷ l) = if p a then some a else find p l

  -- EXISTS(SELECT 1 … WHERE p)
  unfoldable pub exists_row : (A → Bool) → List A → Bool
  exists_row p [] = false
  exists_row p (a ∷ l) = p a || exists_row p l

  -- SELECT COUNT(*) … WHERE p; for an UPDATE … WHERE p, its RowsAffected
  unfoldable pub count : (A → Bool) → List A → ℕ
  count p [] = 0
  count p (a ∷ l) = (if p a then 1 else 0) + count p l

  -- UPDATE … SET u WHERE p
  unfoldable pub update : (A → Bool) → (A → A) → List A → List A
  update p u [] = []
  update p u (a ∷ l) = (if p a then u a else a) ∷ update p u l

  -- INSERT
  unfoldable pub insert : A → List A → List A
  insert a [] = a ∷ []
  insert a (b ∷ l) = b ∷ insert a l
