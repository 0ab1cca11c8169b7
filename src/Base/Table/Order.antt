-- ===== src/Base/Table/Order.antt =====
-- ORDER BY a text column, and what it leaves of the rows.
use ai_supervisor.Base.Tests.{if◌then◌else◌, Bool-cases}
use ai_supervisor.Base.Lists.{length, All}
use ai_supervisor.Base.Text.{Text, text_leb}
use ai_supervisor.Base.Table.{exists_row, count}
use Prim.Native.Nat.{◌+◌}
use mathlib.Core.Path.{◌≡◌, refl, ◌∙◌}
use mathlib.Core.Logic.{inl, inr}
use mathlib.Core.Bool.{Bool, ◌||◌}
use mathlib.Core.List.{List, [], ◌∷◌}
use native.Mathlib.Omega.{arith}

module _ {A : Type 0} where
  unfoldable pub place_by : (A → Text) → A → List A → List A
  place_by key a [] = a ∷ []
  place_by key a (b ∷ l) =
      let rest = place_by key a l in if text_leb (key a) (key b) then a ∷ b ∷ l else b ∷ rest

  -- ORDER BY key
  unfoldable pub order_by : (A → Text) → List A → List A
  order_by key [] = []
  order_by key (a ∷ l) = place_by key a (order_by key l)

  -- SELECT … WHERE p
  unfoldable pub select : (A → Bool) → List A → List A
  select p [] = []
  select p (a ∷ l) = let rest = select p l in if p a then a ∷ rest else rest

  exists_row-place_by :
      (f : A → Bool) (key : A → Text) (a : A) (l : List A)
      → exists_row f (place_by key a l) ≡ (f a || exists_row f l)
  unfolding exists_row place_by
  exists_row-place_by f key a [] = refl
  exists_row-place_by f key a (b ∷ l) =
      let rest = exists_row-place_by f key a l in
      elim (Bool-cases (text_leb (key a) (key b))) [
        | inl le ↦ rw le refl
        | inr gt ↦ rw gt (rw rest (ground arith))
      ]

  pub exists_row-order_by :
      (f : A → Bool) (key : A → Text) (l : List A) → exists_row f (order_by key l) ≡ exists_row f l
  unfolding exists_row order_by
  exists_row-order_by f key [] = refl
  exists_row-order_by f key (a ∷ l) =
      exists_row-place_by f key a (order_by key l) ∙ rw (exists_row-order_by f key l) refl

  length-place_by : (key : A → Text) (a : A) (l : List A) → length (place_by key a l) ≡ length l + 1
  unfolding place_by
  length-place_by key a [] = refl
  length-place_by key a (b ∷ l) =
      let rest = length-place_by key a l in
      elim (Bool-cases (text_leb (key a) (key b))) [
        | inl le ↦ rw le (omega arith)
        | inr gt ↦ rw gt (omega (arith, rest))
      ]

  pub length-order_by : (key : A → Text) (l : List A) → length (order_by key l) ≡ length l
  unfolding order_by
  length-order_by key [] = refl
  length-order_by key (a ∷ l) =
      let here = length-place_by key a (order_by key l) in
      let rest = length-order_by key l in omega (arith, here, rest)

  pub length-select : (p : A → Bool) (l : List A) → length (select p l) ≡ count p l
  unfolding select count
  length-select p [] = refl
  length-select p (a ∷ l) = let rest = length-select p l in ground arith

  pub All-place_by :
      (P : A → Type 0) (key : A → Text) (a : A) (l : List A)
      → P a
      → All P l
      → All P (place_by key a l)
  unfolding place_by
  All-place_by P key a [] p h = (p, tt)
  All-place_by P key a (b ∷ l) p h =
      let rest = All-place_by P key a l p h.1 in
      elim (Bool-cases (text_leb (key a) (key b))) [
        | inl le ↦ rw le (p, h)
        | inr gt ↦ rw gt (h.0, rest)
      ]

  pub All-order_by :
      (P : A → Type 0) (key : A → Text) (l : List A) → All P l → All P (order_by key l)
  unfolding order_by
  All-order_by P key [] h = tt
  All-order_by P key (a ∷ l) h =
      All-place_by P key a (order_by key l) h.0 (All-order_by P key l h.1)
