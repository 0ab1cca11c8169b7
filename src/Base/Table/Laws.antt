-- ===== src/Base/Table/Laws.antt =====
-- Laws of the table statements: counts and updates, rows found, and how a table grows.
use ai_supervisor.Base.Tests.{if◌then◌else◌, Bool-cases}
use ai_supervisor.Base.Lists.{All}
use ai_supervisor.Base.Table.{find, exists_row, count, update, insert}
use Prim.Native.Nat.{◌+◌, ◌≤◌}
use mathlib.Core.Path.{◌≡◌, refl, subst, ◌∙◌}
use mathlib.Core.Logic.{◌⊎◌, inl, inr}
use mathlib.Core.Bool.{Bool, true, false}
use mathlib.Core.Option.{none, some}
use mathlib.Core.List.{List, [], ◌∷◌, ◌++◌}
use native.Mathlib.Omega.{arith}

-- The row after an update.
abbrev pub updated : {A : Type 0} → (A → Bool) → (A → A) → A → A
updated p u a = if p a then u a else a

module _ {A : Type 0} where
  pub find-holds : (p : A → Bool) (l : List A) {a : A} → find p l ≡ some a → p a ≡ true
  unfolding find
  find-holds p [] e = cc
  find-holds p (b ∷ l) {a} e =
      let rest : find p l ≡ some a → p a ≡ true = find-holds p l in ground arith

  pub find-none-count : (p : A → Bool) (l : List A) → find p l ≡ none → count p l ≡ 0
  unfolding find count
  find-none-count p [] e = refl
  find-none-count p (b ∷ l) e = ground (arith, find-none-count p l)

  pub count-zero_of_not_exists :
      (p : A → Bool) (l : List A) → exists_row p l ≡ false → count p l ≡ 0
  unfolding exists_row count
  count-zero_of_not_exists p [] e = refl
  count-zero_of_not_exists p (b ∷ l) e = ground (arith, count-zero_of_not_exists p l)

  pub count-insert :
      (p : A → Bool) (a : A) (l : List A)
      → count p (insert a l) ≡ count p l + (if p a then 1 else 0)
  unfolding count insert
  count-insert p a [] = ground arith
  count-insert p a (b ∷ l) = omega (arith, count-insert p a l)

  -- Rows that satisfy `f` after an update satisfied `g` or `h` before.
  pub count-update_le :
      (f g h p : A → Bool) (u : A → A) (l : List A)
      → All (λ a. f (updated p u a) ≡ true → (g a ≡ true) ⊎ (h a ≡ true)) l
      → count f (update p u l) ≤ count g l + count h l
  unfolding count update
  count-update_le f g h p u [] hyp = omega arith
  count-update_le f g h p u (a ∷ l) hyp =
      let here = hyp.0 in let rest = count-update_le f g h p u l hyp.1 in ground arith

  pub count-update_mono :
      (f p : A → Bool) (u : A → A) (l : List A)
      → All (λ a. f (updated p u a) ≡ true → f a ≡ true) l
      → count f (update p u l) ≤ count f l
  unfolding count update
  count-update_mono f p u [] hyp = omega arith
  count-update_mono f p u (a ∷ l) hyp =
      let here = hyp.0 in let rest = count-update_mono f p u l hyp.1 in ground arith

  pub count-le :
      (f g : A → Bool) (l : List A) → ((a : A) → f a ≡ true → g a ≡ true) → count f l ≤ count g l
  unfolding count
  count-le f g [] hyp = omega arith
  count-le f g (a ∷ l) hyp = ground (arith, hyp a, count-le f g l hyp)

  pub count-update_eq :
      (f p : A → Bool) (u : A → A) (l : List A)
      → ((a : A) → f (u a) ≡ f a)
      → count f (update p u l) ≡ count f l
  unfolding count update
  count-update_eq f p u [] hyp = refl
  count-update_eq f p u (a ∷ l) hyp = ground (arith, hyp a, count-update_eq f p u l hyp)

  pub exists_row-update_eq :
      (f p : A → Bool) (u : A → A) (l : List A)
      → ((a : A) → f (updated p u a) ≡ f a)
      → exists_row f (update p u l) ≡ exists_row f l
  unfolding exists_row update
  exists_row-update_eq f p u [] hyp = refl
  exists_row-update_eq f p u (a ∷ l) hyp = rw (hyp a) (rw (exists_row-update_eq f p u l hyp) refl)

  -- The row found after an update that keeps the test was found before.
  pub find-update :
      (f p : A → Bool) (u : A → A) (l : List A) {b : A}
      → ((a : A) → f (updated p u a) ≡ f a)
      → find f (update p u l) ≡ some b
      → (a : A) × (find f l ≡ some a) × (b ≡ updated p u a)
  unfolding find update
  find-update f p u [] hyp e = cc
  find-update f p u (a ∷ l) {b} hyp e = elim (Bool-cases (f a)) [
    | inl hit ↦
        let now : f (updated p u a) ≡ true = hyp a ∙ hit in
        let e' : some (updated p u a) ≡ some b = rw now at e in (a, rw hit refl, cc)
    | inr miss ↦
        let now : f (updated p u a) ≡ false = hyp a ∙ miss in
        let e' : find f (update p u l) ≡ some b = rw now at e in
        let (r, found, same) = find-update f p u l hyp e' in (r, rw miss found, same)
  ]

  pub All-pure : {P : A → Type 0} (l : List A) → ((a : A) → P a) → All P l
  All-pure [] h = tt
  All-pure (a ∷ l) h = (h a, All-pure l h)

  pub All-map : {P Q : A → Type 0} (l : List A) → ((a : A) → P a → Q a) → All P l → All Q l
  All-map [] h t = tt
  All-map (a ∷ l) h t = (h a t.0, All-map l h t.1)

  pub All-zip :
      {P Q R : A → Type 0} (l : List A) → ((a : A) → P a → Q a → R a) → All P l → All Q l → All R l
  All-zip [] h s t = tt
  All-zip (a ∷ l) h s t = (h a s.0 t.0, All-zip l h s.1 t.1)

  All-absent : (p : A → Bool) (l : List A) → count p l ≡ 0 → All (λ a. p a ≡ false) l
  unfolding count
  All-absent p [] h = tt
  All-absent p (a ∷ l) h = (ground arith, All-absent p l (ground arith))

  pub All-insert : (P : A → Type 0) (a : A) (l : List A) → P a → All P l → All P (insert a l)
  unfolding insert
  All-insert P a [] p h = (p, tt)
  All-insert P a (b ∷ l) p h = (h.0, All-insert P a l p h.1)

  pub All-update :
      (P : A → Type 0) (p : A → Bool) (u : A → A) (l : List A)
      → All (λ a. P (updated p u a)) l
      → All P (update p u l)
  unfolding update
  All-update P p u [] h = tt
  All-update P p u (a ∷ l) h = (h.0, All-update P p u l h.1)

  pub All-find :
      (P : A → Type 0) (p : A → Bool) (l : List A) {a : A} → All P l → find p l ≡ some a → P a
  unfolding find
  All-find P p [] h e = absurd (cc)
  All-find P p (b ∷ l) {a} h e = elim (Bool-cases (p b)) [
    | inl t ↦ let same : b ≡ a = ground arith in subst P same h.0
    | inr f ↦ All-find P p l h.1 (ground arith)
  ]

  -- Where at most one row satisfies `p`, it is the row that a query finds.
  pub All-found :
      (p : A → Bool) (l : List A) {a : A}
      → count p l ≤ 1
      → find p l ≡ some a
      → All (λ b. p b ≡ true → b ≡ a) l
  unfolding count find
  All-found p [] c e = tt
  All-found p (b ∷ l) {a} c e = elim (Bool-cases (p b)) [
    | inl t ↦ (
      λ h. ground arith,
      All-map l (λ x (h : p x ≡ false) k. absurd (ground arith)) (All-absent p l (ground arith)),
    )
    | inr f ↦ (λ h. absurd (ground arith), All-found p l (ground arith) (ground arith))
  ]

  -- A table that only grew, its old rows changed within `R`.
  abbrev pub Extends : (A → A → Type 0) → List A → List A → Type 0
  Extends R [] m = Unit
  Extends R (a ∷ l) [] = ⊥
  Extends R (a ∷ l) (b ∷ m) = R a b × Extends R l m

  pub Extends-refl : (R : A → A → Type 0) (l : List A) → ((a : A) → R a a) → Extends R l l
  Extends-refl R [] r = tt
  Extends-refl R (a ∷ l) r = (r a, Extends-refl R l r)

  pub Extends-insert :
      (R : A → A → Type 0) (b : A) (l : List A) → ((a : A) → R a a) → Extends R l (insert b l)
  unfolding insert
  Extends-insert R b [] r = tt
  Extends-insert R b (a ∷ l) r = (r a, Extends-insert R b l r)

  pub Extends-update :
      (R : A → A → Type 0) (p : A → Bool) (u : A → A) (l : List A)
      → All (λ a. R a (updated p u a)) l
      → Extends R l (update p u l)
  unfolding update
  Extends-update R p u [] h = tt
  Extends-update R p u (a ∷ l) h = (h.0, Extends-update R p u l h.1)

  pub Extends-trans :
      (R : A → A → Type 0) (l m n : List A)
      → ((a b c : A) → R a b → R b c → R a c)
      → Extends R l m
      → Extends R m n
      → Extends R l n
  Extends-trans R [] m n t s r = tt
  Extends-trans R (a ∷ l) [] n t s r = absurd s
  Extends-trans R (a ∷ l) (b ∷ m) [] t s r = absurd r
  Extends-trans R (a ∷ l) (b ∷ m) (c ∷ n) t s r = (t a b c s.0 r.0, Extends-trans R l m n t s.1 r.1)

  -- A row that a table had is found in the grown table, if the change keeps the test.
  pub Extends-find :
      (R : A → A → Type 0) (f : A → Bool) (l m : List A) {a : A}
      → ((x y : A) → R x y → f y ≡ f x)
      → Extends R l m
      → find f l ≡ some a
      → (b : A) × (find f m ≡ some b) × R a b
  unfolding find
  Extends-find R f [] m keep h e = cc
  Extends-find R f (x ∷ l) [] keep h e = absurd h
  Extends-find R f (x ∷ l) (y ∷ m) {a} keep h e = elim (Bool-cases (f x)) [
    | inl hit ↦
        let now : f y ≡ true = keep x y h.0 ∙ hit in
        let e' : some x ≡ some a = rw hit at e in
        let same : x ≡ a = cc in (y, rw now refl, subst (λ z. R z y) same h.0)
    | inr miss ↦
        let now : f y ≡ false = keep x y h.0 ∙ miss in
        let e' : find f l ≡ some a = rw miss at e in
        let (b, found, r) = Extends-find R f l m keep h.1 e' in (b, rw now found, r)
  ]

  -- A table that only got new rows.
  pub Extends-append : (l m : List A) → Extends ◌≡◌ l m → (new : List A) × (m ≡ l ++ new)
  Extends-append [] m h = (m, refl)
  Extends-append (x ∷ l) [] h = absurd h
  Extends-append (x ∷ l) (y ∷ m) h = let (new, e) = Extends-append l m h.1 in (new, cc)
