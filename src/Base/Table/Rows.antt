-- ===== src/Base/Table/Rows.antt =====
-- Laws of the rows that queries find, after an insertion and after an update.
use ai_supervisor.Base.Tests.{Bool-cases, Option-cases, ◌==◌, ltb}
use ai_supervisor.Base.Lists.{All, length}
use ai_supervisor.Base.Table.{find, exists_row, count, update, insert}
use ai_supervisor.Base.Table.Laws.{
  updated, Extends, find-none-count, count-le, All-map, All-found, All-find, find-holds,
}
use Prim.Native.Nat.{◌+◌, ◌≤◌}
use mathlib.Core.Path.{◌≡◌, refl, sym, ◌∙◌, ap}
use mathlib.Core.Logic.{◌≢◌, inl, inr}
use mathlib.Core.Bool.{Bool, true, false, ◌&&◌}
use mathlib.Core.Option.{none, some}
use mathlib.Core.List.{List, [], ◌∷◌}
use native.Mathlib.Omega.{arith}

module _ {A : Type 0} where
  pub update-find :
      (f p : A → Bool) (u : A → A) (l : List A) {a : A}
      → ((x : A) → f (updated p u x) ≡ f x)
      → find f l ≡ some a
      → find f (update p u l) ≡ some (updated p u a)
  unfolding find update
  update-find f p u [] hyp e = cc
  update-find f p u (x ∷ l) {a} hyp e = elim (Bool-cases (f x)) [
    | inl hit ↦
        let now : f (updated p u x) ≡ true = hyp x ∙ hit in
        let e' : some x ≡ some a = rw hit at e in let same : x ≡ a = cc in rw now (rw same refl)
    | inr miss ↦
        let now : f (updated p u x) ≡ false = hyp x ∙ miss in
        let e' : find f l ≡ some a = rw miss at e in rw now (update-find f p u l hyp e')
  ]

  pub insert-find :
      (f : A → Bool) (a : A) (l : List A)
      → exists_row f l ≡ false
      → f a ≡ true
      → find f (insert a l) ≡ some a
  unfolding find insert exists_row
  insert-find f a [] e h = rw h refl
  insert-find f a (x ∷ l) e h = ground (arith, insert-find f a l)

  pub not_exists-find : (f : A → Bool) (l : List A) → exists_row f l ≡ false → find f l ≡ none
  unfolding find exists_row
  not_exists-find f [] e = refl
  not_exists-find f (x ∷ l) e = ground (arith, not_exists-find f l)

  pub exists_row-weaken :
      (f g : A → Bool) (l : List A)
      → ((a : A) → f a ≡ true → g a ≡ true)
      → exists_row g l ≡ false
      → exists_row f l ≡ false
  unfolding exists_row
  exists_row-weaken f g [] hyp e = refl
  exists_row-weaken f g (x ∷ l) hyp e = ground (arith, hyp x, exists_row-weaken f g l hyp)

  pub exists_row-find :
      (f : A → Bool) (l : List A) → exists_row f l ≡ true → (a : A) × (find f l ≡ some a)
  unfolding exists_row find
  exists_row-find f [] e = cc
  exists_row-find f (x ∷ l) e = elim (Bool-cases (f x)) [
    | inl hit ↦ (x, rw hit refl)
    | inr miss ↦
        let e' : exists_row f l ≡ true = rw miss at e in
        let (a, found) = exists_row-find f l e' in (a, rw miss found)
  ]

  pub find-exists_row :
      (f g : A → Bool) (l : List A) {a : A} → find f l ≡ some a → g a ≡ true → exists_row g l ≡ true
  unfolding find exists_row
  find-exists_row f g [] e h = cc
  find-exists_row f g (x ∷ l) {a} e h = elim (Bool-cases (f x)) [
    | inl hit ↦
        let e' : some x ≡ some a = rw hit at e in
        let same : a ≡ x = cc in let here : g x ≡ true = rw same at h in ground arith
    | inr miss ↦
        let e' : find f l ≡ some a = rw miss at e in
        let rest = find-exists_row f g l e' h in ground arith
  ]

  pub All-not_exists :
      (f : A → Bool) (l : List A) → exists_row f l ≡ false → All (λ a. f a ≡ false) l
  unfolding exists_row
  All-not_exists f [] e = tt
  All-not_exists f (x ∷ l) e = (ground arith, All-not_exists f l (ground arith))

  pub exists_row-insert_self :
      (f : A → Bool) (a : A) (l : List A) → f a ≡ true → exists_row f (insert a l) ≡ true
  unfolding exists_row insert
  exists_row-insert_self f a [] h = ground arith
  exists_row-insert_self f a (x ∷ l) h = let rest = exists_row-insert_self f a l h in ground arith

  pub exists_row-update_mono :
      (f p : A → Bool) (u : A → A) (l : List A)
      → ((a : A) → f a ≡ true → f (updated p u a) ≡ true)
      → exists_row f l ≡ true
      → exists_row f (update p u l) ≡ true
  unfolding exists_row update
  exists_row-update_mono f p u [] hyp e = cc
  exists_row-update_mono f p u (x ∷ l) hyp e =
      let here = hyp x in let rest = exists_row-update_mono f p u l hyp in ground arith

  pub exists_row-insert :
      (f : A → Bool) (a : A) (l : List A) → exists_row f l ≡ true → exists_row f (insert a l) ≡ true
  unfolding exists_row insert
  exists_row-insert f a [] e = cc
  exists_row-insert f a (x ∷ l) e = ground (arith, exists_row-insert f a l)

  pub exists_row-Extends :
      (R : A → A → Type 0) (f : A → Bool) (l m : List A)
      → ((x y : A) → R x y → f x ≡ true → f y ≡ true)
      → Extends R l m
      → exists_row f l ≡ true
      → exists_row f m ≡ true
  unfolding exists_row
  exists_row-Extends R f [] m keep h e = cc
  exists_row-Extends R f (x ∷ l) [] keep h e = absurd h
  exists_row-Extends R f (x ∷ l) (y ∷ m) keep h e =
      let here = keep x y h.0 in let rest = exists_row-Extends R f l m keep h.1 in ground arith

  -- Where every row of a test is `a`, and some row passes it and another test, `a` passes that.
  pub only-holds :
      (f g : A → Bool) (l : List A) {a : A}
      → All (λ b. f b ≡ true → b ≡ a) l
      → count (λ b. f b && g b) l ≢ 0
      → g a ≡ true
  unfolding count
  only-holds f g [] h e = absurd (e refl)
  only-holds f g (x ∷ l) {a} h e = elim (Bool-cases (f x && g x)) [
    | inl hit ↦
        let same : x ≡ a = h.0 (ground arith) in
        let g_x : g x ≡ true = ground arith in rw same at g_x
    | inr miss ↦
        let e' : 0 + count (λ b. f b && g b) l ≢ 0 = rw miss at e in
        only-holds f g l h.1 (λ z. e' (omega (arith, z)))
  ]

  none-passes : (f : A → Bool) (l : List A) → All (λ b. f b ≡ false) l → count f l ≡ 0
  unfolding count
  none-passes f [] h = refl
  none-passes f (x ∷ l) h = let rest = none-passes f l h.1 in let here = h.0 in ground arith

  -- A conditional update of one row, where the row's key is unique: the row was found by the key,
  -- passed the condition, and is found as the update left it.
  pub cas-find :
      (f q : A → Bool) (u : A → A) (l : List A)
      → ((x : A) → q x ≡ true → f x ≡ true)
      → ((x : A) → f (u x) ≡ f x)
      → count f l ≤ 1
      → (count q l == 1) ≡ true
      → (a : A) × (find f l ≡ some a) × (q a ≡ true) × (find f (update q u l) ≡ some (u a))
  cas-find f q u l own keep unique one = elim (Option-cases (find f l)) [
    | inl none_found ↦
        let no_f = find-none-count f l none_found in
        let fewer = count-le q f l own in absurd (ground arith)
    | inr (a, found) ↦ elim (Bool-cases (q a)) [
      | inl hit ↦ (
        a,
        found,
        hit,
        update-find f q u l
              (λ x. elim (Bool-cases (q x)) [ inl now ↦ rw now (keep x) | inr miss ↦ rw miss refl ])
              found
            ∙ ap some (rw hit refl),
      )
      | inr miss ↦
          let zero_rows = none-passes q l (
            All-map l
              (λ x (only : f x ≡ true → x ≡ a). elim (Bool-cases (q x)) [
                | inl now ↦
                    let same : x ≡ a = only (own x now) in
                    let now' : q a ≡ true = rw same at now in absurd (cc)
                | inr none_now ↦ none_now
              ])
              (All-found f l unique found)) in
          absurd (ground arith)
    ]
  ]

  -- The same, where at least one row passed.
  pub cas-found :
      (f q : A → Bool) (u : A → A) (l : List A)
      → ((x : A) → q x ≡ true → f x ≡ true)
      → ((x : A) → f (u x) ≡ f x)
      → count f l ≤ 1
      → ltb 0 (count q l) ≡ true
      → (a : A) × (find f l ≡ some a) × (q a ≡ true) × (find f (update q u l) ≡ some (u a))
  cas-found f q u l own keep unique hit =
      let fewer = count-le q f l own in cas-find f q u l own keep unique (ground arith)

  -- The row that a narrower query finds, where the key is unique.
  pub find-widen :
      (f q : A → Bool) (l : List A) {a : A}
      → ((x : A) → q x ≡ true → f x ≡ true)
      → count f l ≤ 1
      → find q l ≡ some a
      → find f l ≡ some a
  find-widen f q l {a} own unique e =
      let hit : f a ≡ true = own a (find-holds q l e) in
      let (b, found) = exists_row-find f l (find-exists_row q f l e hit) in
      let same : a ≡ b =
        All-find (λ y. f y ≡ true → y ≡ b) q l (All-found f l unique found) e hit in
      found ∙ ap some (sym same)

  -- A further test of the one row of a key.
  pub found-exists_row :
      (f g : A → Bool) (l : List A) {a : A}
      → count f l ≤ 1
      → find f l ≡ some a
      → exists_row (λ x. f x && g x) l ≡ g a
  found-exists_row f g l {a} unique found = elim (Bool-cases (g a)) [
    | inl yes_a ↦
        let hit : f a ≡ true = find-holds f l found in
        find-exists_row f (λ x. f x && g x) l found (rw hit yes_a) ∙ sym yes_a
    | inr no_a ↦ elim (Bool-cases (exists_row (λ x. f x && g x) l)) [
      | inl some_row ↦
          let (b, again) = exists_row-find (λ x. f x && g x) l some_row in
          let passed : (f b && g b) ≡ true = find-holds (λ x. f x && g x) l again in
          let widened : find f l ≡ some b =
            find-widen f (λ x. f x && g x) l (λ x h. ground arith) unique again in
          let same : some a ≡ some b = sym found ∙ widened in
          let here : a ≡ b = cc in let no_b : g b ≡ false = rw here at no_a in absurd (ground arith)
      | inr none_row ↦ none_row ∙ sym no_a
    ]
  ]

  pub missing-exists_row :
      (f g : A → Bool) (l : List A) → find f l ≡ none → exists_row (λ x. f x && g x) l ≡ false
  unfolding find exists_row
  missing-exists_row f g [] e = refl
  missing-exists_row f g (x ∷ l) e = ground (arith, missing-exists_row f g l)

  pub count-found :
      (p : A → Bool) (l : List A) {a : A} → find p l ≡ some a → (count p l == 0) ≡ false
  unfolding find count
  count-found p [] e = cc
  count-found p (x ∷ l) {a} e =
      let rest : find p l ≡ some a → (count p l == 0) ≡ false = count-found p l in ground arith

  pub count-length : (f : A → Bool) (l : List A) → count f l ≤ length l
  unfolding count
  count-length f [] = omega arith
  count-length f (x ∷ l) = let rest = count-length f l in ground arith
