-- ===== src/Contract/Paths/Containment.antt =====
-- Where an accepted working directory of internal/contract/path_policy.go leads.
use ai_supervisor.Base.{
  ◌≡◌, refl, sym, ap, ◌∙◌, subst, Bool, true, false, ◌||◌, Option, none, some, List, [], ◌∷◌, ◌++◌,
  Result, ok, ◌>>=◌, ◌>>◌, guard, or_fail, if◌then◌else◌, ◌⊎◌, inl, inr, All, arith, Bool-cases,
  guard->>-eq-ok, >>=-eq-ok, or_fail-eq-ok, guard-eq-ok,
}
use ai_supervisor.Base.Text.{Text, codes, ◌=ᵗ◌}
use ai_supervisor.Contract.Values.{ValidationError}
use ai_supervisor.Contract.Scope.{split_slash}
use ai_supervisor.Contract.Paths.{
  Entry, present, absent, unreadable, Platform, cwd_error, is_last, is_skipped, inspect,
  is_within_root, canonical_root, check_lexical, enter, walk, policy_or_default, check_contained,
  validate_cwd_containment,
}

-- An existing component is followed to what it resolves to.
abbrev pub follow : (Text → Option Text) → Entry → Option Text → Option Text
follow onward present (some real) = onward real
follow onward present none = none
follow onward absent real = none
follow onward unreadable real = none

module _ (fs : Platform) where
  -- Where the system arrives on the components one after the other, if all of them exist.
  unfoldable pub resolve : Text → List Text → Option Text
  resolve current [] = some current
  resolve current (comp ∷ components) =
      let next_path = fs.join current (fs.from_slash comp) in
      let stayed = resolve current components in
      let followed =
        follow (λ real. resolve real components) (fs.lstat next_path)
          (fs.eval_symlinks next_path) in
      if is_skipped comp then stayed else followed

  enter-eq-ok :
      (root next_path : Text) (last : Bool) {real : Text}
      → enter fs root next_path last ≡ ok real
      → (fs.eval_symlinks next_path ≡ some real) × (is_within_root fs real root ≡ true)
  unfolding enter
  enter-eq-ok root next_path last {real} h =
      let (r, resolved, h1) = >>=-eq-ok _ _ h in
      let (inside, h2) = guard->>-eq-ok _ _ _ h1 in
      let same = by_last r last h2 in
      (
        or_fail-eq-ok _ _ resolved ∙ ap some same,
        subst (λ x. is_within_root fs x root ≡ true) same inside,
      )
    where
      by_last :
          (r : Text) (b : Bool)
          → (if b
              then ok r
              else (or_fail (fs.stat r) cwd_error >>= λ is_dir. guard is_dir cwd_error >> ok r))
            ≡ ok real
          → r ≡ real
      by_last r true e = cc
      by_last r false e =
          let (d, found, e1) = >>=-eq-ok _ _ e in let (dir, e2) = guard->>-eq-ok _ _ _ e1 in cc

  abbrev pub Inside : Text → Text → Type 0
  Inside root p = (p ≡ root) ⊎ (is_within_root fs p root ≡ true)

  -- One existing component: it is entered, and the walk goes on from what it resolves to.
  onward :
      (root next_path : Text) (xs : List Text) (last : Bool)
      (go : Text → Result ValidationError (Unit {0})) (entry : Entry) {p : Text}
      → ((real : Text)
          → Inside root real
          → go real ≡ ok tt
          → resolve real xs ≡ some p
          → Inside root p)
      → inspect entry (enter fs root next_path last >>= go) ≡ ok tt
      → follow (λ real. resolve real xs) entry (fs.eval_symlinks next_path) ≡ some p
      → Inside root p
  onward root next_path xs last go present {p} next h e =
      let (real, entered, h1) = >>=-eq-ok _ _ h in
      let (resolved, inside) = enter-eq-ok root next_path last entered in
      next real (inr inside) h1 (sym (ap (follow (λ r. resolve r xs) present) resolved) ∙ e)
  onward root next_path xs last go absent next h e = cc
  onward root next_path xs last go unreadable next h e = cc

  walk-Inside :
      (root current : Text) (xs ys : List Text) {p : Text}
      → Inside root current
      → walk fs root current (xs ++ ys) ≡ ok tt
      → resolve current xs ≡ some p
      → Inside root p
  unfolding walk resolve
  walk-Inside root current [] ys {p} inside h e =
      let same : current ≡ p = cc in subst (Inside root) same inside
  walk-Inside root current (comp ∷ xs) ys {p} inside h e = elim (Bool-cases (is_skipped comp)) [
    | inl skipped ↦ walk-Inside root current xs ys inside (rw skipped at h) (rw skipped at e)
    | inr kept ↦
        onward root (fs.join current (fs.from_slash comp)) xs (is_last (xs ++ ys))
          (λ real. walk fs root real (xs ++ ys)) (fs.lstat (fs.join current (fs.from_slash comp)))
          (λ real near h' e'. walk-Inside root real xs ys near h' e') (rw kept at h) (rw kept at e)
  ]

  -- "." and the empty text have one component, which is passed over.
  stays-Inside :
      (root : Text) (xs ys : List Text) {p : Text}
      → All (λ c. is_skipped c ≡ true) (xs ++ ys)
      → resolve root xs ≡ some p
      → Inside root p
  unfolding resolve
  stays-Inside root [] ys h e = inl (cc)
  stays-Inside root (c ∷ xs) ys h e = let here = h.0 in stays-Inside root xs ys h.1 (rw here at e)

  here-skipped :
      (s : Text)
      → (s =ᵗ codes "." || s =ᵗ []) ≡ true
      → All (λ c. is_skipped c ≡ true) (split_slash s)
  unfolding split_slash ◌=ᵗ◌
  here-skipped [] h = (refl, tt)
  here-skipped (b ∷ []) h = let e : b ≡ b'.' = ground arith in rw e (refl, tt)
  here-skipped (b ∷ c ∷ s) h = absurd (ground arith)

  staying :
      (root s : Text) (xs ys : List Text) {p : Text}
      → split_slash s ≡ xs ++ ys
      → resolve root xs ≡ some p
      → (s =ᵗ codes "." || s =ᵗ []) ≡ true
      → Inside root p
  staying root s xs ys parts e here =
      stays-Inside root xs ys (subst (All (λ c. is_skipped c ≡ true)) parts (here-skipped s here)) e

  by_policy :
      (root s : Text) (xs ys : List Text) (at_root : Bool) {p : Text}
      → split_slash s ≡ xs ++ ys
      → resolve root xs ≡ some p
      → (if at_root then guard (s =ᵗ codes "." || s =ᵗ []) cwd_error else check_contained fs root s)
        ≡ ok tt
      → Inside root p
  unfolding check_contained
  by_policy root s xs ys true parts e h = staying root s xs ys parts e (guard-eq-ok _ _ h)
  by_policy root s xs ys false {p} parts e h = elim (Bool-cases (s =ᵗ codes "." || s =ᵗ [])) [
    | inl here ↦ staying root s xs ys parts e here
    | inr deeper ↦
        let (lexical, h1) = guard->>-eq-ok _ _ _ (rw deeper at h) in
        walk-Inside root root xs ys (inl refl) (subst (λ l. walk fs root root l ≡ ok tt) parts h1) e
  ]

  -- Whatever the policy, every existing beginning of an accepted working directory leads to the root
  -- or, with its links resolved, to a place within the root: `xs` are the first components of the
  -- path as it was canonicalized, and `p` is where the system arrives on them.
  pub validate_cwd_containment-Inside :
      (cwd worktree_root cwd_policy root canonical_slash : Text) (xs ys : List Text) {p : Text}
      → validate_cwd_containment fs cwd worktree_root cwd_policy ≡ ok tt
      → canonical_root fs worktree_root ≡ ok root
      → check_lexical fs cwd ≡ ok canonical_slash
      → split_slash canonical_slash ≡ xs ++ ys
      → resolve root xs ≡ some p
      → (p ≡ root) ⊎ (is_within_root fs p root ≡ true)
  unfolding validate_cwd_containment
  validate_cwd_containment-Inside cwd worktree_root cwd_policy root canonical_slash xs ys {p} h
        at_root lexical parts e =
      let (r, found, h1) = >>=-eq-ok _ _ h in
      let (known, h2) = guard->>-eq-ok _ _ _ h1 in
      let (s, checked, h3) = >>=-eq-ok _ _ h2 in
      let same_root : r ≡ root = cc in
      let same_path : s ≡ canonical_slash = cc in
      let at_root_policy = policy_or_default cwd_policy =ᵗ codes "worktree_root" in
      by_policy root canonical_slash xs ys at_root_policy parts e (
        subst
          (λ (x : Text × Text).
            (if at_root_policy
              then guard (x.1 =ᵗ codes "." || x.1 =ᵗ []) cwd_error
              else check_contained fs x.0 x.1)
            ≡ ok tt)
          (λ i. (same_root i, same_path i)) h3)
