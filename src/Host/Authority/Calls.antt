-- ===== src/Host/Authority/Calls.antt =====
-- What a call of internal/host/authority.go that succeeded has checked and done.
use ai_supervisor.Base.{
  ℕ, zero, suc, ◌+◌, ◌≡◌, refl, Bool, true, false, Option, none, some, [], ◌∷◌, ok, ◌⊎◌, inl, inr,
  length, ltb, arith, guard->>-eq-ok, >>-eq-ok, not-true, Option-cases,
}
use ai_supervisor.Base.Text.{Text}
use ai_supervisor.Host.Authority.{
  PairLocks, Authority, Scope, pair, global, ScopePermit, permit_for, owner_of, unless_held,
  acquire_exclusive_scope, acquire_global_exclusive_scope, unlock, done, release_func, release,
}

-- What an acquisition that succeeded has checked and done.
unless_held-eq-ok : (o : Option Text) → unless_held o ≡ ok tt → o ≡ none
unless_held-eq-ok none h = refl
unless_held-eq-ok (some owner) h = cc

pub acquire_exclusive_scope-eq-ok :
    (a : Authority) (pair_id purpose : Text) {b : Authority} {p : ScopePermit}
    → acquire_exclusive_scope a pair_id purpose ≡ ok (b, p)
    → (a.draining ≡ false)
      × (a.global_locked ≡ false)
      × (owner_of pair_id a.pair_locks ≡ none)
      × (b ≡ record a {
        pair_locks = (pair_id, purpose) ∷ a.pair_locks;
        active_ops = a.active_ops + 1;
      })
      × (p ≡ permit_for (pair pair_id))
unfolding acquire_exclusive_scope
acquire_exclusive_scope-eq-ok a pair_id purpose h =
    let (named, h1) = guard->>-eq-ok _ _ _ h in
    let (admits, h2) = guard->>-eq-ok _ _ _ h1 in
    let (unlocked, h3) = guard->>-eq-ok _ _ _ h2 in
    let (free, h4) = >>-eq-ok _ _ h3 in
    (not-true _ admits, not-true _ unlocked, unless_held-eq-ok _ free, cc, cc)

pub acquire_global_exclusive_scope-eq-ok :
    (a : Authority) (purpose : Text) {b : Authority} {p : ScopePermit}
    → acquire_global_exclusive_scope a purpose ≡ ok (b, p)
    → (a.draining ≡ false)
      × (a.global_locked ≡ false)
      × (a.pair_locks ≡ [])
      × (b ≡ record a {
        global_locked = true;
        global_owner = purpose;
        active_ops = a.active_ops + 1;
      })
      × (p ≡ permit_for global)
unfolding acquire_global_exclusive_scope
acquire_global_exclusive_scope-eq-ok a purpose h =
    let (admits, h1) = guard->>-eq-ok _ _ _ h in
    let (unlocked, h2) = guard->>-eq-ok _ _ _ h1 in
    let (idle, h3) = guard->>-eq-ok _ _ _ h2 in
    (not-true _ admits, not-true _ unlocked, empty_of _ (not-true _ idle), cc, cc)
  where
    empty_of : (l : PairLocks) → ltb 0 (length l) ≡ false → l ≡ []
    empty_of [] e = refl
    empty_of (x ∷ l) e = absurd (ground arith)

-- The permit once it is released.
abbrev pub returned : Scope → ScopePermit
returned s = record { scope = s; released = true }

pub done-eq-some : (m : ℕ) {n : ℕ} → done m ≡ some n → m ≡ n + 1
unfolding done
done-eq-some zero d = cc
done-eq-some (suc m) {n} d = let e : m ≡ n = cc in omega arith

-- A release that did not panic: the second one, or the first.
abbrev pub Released : ScopePermit → Authority → Authority → ScopePermit → Type 0
Released p a b q =
    ((b ≡ a) × (q ≡ p))
    ⊎ ((n : ℕ) × (a.active_ops ≡ n + 1)
        × (p ≡ permit_for p.scope)
        × (b ≡ record (unlock p.scope a) { active_ops = n })
        × (q ≡ returned p.scope))

pub release-eq-some :
    (scope : Scope) (released : Bool) (a : Authority) {b : Authority} {q : ScopePermit}
    → release (record { scope = scope; released = released }) a ≡ some (b, q)
    → Released (record { scope = scope; released = released }) a b q
unfolding release release_func
release-eq-some scope true a h = inl (cc, cc)
release-eq-some scope false a {b} {q} h = elim (Option-cases (done a.active_ops)) [
  | inl none_left ↦
      let e : ◌≡◌ {A = Option (Authority × ScopePermit)} none (some (b, q)) = rw none_left at h in
      cc
  | inr (n, left) ↦
      let e : ◌≡◌ {A = Option (Authority × ScopePermit)}
          (some (record (unlock scope a) { active_ops = n }, returned scope)) (some (b, q)) =
        rw left at h in
      inr (n, done-eq-some a.active_ops left, refl, cc, cc)
]
