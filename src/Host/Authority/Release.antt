-- ===== src/Host/Authority/Release.antt =====
-- The releases of internal/host/authority.go do not panic.
use ai_supervisor.Base.{ℕ, zero, suc, ◌≤◌, ◌≡◌, refl, Bool, true, false, not, some, arith}
use ai_supervisor.Base.Text.{Text}
use ai_supervisor.Host.Authority.{
  Authority, Scope, ScopePermit, unlock, done, release_func, release,
}
use ai_supervisor.Host.Authority.Moves.{Host, get_elem?, new_host, ◌⟿*◌}
use ai_supervisor.Host.Authority.Counts.{bit, in_force, count-set}
use ai_supervisor.Host.Authority.Calls.{returned}
use ai_supervisor.Host.Authority.Exclusion.{new_host-IsExclusive, ⟿*-IsExclusive}

done-of-pos : (m : ℕ) → 1 ≤ m → (n : ℕ) × (done m ≡ some n)
unfolding done
done-of-pos zero h = absurd (omega arith)
done-of-pos (suc m) h = (m, refl)

release_runs :
    (scope : Scope) (released : Bool) (a : Authority)
    → bit (not released) ≤ a.active_ops
    → (b : Authority) × (q : ScopePermit) × (release
          (record { scope = scope; released = released })
          a
        ≡ some (b, q))
unfolding release release_func
release_runs scope true a h = (a, record { scope = scope; released = true }, refl)
release_runs scope false a h =
    let (n, left) = done-of-pos a.active_ops h in
    (record (unlock scope a) { active_ops = n }, returned scope, rw left)

-- No release panics: whoever releases a permit that a new authority has given out, in whatever order
-- and however often, the counter of the permits in force does not fall below zero.
pub ⟿*-release :
    (principal : Text) {h : Host} (i : ℕ) (p : ScopePermit)
    → new_host principal ⟿* h
    → get_elem? h.permits i ≡ some p
    → (b : Authority) × (q : ScopePermit) × (release p h.authority ≡ some (b, q))
⟿*-release principal {h} i p r at_i =
    let v = ⟿*-IsExclusive r (new_host-IsExclusive principal) in
    release_runs p.scope p.released h.authority
      (omega (arith, v.counted, count-set in_force h.permits i p (returned p.scope) at_i))
