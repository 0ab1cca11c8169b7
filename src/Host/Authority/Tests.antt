-- ===== src/Host/Authority/Tests.antt =====
-- A run of internal/host/authority.go: an effect on a pair, its release, twice, a recovery scan, and
-- the drain.
use ai_supervisor.Base.{◌≤◌, ◌≡◌, refl, true, some, [], ◌∷◌, ok, err, ◌⊎◌, guard, ◌>>◌}
use ai_supervisor.Base.Table.{count}
use ai_supervisor.Base.Text.{Text, codes, ◌=ᵗ◌}
use ai_supervisor.Host.Authority.{
  Authority, ScopePermit, permit_for, pair, global, new_authority, owner_of, without,
  acquire_exclusive_scope, acquire_global_exclusive_scope, acquire_effect, acquire, unlock, done,
  release_func, release, set_unavailable, shutting_down, global_scope_held,
}
use ai_supervisor.Host.Authority.Moves.{
  Host, new_host, ◌⟿*◌, acquires, acquires_all, releases, closes_admission, stays, moves,
}
use ai_supervisor.Host.Authority.Counts.{holds_pair, holds_all, in_force}
use ai_supervisor.Host.Authority.Exclusion.{⟿*-exclusive}
use ai_supervisor.Host.Authority.Release.{⟿*-release}
use ai_supervisor.Host.Authority.Draining.{⟿*-drained}

abbrev base : Authority
base = new_authority (codes "op")

abbrev busy : Authority
busy = record base { pair_locks = (codes "P", codes "EFFECT:stop") ∷ []; active_ops = 1 }

abbrev scanning : Authority
scanning = record base {
  global_locked = true;
  global_owner = codes "RECOVERY_SCAN";
  active_ops = 1;
}

abbrev returned_permit : ScopePermit
returned_permit = record { scope = pair (codes "P"); released = true }

abbrev first_permit : ScopePermit
first_permit = permit_for (pair (codes "P"))

steps :
    (acquire_effect base (codes "P") (codes "stop") ≡ ok (busy, first_permit))
    × (release first_permit busy ≡ some (base, returned_permit))
    × (release returned_permit base ≡ some (base, returned_permit))
    × (acquire base ≡ ok (scanning, permit_for global))
    × (acquire_effect scanning (codes "P") (codes "stop")
        ≡ err (global_scope_held (codes "RECOVERY_SCAN")))
unfolding new_authority acquire_effect acquire acquire_exclusive_scope
    acquire_global_exclusive_scope release release_func unlock done without owner_of guard ◌>>◌ ◌=ᵗ◌
steps = (refl, refl, refl, refl, refl)

abbrev idle_host : Host
idle_host = record { authority = base; permits = returned_permit ∷ [] }

idle-run : new_host (codes "op") ⟿* idle_host
unfolding acquire_effect
idle-run =
    moves
      (moves (moves stays (acquires (codes "P") (codes "EFFECT:stop") busy first_permit steps.0))
        (releases 0 first_permit base returned_permit refl steps.1))
      (releases 0 returned_permit base returned_permit refl steps.2)

scan-run :
    new_host (codes "op")
    ⟿* record { authority = scanning; permits = returned_permit ∷ permit_for global ∷ [] }
unfolding acquire
scan-run =
    moves idle-run (acquires_all (codes "RECOVERY_SCAN") scanning (permit_for global) steps.3)

⟿*-exclusive_example :
    ((k : Text) → count (holds_pair k) (returned_permit ∷ permit_for global ∷ []) ≤ 1)
    × ((count holds_all (returned_permit ∷ permit_for global ∷ []) ≡ 0)
        ⊎ (count in_force (returned_permit ∷ permit_for global ∷ []) ≡ 1))
    × (scanning.active_ops ≡ count in_force (returned_permit ∷ permit_for global ∷ []))
⟿*-exclusive_example = ⟿*-exclusive (codes "op") scan-run

⟿*-release_example :
    (b : Authority) × (q : ScopePermit) × (release (permit_for global) scanning ≡ some (b, q))
⟿*-release_example = ⟿*-release (codes "op") 1 (permit_for global) scan-run refl

closed-run :
    new_host (codes "op")
    ⟿* record { authority = set_unavailable base; permits = returned_permit ∷ [] }
closed-run = moves idle-run closes_admission

closed : ((set_unavailable base).draining ≡ true) × ((set_unavailable base).active_ops ≡ 0)
unfolding set_unavailable new_authority
closed = (refl, refl)

⟿*-drained_example :
    (count in_force (returned_permit ∷ []) ≡ 0)
    × (acquire_exclusive_scope (set_unavailable base) (codes "P") (codes "stop")
        ≡ err shutting_down)
    × (acquire_global_exclusive_scope (set_unavailable base) (codes "stop") ≡ err shutting_down)
⟿*-drained_example =
    ⟿*-drained (codes "op") (codes "P") (codes "stop") closed-run closed.0 closed.1 refl stays
