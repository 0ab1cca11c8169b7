-- ===== src/Host/Authority.antt =====
-- internal/host/authority.go: the permits by which operations are admitted. A method is one step,
-- since it runs under the authority's mutex. A permit is an object that its holder shares: it is a
-- place of the list of all permits given out.
pub mod Moves
pub mod Counts
pub mod Calls
pub mod Exclusion
pub mod Release
pub mod Draining
pub mod Tests
use ai_supervisor.Base.{
  ℕ, zero, suc, ◌+◌, ◌==◌, Bool, true, false, ◌&&◌, not, Option, none, some, List, [], ◌∷◌, ◌++◌,
  Result, ok, err, ◌>>◌, guard, is_some, if◌then◌else◌, length, ltb,
}
use ai_supervisor.Base.Text.{Text, codes, ◌=ᵗ◌, is_empty}

pub data HostError : Type 0 where
  empty_pair_id : HostError
  shutting_down : HostError
  global_scope_held : Text → HostError
  pair_locked : Text → HostError
  pair_scopes_active : HostError

-- The map from a locked pair to the purpose of its owner.
abbrev pub PairLocks : Type 0
PairLocks = List (Text × Text)

unfoldable pub owner_of : Text → PairLocks → Option Text
owner_of pair_id [] = none
owner_of pair_id ((k, purpose) ∷ locks) =
    if k =ᵗ pair_id then some purpose else owner_of pair_id locks

-- `delete(m, key)`
unfoldable pub without : Text → PairLocks → PairLocks
without pair_id [] = []
without pair_id ((k, purpose) ∷ locks) =
    if k =ᵗ pair_id then without pair_id locks else (k, purpose) ∷ without pair_id locks

-- `active_ops` is the counter of the WaitGroup.
pub record Authority : Type 0 where
  pub pair_locks : PairLocks
  pub global_locked : Bool
  pub global_owner : Text
  pub active_ops : ℕ
  pub draining : Bool
  pub principal : Text
  pub automatic_restore : Bool

-- What a permit's releaseFunc has captured.
pub data Scope : Type 0 where
  pair : Text → Scope
  global : Scope

pub record ScopePermit : Type 0 where
  pub scope : Scope
  pub released : Bool

-- &scopePermit{…}
abbrev pub permit_for : Scope → ScopePermit
permit_for s = record { scope = s; released = false }

unfoldable pub new_authority : Text → Authority
new_authority principal = record {
  pair_locks = [];
  global_locked = false;
  global_owner = [];
  active_ops = 0;
  draining = false;
  principal = principal;
  automatic_restore = false;
}

unfoldable pub available : Authority → Bool
available a = not a.draining

unfoldable pub set_unavailable : Authority → Authority
set_unavailable a = record a { draining = true }

-- The verified principal, and whether there is one.
unfoldable pub verified_restore_principal : Authority → Text → Text → Text → Text → Text × Bool
verified_restore_principal a task_id contract_id pair_id caller = ([], false)

unfoldable pub automatic_restore_enabled : Authority → Bool
automatic_restore_enabled a = false

-- `if existing, held := a.pairLocks[pairID]; held { return error }`
abbrev pub unless_held : Option Text → Result HostError (Unit {0})
unless_held none = ok tt
unless_held (some owner) = err (pair_locked owner)

unfoldable pub acquire_exclusive_scope :
    Authority → Text → Text → Result HostError (Authority × ScopePermit)
acquire_exclusive_scope a pair_id purpose = do
  guard (not (is_empty pair_id)) empty_pair_id
  guard (not a.draining) shutting_down
  guard (not a.global_locked) (global_scope_held a.global_owner)
  unless_held (owner_of pair_id a.pair_locks)
  ok (
    record a { pair_locks = (pair_id, purpose) ∷ a.pair_locks; active_ops = a.active_ops + 1 },
    permit_for (pair pair_id),
  )

unfoldable pub acquire_global_exclusive_scope :
    Authority → Text → Result HostError (Authority × ScopePermit)
acquire_global_exclusive_scope a purpose = do
  guard (not a.draining) shutting_down
  guard (not a.global_locked) (global_scope_held a.global_owner)
  guard (not (ltb 0 (length a.pair_locks))) pair_scopes_active
  ok (
    record a { global_locked = true; global_owner = purpose; active_ops = a.active_ops + 1 },
    permit_for global,
  )

unfoldable pub acquire_maintenance_scope :
    Authority → Text → Text → Result HostError (Authority × ScopePermit)
acquire_maintenance_scope a pair_id purpose =
    acquire_exclusive_scope a pair_id (codes "MAINTENANCE:" ++ purpose)

unfoldable pub acquire_effect : Authority → Text → Text → Result HostError (Authority × ScopePermit)
acquire_effect a pair_id caller = acquire_exclusive_scope a pair_id (codes "EFFECT:" ++ caller)

unfoldable pub acquire : Authority → Result HostError (Authority × ScopePermit)
acquire a = acquire_global_exclusive_scope a (codes "RECOVERY_SCAN")

unfoldable pub acquire_maintenance :
    Authority → Text → Text → Result HostError (Authority × ScopePermit)
acquire_maintenance a pair_id purpose = acquire_maintenance_scope a pair_id purpose

-- The maps and flags that a releaseFunc resets.
unfoldable pub unlock : Scope → Authority → Authority
unlock (pair pair_id) a = record a { pair_locks = without pair_id a.pair_locks }
unlock global a = record a { global_locked = false; global_owner = [] }

-- activeOps.Done, which panics below zero: `none`.
unfoldable pub done : ℕ → Option ℕ
done zero = none
done (suc n) = some n

unfoldable pub release_func : Scope → Authority → Option Authority
release_func scope a = elim (done a.active_ops) [
  | none ↦ none
  | some n ↦ some (record (unlock scope a) { active_ops = n })
]

-- Release: the second one does nothing.
unfoldable pub release : ScopePermit → Authority → Option (Authority × ScopePermit)
release p a = if p.released then some (a, p) else elim (release_func p.scope a) [
  | none ↦ none
  | some b ↦ some (b, record p { released = true })
]
