-- ===== src/Store/Stop/Entry.antt =====
-- internal/store/session_lifecycle.go: the older entry points of stops, which lead to the transactions.
use ai_supervisor.Base.{
  Bool, true, false, ◌&&◌, ◌||◌, not, Option, none, some, ok, err, ◌>>=◌, ◌>>◌, guard, ◌==◌,
  is_some,
}
use ai_supervisor.Base.Text.{Text}
use ai_supervisor.Store.Schema.{
  Time, Outcome, Codec, Surroundings, StopRow, StopStage, stop_requested, stop_call_succeeded,
  is_call_succeeded, StopResolution, is_in_flight, Db, invalid_operation_transition, state_conflict,
  atomic_dispatch_required,
}
use ai_supervisor.Store.Stop.Reserve.{StopOperation, reserve_stop_operation, get_stop_operation_tx}
use ai_supervisor.Store.Stop.Resolve.{valid_stop_transition}
use ai_supervisor.Store.Stop.Commit.{commit_stop_call_accepted, commit_stop_outcome}

-- StopStageUpdate, with no expected resolution for an empty text.
pub record StopStageUpdate : Type 0 where
  pub expected_resolution_state : Option StopResolution
  pub call_completed_at : Option Time
  pub confirmation_deadline_at : Option Time
  pub termination_confirmed_at : Option Time
  pub resolved_at : Option Time
  pub resolution_state : Option StopResolution
  pub observed_session_id : Text
  pub observed_generation : Text
  pub observed_is_terminated : Bool

-- GetStopOperation
unfoldable pub get_stop_operation : Text → Db → Outcome StopRow
get_stop_operation operation_id db = get_stop_operation_tx operation_id db

-- `p == nil || *p == "IN_FLIGHT"`
abbrev unresolved_or_none : Option StopResolution → Bool
unresolved_or_none none = true
unresolved_or_none (some r) = is_in_flight r

abbrev is_time : Option Time → Time → Bool
is_time none t = false
is_time (some u) t = u == t

abbrev or_else : Option Time → Time → Time
or_else none t = t
or_else (some u) t = u

-- The replay of an accepted call.
unfoldable pub replay_call_accepted :
    Text → Option Time → Option Time → StopStageUpdate → Db → Outcome Db
replay_call_accepted operation_id (some call_at) (some deadline) u db = do
  guard (not (is_some u.resolved_at || is_some u.termination_confirmed_at)) state_conflict
  o ← get_stop_operation operation_id db
  guard
      (is_call_succeeded o.stage
        && is_in_flight o.resolution_state
        && is_time o.call_completed_at call_at
        && is_time o.confirmation_deadline_at deadline)
      state_conflict
  ok db
replay_call_accepted operation_id _ _ u db = err state_conflict

module _ (c : Codec) (s : Surroundings) where
  -- CreateStopOperation
  unfoldable pub create_stop_operation : StopOperation → Db → Outcome Db
  create_stop_operation o db = reserve_stop_operation c s o db

  unfoldable pub accept_call : Text → Option Time → Option Time → StopStageUpdate → Db → Outcome Db
  accept_call operation_id (some call_at) (some deadline) u db = do
    guard
        (not (is_some u.resolved_at || is_some u.termination_confirmed_at)
          && unresolved_or_none u.resolution_state)
        state_conflict
    commit_stop_call_accepted c s operation_id call_at deadline db
  accept_call operation_id _ _ u db = err state_conflict

  unfoldable pub commit_update :
      Text → StopStage → StopStage → StopStageUpdate → Option StopResolution → Db → Outcome Db
  commit_update operation_id expected next u none db = err atomic_dispatch_required
  commit_update operation_id expected next u (some r) db = do
    guard (not (is_in_flight r)) state_conflict
    guard
        (unresolved_or_none u.expected_resolution_state
          && not (is_some u.call_completed_at || is_some u.confirmation_deadline_at))
        atomic_dispatch_required
    commit_stop_outcome c s operation_id
        (record {
          expected_stage = expected;
          stage = next;
          resolution = r;
          at = or_else u.termination_confirmed_at (or_else u.resolved_at s.now);
          observed_session_id = u.observed_session_id;
          observed_generation = u.observed_generation;
          observed_is_terminated = u.observed_is_terminated;
        })
        db

  -- What the update of a valid transition leads to.
  unfoldable pub update_stage :
      Text → StopStage → StopStage → StopStageUpdate → Option StopResolution → Db → Outcome Db
  update_stage operation_id stop_requested stop_call_succeeded u r db =
      accept_call operation_id u.call_completed_at u.confirmation_deadline_at u db
  update_stage operation_id stop_call_succeeded stop_call_succeeded u none db =
      replay_call_accepted operation_id u.call_completed_at u.confirmation_deadline_at u db
  update_stage operation_id expected next u r db = commit_update operation_id expected next u r db

  -- UpdateStopOperationStage
  unfoldable pub update_stop_operation_stage :
      Text → StopStage → StopStage → StopStageUpdate → Db → Outcome Db
  update_stop_operation_stage operation_id expected next u db = do
    guard (valid_stop_transition expected next) invalid_operation_transition
    update_stage operation_id expected next u u.resolution_state db
