-- ===== src/Host/Teardown.antt =====
-- internal/host/drain.go: ExecuteShutdownDrain. The trace is the sequence of the calls that it has
-- made, in order, and the result is the first error.
pub mod Order
pub mod Complete
pub mod Tests
use ai_supervisor.Base.{ℕ, suc, ◌+◌, Bool, true, false, Option, none, some, List, [], ◌∷◌, ◌++◌}
use ai_supervisor.Base.Text.{Text}

-- `deadline_passed` is ErrDrainTimeout, by which the callers that joined late are recorded.
pub data TeardownError : Type 0 where
  close_failed : Text → TeardownError
  deadline_passed : TeardownError

pub data Call : Type 0 where
  close_pipe_server : Call
  close_http_server : Call
  drain : Call
  wait_all_released : Call
  close_scheduler : Call
  close_store : Call
  clean_metadata : Call
  close_pinned_db : Call
  close_lock_handle : Call

-- A component that is nil, or what its Close will return.
abbrev pub Closer : Type 0
Closer = Option (Option TeardownError)

-- The components, each with what its call returns: of the authority, whether the permits are
-- released within the timeout; of the lease, what CloseLockHandle returns.
pub record ShutdownComponents : Type 0 where
  pub pipe_server : Closer
  pub http_server : Closer
  pub authority : Option Bool
  pub store : Closer
  pub pinned_db : Closer
  pub owner_lease : Closer
  pub schedulers : List Closer

-- The calls so far, and firstErr.
pub record Teardown : Type 0 where
  pub calls : List Call
  pub first_err : Option TeardownError

abbrev pub or_else : Option TeardownError → TeardownError → Option TeardownError
or_else none e = some e
or_else (some f) e = some f

-- `if err != nil && firstErr == nil { firstErr = err }`
unfoldable pub record_err : Option TeardownError → Teardown → Teardown
record_err none t = t
record_err (some e) t = record t { first_err = or_else t.first_err e }

unfoldable pub call : Call → Teardown → Teardown
call c t = record t { calls = t.calls ++ c ∷ [] }

-- `if c != nil { recordErr(c.Close()) }`
unfoldable pub close : Call → Closer → Teardown → Teardown
unfolding call record_err
close c none t = t
close c (some result) t = record_err result (call c t)

unfoldable pub drain_authority : Option Bool → Teardown → Teardown
unfolding call record_err
drain_authority none t = t
drain_authority (some true) t = call drain t
drain_authority (some false) t =
    record_err (some deadline_passed) (call wait_all_released (call drain t))

unfoldable pub close_schedulers : List Closer → Teardown → Teardown
unfolding close
close_schedulers [] t = t
close_schedulers (s ∷ l) t = close_schedulers l (close close_scheduler s t)

unfoldable pub clean_lease : Closer → Teardown → Teardown
unfolding call
clean_lease none t = t
clean_lease (some result) t = call clean_metadata t

-- Steps 1 and 2: the listeners, and the callers in flight.
unfoldable pub stop_admission : ShutdownComponents → Teardown
unfolding close drain_authority
stop_admission c = drain_authority c.authority (
    close close_http_server c.http_server
      (close close_pipe_server c.pipe_server (record { calls = []; first_err = none })))

-- Steps 3 to 6: all but the lock.
unfoldable pub close_resources : ShutdownComponents → Teardown → Teardown
unfolding close close_schedulers clean_lease
close_resources c t =
    close close_pinned_db c.pinned_db
      (clean_lease c.owner_lease (close close_store c.store (close_schedulers c.schedulers t)))

unfoldable pub execute_shutdown_drain : ShutdownComponents → Teardown
unfolding stop_admission close_resources close
execute_shutdown_drain c =
    close close_lock_handle c.owner_lease (close_resources c (stop_admission c))
