-- ===== src/Host/Teardown/Tests.antt =====
-- A teardown of internal/host/drain.go with a caller that leaves late and a store that fails.
use ai_supervisor.Base.{◌≡◌, ◌<◌, refl, none, some, false, List, [], ◌∷◌, ◌++◌, All, is_some, not}
use ai_supervisor.Base.Text.{codes}
use ai_supervisor.Host.Teardown.{
  close_failed, Call, close_store, wait_all_released, close_lock_handle, ShutdownComponents,
  execute_shutdown_drain,
}
use ai_supervisor.Host.Teardown.Order.{rank, InOrder}
use ai_supervisor.Host.Teardown.Complete.{
  made, is_late, execute_shutdown_drain-InOrder, execute_shutdown_drain-unfailed,
}

abbrev late : ShutdownComponents
late = record {
  pipe_server = some none;
  http_server = none;
  authority = some false;
  store = some (some (close_failed (codes "disk")));
  pinned_db = some none;
  owner_lease = some none;
  schedulers = some none ∷ none ∷ [];
}

execute_shutdown_drain-InOrder_example :
    (before : List Call) × ((execute_shutdown_drain late).calls ≡ before ++ close_lock_handle ∷ [])
    × All (λ d. rank d < rank close_lock_handle) before
    × InOrder before
    × (made close_store before ≡ is_some late.store)
    × (made wait_all_released before ≡ is_late late.authority)
execute_shutdown_drain-InOrder_example = execute_shutdown_drain-InOrder late refl

execute_shutdown_drain-unfailed_example :
    not (is_some (execute_shutdown_drain late).first_err) ≡ false
execute_shutdown_drain-unfailed_example = execute_shutdown_drain-unfailed late
