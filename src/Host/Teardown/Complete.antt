-- ===== src/Host/Teardown/Complete.antt =====
-- What the teardown of internal/host/drain.go has called when it returns, and its error.
use ai_supervisor.Base.{
  ◌≤◌, ◌<◌, ◌≡◌, refl, ap, ◌∙◌, Bool, true, false, ◌&&◌, ◌||◌, not, Option, none, some, List, [],
  ◌∷◌, ◌++◌, All, all, any, is_some, ◌==◌, arith,
}
use ai_supervisor.Host.Teardown.{
  TeardownError, deadline_passed, Call, close_pipe_server, close_http_server, drain,
  wait_all_released, close_scheduler, close_store, clean_metadata, close_pinned_db,
  close_lock_handle, Closer, ShutdownComponents, Teardown, or_else, record_err, call, close,
  drain_authority, close_schedulers, clean_lease, stop_admission, close_resources,
  execute_shutdown_drain,
}
use ai_supervisor.Host.Teardown.Order.{
  rank, InOrder, UpTo, All-weaken, record_err-calls, close-UpTo, drain_authority-UpTo,
  close_schedulers-UpTo, clean_lease-UpTo,
}

abbrev pub made : Call → List Call → Bool
made c l = any (λ d. rank d == rank c) l

made-snoc :
    (c : Call) (l : List Call) (d : Call) → made c (l ++ d ∷ []) ≡ (made c l || rank d == rank c)
made-snoc c [] d = ground arith
made-snoc c (e ∷ l) d = ground (arith, made-snoc c l d)

made-close :
    (c d : Call) (x : Closer) (t : Teardown)
    → made c (close d x t).calls ≡ (made c t.calls || (is_some x && rank d == rank c))
unfolding close call
made-close c d none t = ground arith
made-close c d (some r) t = ap (made c) (record_err-calls r (call d t)) ∙ made-snoc c t.calls d

made-close_schedulers :
    (c : Call) (l : List Closer) (t : Teardown)
    → (rank close_scheduler == rank c) ≡ false
    → made c (close_schedulers l t).calls ≡ made c t.calls
unfolding close_schedulers
made-close_schedulers c [] t other = refl
made-close_schedulers c (s ∷ l) t other =
    made-close_schedulers c l (close close_scheduler s t) other
    ∙ made-close c close_scheduler s t
    ∙ ground arith

made-clean_lease :
    (c : Call) (x : Closer) (t : Teardown)
    → made c (clean_lease x t).calls
      ≡ (made c t.calls || (is_some x && rank clean_metadata == rank c))
unfolding clean_lease call
made-clean_lease c none t = ground arith
made-clean_lease c (some r) t = made-snoc c t.calls clean_metadata

-- The permits outlive the timeout.
abbrev pub is_late : Option Bool → Bool
is_late none = false
is_late (some in_time) = not in_time

made-drain_authority :
    (c : Call) (a : Option Bool) (t : Teardown)
    → made c (drain_authority a t).calls ≡ (
        made c t.calls
        || (is_some a && rank drain == rank c)
        || (is_late a && rank wait_all_released == rank c))
unfolding drain_authority call
made-drain_authority c none t = ground arith
made-drain_authority c (some true) t = made-snoc c t.calls drain ∙ ground arith
made-drain_authority c (some false) t =
    ap (made c) (record_err-calls (some deadline_passed) (call wait_all_released (call drain t)))
    ∙ made-snoc c (t.calls ++ drain ∷ []) wait_all_released
    ∙ ap (λ b. b || rank wait_all_released == rank c) (made-snoc c t.calls drain)

stop_admission-UpTo : (c : ShutdownComponents) → UpTo 3 (stop_admission c).calls
unfolding stop_admission
stop_admission-UpTo c =
    let empty : Teardown = record { calls = []; first_err = none } in
    let piped = close-UpTo {n = 0} close_pipe_server c.pipe_server empty (omega arith) (tt, tt) in
    let closed =
      close-UpTo close_http_server c.http_server (close close_pipe_server c.pipe_server empty)
        (omega arith) piped in
    drain_authority-UpTo c.authority _ closed

close_resources-UpTo :
    (c : ShutdownComponents) (t : Teardown) → UpTo 3 t.calls → UpTo 7 (close_resources c t).calls
unfolding close_resources
close_resources-UpTo c t h =
    let scheduled =
      close_schedulers-UpTo c.schedulers t (h.0, All-weaken t.calls (omega arith) h.1) in
    let stored = close-UpTo close_store c.store _ (omega arith) scheduled in
    let cleaned = clean_lease-UpTo c.owner_lease _ stored in
    close-UpTo close_pinned_db c.pinned_db _ (omega arith) cleaned

made-close_resources :
    (b : Call) (c : ShutdownComponents) (t : Teardown)
    → (rank close_scheduler == rank b) ≡ false
    → made b (close_resources c t).calls ≡ (
        made b t.calls
        || (is_some c.store && rank close_store == rank b)
        || (is_some c.owner_lease && rank clean_metadata == rank b)
        || (is_some c.pinned_db && rank close_pinned_db == rank b))
unfolding close_resources
made-close_resources b c t other =
    let scheduled = made-close_schedulers b c.schedulers t other in
    let stored = made-close b close_store c.store (close_schedulers c.schedulers t) in
    let cleaned =
      made-clean_lease b c.owner_lease
        (close close_store c.store (close_schedulers c.schedulers t)) in
    made-close b close_pinned_db c.pinned_db _
    ∙ ap (λ m. m || (is_some c.pinned_db && rank close_pinned_db == rank b))
        (cleaned
          ∙ ap (λ m. m || (is_some c.owner_lease && rank clean_metadata == rank b))
              (stored ∙ ap (λ m. m || (is_some c.store && rank close_store == rank b)) scheduled))

made-stop_admission :
    (b : Call) (c : ShutdownComponents)
    → made b (stop_admission c).calls ≡ (
        (is_some c.pipe_server && rank close_pipe_server == rank b)
        || (is_some c.http_server && rank close_http_server == rank b)
        || (is_some c.authority && rank drain == rank b)
        || (is_late c.authority && rank wait_all_released == rank b))
unfolding stop_admission
made-stop_admission b c =
    let empty : Teardown = record { calls = []; first_err = none } in
    made-drain_authority b c.authority _
    ∙ ap
        (λ m.
          m
          || (is_some c.authority && rank drain == rank b)
          || (is_late c.authority && rank wait_all_released == rank b))
        (made-close b close_http_server c.http_server (close close_pipe_server c.pipe_server empty)
          ∙ ap (λ m. m || (is_some c.http_server && rank close_http_server == rank b))
              (made-close b close_pipe_server c.pipe_server empty))

-- Where there is a lease, the teardown follows the protocol, whatever fails: no call stands before
-- one of an earlier step; the lock handle is closed last and once; the store is closed exactly if
-- there is one; and the callers are waited for without a bound exactly if they outlive the timeout.
pub execute_shutdown_drain-InOrder :
    (c : ShutdownComponents) {result : Option TeardownError}
    → c.owner_lease ≡ some result
    → (before : List Call) × ((execute_shutdown_drain c).calls ≡ before ++ close_lock_handle ∷ [])
      × All (λ d. rank d < rank close_lock_handle) before
      × InOrder before
      × (made close_store before ≡ is_some c.store)
      × (made wait_all_released before ≡ is_late c.authority)
unfolding execute_shutdown_drain close call
execute_shutdown_drain-InOrder c {result} leased =
    let t = close_resources c (stop_admission c) in
    let (ordered, below) = close_resources-UpTo c (stop_admission c) (stop_admission-UpTo c) in
    (
      t.calls,
      ap (λ x. (close close_lock_handle x t).calls) leased
          ∙ record_err-calls result (call close_lock_handle t),
      strictly t.calls below,
      ordered,
      made-close_resources close_store c (stop_admission c) refl
          ∙ ground (arith, made-stop_admission close_store c),
      made-close_resources wait_all_released c (stop_admission c) refl
          ∙ ground (arith, made-stop_admission wait_all_released c),
    )
  where
    strictly :
        (l : List Call) → All (λ d. rank d ≤ 7) l → All (λ d. rank d < rank close_lock_handle) l
    strictly [] h = tt
    strictly (d ∷ l) h = let here = h.0 in (omega arith, strictly l h.1)

-- A component that is nil or closes, and the drain, leave the error as it was.
abbrev pub is_closed : Closer → Bool
is_closed none = true
is_closed (some result) = not (is_some result)

abbrev unfailed : Teardown → Bool
unfailed t = not (is_some t.first_err)

unfailed-record_err :
    (e : Option TeardownError) (t : Teardown)
    → unfailed (record_err e t) ≡ (unfailed t && not (is_some e))
unfolding record_err
unfailed-record_err none t = ground arith
unfailed-record_err (some e) t = by_first t.first_err
  where
    by_first : (o : Option TeardownError) → not (is_some (or_else o e)) ≡ (not (is_some o) && false)
    by_first none = refl
    by_first (some f) = refl

unfailed-close :
    (d : Call) (x : Closer) (t : Teardown) → unfailed (close d x t) ≡ (unfailed t && is_closed x)
unfolding close call
unfailed-close d none t = ground arith
unfailed-close d (some r) t = unfailed-record_err r (call d t)

unfailed-close_schedulers :
    (l : List Closer) (t : Teardown)
    → unfailed (close_schedulers l t) ≡ (unfailed t && all is_closed l)
unfolding close_schedulers
unfailed-close_schedulers [] t = ground arith
unfailed-close_schedulers (s ∷ l) t =
    unfailed-close_schedulers l (close close_scheduler s t)
    ∙ ground (arith, unfailed-close close_scheduler s t)

unfailed-drain_authority :
    (a : Option Bool) (t : Teardown)
    → unfailed (drain_authority a t) ≡ (unfailed t && not (is_late a))
unfolding drain_authority call
unfailed-drain_authority none t = ground arith
unfailed-drain_authority (some true) t = ground arith
unfailed-drain_authority (some false) t =
    unfailed-record_err (some deadline_passed) (call wait_all_released (call drain t))

unfailed-clean_lease : (x : Closer) (t : Teardown) → unfailed (clean_lease x t) ≡ unfailed t
unfolding clean_lease call
unfailed-clean_lease none t = refl
unfailed-clean_lease (some r) t = refl

-- The teardown returns no error exactly if every component that is there has closed and the callers
-- have left within the timeout.
pub execute_shutdown_drain-unfailed :
    (c : ShutdownComponents)
    → not (is_some (execute_shutdown_drain c).first_err) ≡ (
        is_closed c.pipe_server
        && is_closed c.http_server
        && not (is_late c.authority)
        && all is_closed c.schedulers
        && is_closed c.store
        && is_closed c.pinned_db
        && is_closed c.owner_lease)
unfolding execute_shutdown_drain close_resources stop_admission
execute_shutdown_drain-unfailed c =
    simp (unfailed-close, unfailed-clean_lease, unfailed-close_schedulers, unfailed-drain_authority)
