-- ===== src/Host/Teardown/Order.antt =====
-- The order of the teardown of internal/host/drain.go, and its error.
use ai_supervisor.Base.{
  ℕ, ◌≤◌, ◌≡◌, refl, Bool, true, false, Option, none, some, List, [], ◌∷◌, ◌++◌, All, arith,
}
use ai_supervisor.Host.Teardown.{
  TeardownError, deadline_passed, Call, close_pipe_server, close_http_server, drain,
  wait_all_released, close_scheduler, close_store, clean_metadata, close_pinned_db,
  close_lock_handle, Closer, Teardown, record_err, call, close, drain_authority, close_schedulers,
  clean_lease,
}

-- The place of a call in the protocol: the listeners, the callers, the schedulers, the store, the
-- metadata, the pinned handle, and the lock.
abbrev pub rank : Call → ℕ
rank close_pipe_server = 0
rank close_http_server = 1
rank drain = 2
rank wait_all_released = 3
rank close_scheduler = 4
rank close_store = 5
rank clean_metadata = 6
rank close_pinned_db = 7
rank close_lock_handle = 8

-- No call has a later one before it.
abbrev pub InOrder : List Call → Type 0
InOrder [] = Unit
InOrder (c ∷ l) = All (λ d. rank c ≤ rank d) l × InOrder l

-- In order, and none past the given place.
abbrev pub UpTo : ℕ → List Call → Type 0
UpTo n l = InOrder l × All (λ d. rank d ≤ n) l

All-snoc : (P : Call → Type 0) (l : List Call) (c : Call) → All P l → P c → All P (l ++ c ∷ [])
All-snoc P [] c h p = (p, tt)
All-snoc P (d ∷ l) c h p = (h.0, All-snoc P l c h.1 p)

pub All-weaken :
    {n m : ℕ} (l : List Call) → n ≤ m → All (λ d. rank d ≤ n) l → All (λ d. rank d ≤ m) l
All-weaken [] e h = tt
All-weaken (d ∷ l) e h = let here = h.0 in (omega arith, All-weaken l e h.1)

InOrder-snoc : {n : ℕ} (l : List Call) (c : Call) → n ≤ rank c → UpTo n l → InOrder (l ++ c ∷ [])
InOrder-snoc [] c e h = (tt, tt)
InOrder-snoc (d ∷ l) c e (h, b) =
    let here = b.0 in
    (All-snoc (λ x. rank d ≤ rank x) l c h.0 (omega arith), InOrder-snoc l c e (h.1, b.1))

call-UpTo :
    {n : ℕ} (c : Call) (t : Teardown) → n ≤ rank c → UpTo n t.calls → UpTo (rank c) (call c t).calls
unfolding call
call-UpTo c t e h = (
  InOrder-snoc t.calls c e h,
  All-snoc (λ d. rank d ≤ rank c) t.calls c (All-weaken t.calls e h.1) (omega arith),
)

pub record_err-calls : (e : Option TeardownError) (t : Teardown) → (record_err e t).calls ≡ t.calls
unfolding record_err
record_err-calls none t = refl
record_err-calls (some e) t = refl

pub close-UpTo :
    {n : ℕ} (c : Call) (x : Closer) (t : Teardown)
    → n ≤ rank c
    → UpTo n t.calls
    → UpTo (rank c) (close c x t).calls
unfolding close
close-UpTo c none t e h = (h.0, All-weaken t.calls e h.1)
close-UpTo c (some r) t e h = rw (record_err-calls r (call c t)) (call-UpTo c t e h)

pub drain_authority-UpTo :
    (a : Option Bool) (t : Teardown) → UpTo 1 t.calls → UpTo 3 (drain_authority a t).calls
unfolding drain_authority
drain_authority-UpTo none t h = (h.0, All-weaken t.calls (omega arith) h.1)
drain_authority-UpTo (some true) t h =
    let (o, b) = call-UpTo drain t (omega arith) h in
    (o, All-weaken (call drain t).calls (omega arith) b)
drain_authority-UpTo (some false) t h =
    rw (record_err-calls (some deadline_passed) (call wait_all_released (call drain t)))
      (call-UpTo wait_all_released (call drain t) (omega arith) (call-UpTo drain t (omega arith) h))

pub close_schedulers-UpTo :
    (l : List Closer) (t : Teardown) → UpTo 4 t.calls → UpTo 4 (close_schedulers l t).calls
unfolding close_schedulers
close_schedulers-UpTo [] t h = h
close_schedulers-UpTo (s ∷ l) t h =
    close_schedulers-UpTo l (close close_scheduler s t)
      (close-UpTo close_scheduler s t (omega arith) h)

pub clean_lease-UpTo : (x : Closer) (t : Teardown) → UpTo 5 t.calls → UpTo 6 (clean_lease x t).calls
unfolding clean_lease
clean_lease-UpTo none t h = (h.0, All-weaken t.calls (omega arith) h.1)
clean_lease-UpTo (some r) t h = call-UpTo clean_metadata t (omega arith) h
