-- ===== src/Host/Authority/Draining.antt =====
-- internal/host/authority.go once its admission is closed.
use ai_supervisor.Base.{
  ◌≤◌, ◌≡◌, refl, ap, ◌∙◌, true, false, not, err, arith, guard-pass, guard-stop, inl, inr,
}
use ai_supervisor.Base.Table.{count}
use ai_supervisor.Base.Text.{Text, is_empty}
use ai_supervisor.Host.Authority.{
  Authority, Scope, pair, global, acquire_exclusive_scope, acquire_global_exclusive_scope, unlock,
  shutting_down, set_unavailable,
}
use ai_supervisor.Host.Authority.Moves.{
  Host, new_host, ◌⟿◌, ◌⟿*◌, acquires, acquires_all, releases, closes_admission, stays, moves,
}
use ai_supervisor.Host.Authority.Counts.{bit, in_force, count-set}
use ai_supervisor.Host.Authority.Calls.{
  acquire_exclusive_scope-eq-ok, acquire_global_exclusive_scope-eq-ok, release-eq-some,
}
use ai_supervisor.Host.Authority.Exclusion.{⟿*-exclusive}

-- The admission stays closed, and no permit is added.
abbrev IsClosing : Host → Host → Type 0
IsClosing h k =
    (k.authority.draining ≡ true) × (count in_force k.permits ≤ count in_force h.permits)

unlock-draining : (s : Scope) (a : Authority) → (unlock s a).draining ≡ a.draining
unfolding unlock
unlock-draining (pair k) a = refl
unlock-draining global a = refl

⟿-IsClosing : {h k : Host} → h ⟿ k → h.authority.draining ≡ true → IsClosing h k
unfolding set_unavailable
⟿-IsClosing {h} (acquires pair_id purpose a p e) d =
    let admits = (acquire_exclusive_scope-eq-ok h.authority pair_id purpose e).0 in cc
⟿-IsClosing {h} (acquires_all purpose a p e) d =
    let admits = (acquire_global_exclusive_scope-eq-ok h.authority purpose e).0 in cc
⟿-IsClosing {h} (releases i p a q at_i e) d =
    elim (release-eq-some p.scope p.released h.authority e) [
      | inl (a_eq, q_eq) ↦ (
        ap (λ b. b.draining) a_eq ∙ d,
        let same : bit (in_force q) ≡ bit (in_force p) = ap (λ r. bit (in_force r)) q_eq in
            omega (arith, same, count-set in_force h.permits i p q at_i),
      )
      | inr (n, one, live, a_eq, q_eq) ↦ (
        ap (λ b. b.draining) a_eq ∙ unlock-draining p.scope h.authority ∙ d,
        let gone : bit (in_force q) ≡ 0 = ap (λ r. bit (in_force r)) q_eq in
            omega (arith, gone, count-set in_force h.permits i p q at_i),
      )
    ]
⟿-IsClosing closes_admission d = (refl, omega arith)

⟿*-IsClosing : {h k : Host} → h ⟿* k → h.authority.draining ≡ true → IsClosing h k
⟿*-IsClosing stays d = (d, omega arith)
⟿*-IsClosing (moves r m) d =
    let (d', fewer) = ⟿*-IsClosing r d in let (d'', fewest) = ⟿-IsClosing m d' in (d'', omega arith)

-- Once the admission is closed and the counter of the permits is zero, which is when Drain or
-- WaitAllReleased has returned, no permit is in force ever after, and whoever asks for one, of a pair
-- or of all pairs, is told that the host is shutting down.
pub ⟿*-drained :
    (principal pair_id purpose : Text) {h k : Host}
    → new_host principal ⟿* h
    → h.authority.draining ≡ true
    → h.authority.active_ops ≡ 0
    → is_empty pair_id ≡ false
    → h ⟿* k
    → (count in_force k.permits ≡ 0)
      × (acquire_exclusive_scope k.authority pair_id purpose ≡ err shutting_down)
      × (acquire_global_exclusive_scope k.authority purpose ≡ err shutting_down)
unfolding acquire_exclusive_scope acquire_global_exclusive_scope
⟿*-drained principal pair_id purpose {h} {k} r d z named s =
    let (closed, fewer) = ⟿*-IsClosing s d in
    let counted = (⟿*-exclusive principal r).2 in
    let refused = ap not closed in
    (
      omega arith,
      guard-pass _ _ _ (ap not named) ∙ guard-stop _ _ _ refused,
      guard-stop _ _ _ refused,
    )
