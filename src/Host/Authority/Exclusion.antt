-- ===== src/Host/Authority/Exclusion.antt =====
-- The exclusion that internal/host/authority.go keeps, in every interleaving of its callers.
use ai_supervisor.Base.{
  ℕ, ◌+◌, ◌≤◌, ◌≡◌, refl, sym, ap, subst, ◌∙◌, true, false, ◌&&◌, not, none, some, List, [], ◌∷◌,
  ◌++◌, ◌⊎◌, inl, inr, is_some, arith, Bool-cases,
}
use ai_supervisor.Base.Table.{count}
use ai_supervisor.Base.Text.{Text, ◌=ᵗ◌, text_eq_iff}
use ai_supervisor.Host.Authority.{
  PairLocks, Authority, Scope, pair, global, ScopePermit, permit_for, owner_of, without, unlock,
  set_unavailable, new_authority,
}
use ai_supervisor.Host.Authority.Moves.{
  Host, get_elem?, set, new_host, ◌⟿◌, ◌⟿*◌, acquires, acquires_all, releases, closes_admission,
  stays, moves,
}
use ai_supervisor.Host.Authority.Counts.{
  bit, holds_pair, holds_all, in_force, count-append, count-set, count-in_force,
}
use ai_supervisor.Host.Authority.Calls.{
  acquire_exclusive_scope-eq-ok, acquire_global_exclusive_scope-eq-ok, release-eq-some, returned,
}

-- The locks agree with the permits in force.
pub record IsExclusive (h : Host) : Type 0 where
  pub on_pairs :
      (k : Text)
      → count (holds_pair k) h.permits ≡ bit (is_some (owner_of k h.authority.pair_locks))
  pub on_all : count holds_all h.permits ≡ bit h.authority.global_locked
  pub apart : (h.authority.global_locked ≡ false) ⊎ (h.authority.pair_locks ≡ [])
  pub counted : h.authority.active_ops ≡ count in_force h.permits

owner_of-without :
    (j k : Text) (locks : PairLocks)
    → is_some (owner_of k (without j locks)) ≡ (not (j =ᵗ k) && is_some (owner_of k locks))
unfolding owner_of without
owner_of-without j k [] = ground arith
owner_of-without j k ((i, purpose) ∷ locks) =
    ground (arith, owner_of-without j k locks, text_eq_iff i j, text_eq_iff i k, text_eq_iff j k)

acquired-IsExclusive :
    (h : Host) (pair_id purpose : Text)
    → h.authority.global_locked ≡ false
    → owner_of pair_id h.authority.pair_locks ≡ none
    → IsExclusive h
    → IsExclusive (record {
      authority = record h.authority {
        pair_locks = (pair_id, purpose) ∷ h.authority.pair_locks;
        active_ops = h.authority.active_ops + 1;
      };
      permits = h.permits ++ permit_for (pair pair_id) ∷ [];
    })
unfolding owner_of
acquired-IsExclusive h pair_id purpose unlocked free v = record {
  on_pairs = λ k. ground (
    arith,
    v.on_pairs k,
    count-append (holds_pair k) h.permits (permit_for (pair pair_id)),
    text_eq_iff pair_id k,
  );
  on_all = omega (arith, v.on_all, count-append holds_all h.permits (permit_for (pair pair_id)));
  apart = inl unlocked;
  counted = omega (arith, v.counted, count-append in_force h.permits (permit_for (pair pair_id)));
}

acquired_all-IsExclusive :
    (h : Host) (purpose : Text)
    → h.authority.global_locked ≡ false
    → h.authority.pair_locks ≡ []
    → IsExclusive h
    → IsExclusive (record {
      authority = record h.authority {
        global_locked = true;
        global_owner = purpose;
        active_ops = h.authority.active_ops + 1;
      };
      permits = h.permits ++ permit_for global ∷ [];
    })
acquired_all-IsExclusive h purpose unlocked idle v = record {
  on_pairs =
      λ k. omega (arith, v.on_pairs k, count-append (holds_pair k) h.permits (permit_for global));
  on_all = ground (arith, v.on_all, count-append holds_all h.permits (permit_for global));
  apart = inr idle;
  counted = omega (arith, v.counted, count-append in_force h.permits (permit_for global));
}

without-nil : (j : Text) (locks : PairLocks) → locks ≡ [] → without j locks ≡ []
unfolding without
without-nil j locks e = rw e

still_apart :
    (a : Authority) (j : Text)
    → (a.global_locked ≡ false) ⊎ (a.pair_locks ≡ [])
    → (a.global_locked ≡ false) ⊎ (without j a.pair_locks ≡ [])
still_apart a j (inl e) = inl e
still_apart a j (inr e) = inr (without-nil j a.pair_locks e)

returned-IsExclusive :
    (h : Host) (i : ℕ) (scope : Scope) (n : ℕ)
    → get_elem? h.permits i ≡ some (permit_for scope)
    → h.authority.active_ops ≡ n + 1
    → IsExclusive h
    → IsExclusive (record {
      authority = record (unlock scope h.authority) { active_ops = n };
      permits = set h.permits i (returned scope);
    })
unfolding unlock
returned-IsExclusive h i (pair j) n at_i one v = record {
  on_pairs = λ k. ground (
    arith,
    v.on_pairs k,
    owner_of-without j k h.authority.pair_locks,
    text_eq_iff j k,
    count-set (holds_pair k) h.permits i (permit_for (pair j)) (returned (pair j)) at_i,
  );
  on_all = omega (
    arith,
    v.on_all,
    count-set holds_all h.permits i (permit_for (pair j)) (returned (pair j)) at_i,
  );
  apart = still_apart h.authority j v.apart;
  counted = omega (
    arith,
    v.counted,
    count-set in_force h.permits i (permit_for (pair j)) (returned (pair j)) at_i,
  );
}
returned-IsExclusive h i global n at_i one v = record {
  on_pairs = λ k. omega (
    arith,
    v.on_pairs k,
    count-set (holds_pair k) h.permits i (permit_for global) (returned global) at_i,
  );
  on_all =
      ground (
        arith,
        v.on_all,
        count-set holds_all h.permits i (permit_for global) (returned global) at_i,
      );
  apart = inl refl;
  counted =
      omega (
        arith,
        v.counted,
        count-set in_force h.permits i (permit_for global) (returned global) at_i,
      );
}

set-IsExclusive :
    (h : Host) (i : ℕ) (p : ScopePermit)
    → get_elem? h.permits i ≡ some p
    → IsExclusive h
    → IsExclusive (record { authority = h.authority; permits = set h.permits i p })
set-IsExclusive h i p at_i v = record {
  on_pairs = λ k. omega (arith, v.on_pairs k, count-set (holds_pair k) h.permits i p p at_i);
  on_all = omega (arith, v.on_all, count-set holds_all h.permits i p p at_i);
  apart = v.apart;
  counted = omega (arith, v.counted, count-set in_force h.permits i p p at_i);
}

-- From the state that a call is shown to leave, to the state that it leaves.
carry :
    (f : ScopePermit → List ScopePermit) {a b : Authority} {p q : ScopePermit}
    → a ≡ b
    → p ≡ q
    → IsExclusive (record { authority = b; permits = f q })
    → IsExclusive (record { authority = a; permits = f p })
carry f a_eq p_eq v =
    subst
      (λ (r : Authority × ScopePermit). IsExclusive (record { authority = r.0; permits = f r.1 }))
      (sym (λ i. (a_eq i, p_eq i))) v

⟿-IsExclusive : {h k : Host} → h ⟿ k → IsExclusive h → IsExclusive k
unfolding set_unavailable
⟿-IsExclusive {h} (acquires pair_id purpose a p e) v =
    let (admits, unlocked, free, a_eq, p_eq) =
      acquire_exclusive_scope-eq-ok h.authority pair_id purpose e in
    carry (λ r. h.permits ++ r ∷ []) a_eq p_eq
      (acquired-IsExclusive h pair_id purpose unlocked free v)
⟿-IsExclusive {h} (acquires_all purpose a p e) v =
    let (admits, unlocked, idle, a_eq, p_eq) =
      acquire_global_exclusive_scope-eq-ok h.authority purpose e in
    carry (λ r. h.permits ++ r ∷ []) a_eq p_eq (acquired_all-IsExclusive h purpose unlocked idle v)
⟿-IsExclusive {h} (releases i p a q at_i e) v =
    elim (release-eq-some p.scope p.released h.authority e) [
      | inl (a_eq, q_eq) ↦ carry (set h.permits i) a_eq q_eq (set-IsExclusive h i p at_i v)
      | inr (n, one, live, a_eq, q_eq) ↦
          carry (set h.permits i) a_eq q_eq
            (returned-IsExclusive h i p.scope n (at_i ∙ ap some live) one v)
    ]
⟿-IsExclusive closes_admission v = record {
  on_pairs = v.on_pairs;
  on_all = v.on_all;
  apart = v.apart;
  counted = v.counted;
}

pub new_host-IsExclusive : (principal : Text) → IsExclusive (new_host principal)
unfolding new_authority owner_of count
new_host-IsExclusive principal = record {
  on_pairs = λ k. refl;
  on_all = refl;
  apart = inl refl;
  counted = refl;
}

pub ⟿*-IsExclusive : {g h : Host} → g ⟿* h → IsExclusive g → IsExclusive h
⟿*-IsExclusive stays v = v
⟿*-IsExclusive (moves r m) v = ⟿-IsExclusive m (⟿*-IsExclusive r v)

-- In every interleaving of the callers of a new authority, a pair has one permit in force at most; a
-- permit on all pairs is the only one in force, or there is none; and the counter that Drain waits on
-- is the number of permits in force.
pub ⟿*-exclusive :
    (principal : Text) {h : Host}
    → new_host principal ⟿* h
    → ((k : Text) → count (holds_pair k) h.permits ≤ 1)
      × ((count holds_all h.permits ≡ 0) ⊎ (count in_force h.permits ≡ 1))
      × (h.authority.active_ops ≡ count in_force h.permits)
unfolding owner_of
⟿*-exclusive principal {h} r =
    let v = ⟿*-IsExclusive r (new_host-IsExclusive principal) in
    (λ k. ground (arith, v.on_pairs k), alone h v, v.counted)
  where
    alone :
        (h : Host)
        → IsExclusive h
        → (count holds_all h.permits ≡ 0) ⊎ (count in_force h.permits ≡ 1)
    alone h v = elim v.apart [
      | inl unlocked ↦ inl (v.on_all ∙ ap bit unlocked)
      | inr idle ↦
          let on_none =
            count-in_force h.permits
              (λ k. v.on_pairs k ∙ ap (λ l. bit (is_some (owner_of k l))) idle) in
          elim (Bool-cases h.authority.global_locked) [
            | inl locked ↦ inr (on_none ∙ v.on_all ∙ ap bit locked)
            | inr unlocked ↦ inl (v.on_all ∙ ap bit unlocked)
          ]
    ]
