-- ===== src/Store/Provisioning/Lane.antt =====
-- The lane of a pair between the reservation of its session and the confirmation, in
-- internal/store/provisioning_transactions.go and the dispatch of internal/store/dispatch.go.
use ai_supervisor.Base.{
  ◌≡◌, refl, sym, ap, ◌∙◌, subst, Bool, true, false, ◌&&◌, ◌||◌, not, ok, List, ◌⊎◌, inl, inr,
  Bool-cases, Ensures, returns, Ensures-guard, Ensures-or_fail, Ensures-bind, Ensures_elim,
  if◌then◌else◌, arith,
}
use ai_supervisor.Base.Text.{Text, ◌=ᵗ◌, text_eq_refl}
use ai_supervisor.Base.Table.{exists_row, update}
use ai_supervisor.Base.Table.Laws.{updated}
use ai_supervisor.Base.Table.Rows.{exists_row-insert_self, exists_row-update_mono}
use ai_supervisor.Store.Schema.{
  Time, Outcome, Codec, Surroundings, ProvisioningRow, Db, provision_failed, is_unresolved_stage,
}
use ai_supervisor.Store.Audit.Chain.{append_audit_event_tx-Logged}
use ai_supervisor.Store.Provisioning.{
  has_unresolved_operation, insert_provisioning, requested_row, reserve_pair_provisioning,
  fail_pair_provisioning, classify_intent, fail_provisioning_at_startup,
}

abbrev awaits : Text → ProvisioningRow → Bool
awaits pair_id p = p.pair_id =ᵗ pair_id && is_unresolved_stage p.stage

-- The pair has a provisioning that is neither confirmed nor resolved.
abbrev pub Awaits : Text → Db → Type 0
Awaits pair_id db = exists_row (awaits pair_id) db.provisionings ≡ true

still-awaits :
    (pair_id : Text) {l m : List ProvisioningRow}
    → m ≡ l
    → exists_row (awaits pair_id) l ≡ true
    → exists_row (awaits pair_id) m ≡ true
still-awaits pair_id same h = ap (exists_row (awaits pair_id)) same ∙ h

-- An update that leaves a row's pair, and its stage unresolved.
failed-awaits :
    (pair_id : Text) (p : ProvisioningRow → Bool) (u : ProvisioningRow → ProvisioningRow)
    (r : ProvisioningRow)
    → ((u r).pair_id ≡ r.pair_id)
    → ((u r).stage ≡ provision_failed)
    → awaits pair_id r ≡ true
    → awaits pair_id (updated p u r) ≡ true
failed-awaits pair_id p u r same stage h = elim (Bool-cases (p r)) [
  | inl hit ↦
      let own : (r.pair_id =ᵗ pair_id) ≡ true = ground arith in
      rw hit (rw same (rw stage (rw own refl)))
  | inr miss ↦ rw miss h
]

failed-exists :
    (pair_id : Text) (p : ProvisioningRow → Bool) (u : ProvisioningRow → ProvisioningRow)
    (l : List ProvisioningRow)
    → ((r : ProvisioningRow) → (u r).pair_id ≡ r.pair_id)
    → ((r : ProvisioningRow) → (u r).stage ≡ provision_failed)
    → exists_row (awaits pair_id) l ≡ true
    → exists_row (awaits pair_id) (update p u l) ≡ true
failed-exists pair_id p u l same stage h =
    exists_row-update_mono (awaits pair_id) p u l
      (λ r k. failed-awaits pair_id p u r (same r) (stage r) k) h

first_of_three : (a b d : Bool) → not (a || b || d) ≡ true → b ≡ false
first_of_three a b d h = ground arith

module _ (c : Codec) (s : Surroundings) where
  insert-Awaits :
      (p : ProvisioningRow) (db : Db)
      → is_unresolved_stage p.stage ≡ true
      → Ensures (Awaits p.pair_id) (insert_provisioning p db)
  unfolding insert_provisioning
  insert-Awaits p db h = Ensures-guard _ _ _ λ fresh. Ensures-guard _ _ _ λ pair. returns (
      exists_row-insert_self (awaits p.pair_id) p db.provisionings
        (rw (text_eq_refl p.pair_id) (rw h refl)))

  reserve-Awaits :
      (op pair token : Text) (at : Time) (actor : Text) (db : Db)
      → Ensures (Awaits pair) (reserve_pair_provisioning c s op pair token at actor db)
  unfolding reserve_pair_provisioning requested_row
  reserve-Awaits op pair token at actor db = Ensures-guard _ _ _ λ given.
      Ensures-or_fail _ _ _ λ id drawn. Ensures-guard _ _ _ λ no_session.
        Ensures-guard _ _ _ λ resolved. Ensures-guard _ _ _ λ quiet. Ensures-guard _ _ _ λ clean.
          Ensures-bind _ (insert-Awaits _ db refl) λ d held.
            Ensures-bind _ (append_audit_event_tx-Logged c s.now _ d)
              λ r same. returns (still-awaits pair (ap (λ y. y.provisionings) same) held)

  fail-Awaits :
      (pair op actor reason : Text) (at : Time) (db : Db)
      → Awaits pair db
      → Ensures (Awaits pair) (fail_pair_provisioning c s op actor reason at db)
  unfolding fail_pair_provisioning
  fail-Awaits pair op actor reason at db held = Ensures-guard _ _ _ λ given.
      Ensures-or_fail _ _ _ λ id drawn. Ensures-or_fail _ _ _ λ p found.
        Ensures-bind _ (append_audit_event_tx-Logged c s.now _ db) λ r same.
          Ensures-guard _ _ _ λ one. returns (
            failed-exists pair _ _ r.0.provisionings (λ x. refl) (λ x. refl)
              (still-awaits pair (ap (λ y. y.provisionings) same) held))

  classify-Awaits :
      (pair op actor : Text) (at : Time) (p : ProvisioningRow) (db : Db)
      → Awaits pair db
      → Ensures (Awaits pair) (classify_intent c s op actor at p db)
  unfolding classify_intent
  classify-Awaits pair op actor at p db held = Ensures-guard _ _ _ λ requested.
      Ensures-guard _ _ _ λ some_row. Ensures-or_fail _ _ _ λ id drawn.
        Ensures-bind _ (append_audit_event_tx-Logged c s.now _ _) λ r same. returns (
          still-awaits pair (ap (λ y. y.provisionings) same)
            (failed-exists pair _ _ db.provisionings (λ x. refl) (λ x. refl) held))

  at_startup-Awaits :
      (pair op actor : Text) (at : Time) (db : Db)
      → Awaits pair db
      → Ensures (Awaits pair) (fail_provisioning_at_startup c s op actor at db)
  unfolding fail_provisioning_at_startup
  at_startup-Awaits pair op actor at db held =
      Ensures-guard _ _ _ λ given.
        Ensures-or_fail _ _ _ λ p found. either _ (classify-Awaits pair op actor _ p db held)
    where
      either :
          (b : Bool) {m : Outcome Db}
          → Ensures (Awaits pair) m
          → Ensures (Awaits pair) (if b then ok db else m)
      either true m = returns held
      either false m = m

  -- What a reservation that returned says of the pair.
  reserve-refused :
      (op pair token : Text) (at : Time) (actor : Text) (db : Db)
      → Awaits pair db
      → Ensures (λ d. ⊥) (reserve_pair_provisioning c s op pair token at actor db)
  unfolding reserve_pair_provisioning has_unresolved_operation
  reserve-refused op pair token at actor db held = Ensures-guard _ _ _ λ given.
      Ensures-or_fail _ _ _ λ id drawn. Ensures-guard _ _ _ λ no_session.
        Ensures-guard _ _ _ λ resolved.
          let none_awaits =
            first_of_three _ (exists_row (awaits pair) db.provisionings) _ resolved in
          absurd (cc)

-- Once ReservePairProvisioning has returned, and also when the creation has then failed or the
-- startup has found it interrupted, no other reservation of the pair returns.
pub reserve_pair_provisioning-unavailable :
    (c : Codec) (s : Surroundings) (op pair token : Text) (at : Time) (actor : Text) (db : Db)
    (s₁ : Surroundings) (op₁ actor₁ reason : Text) (at₁ : Time) (s₂ : Surroundings)
    (op₂ token₂ : Text) (at₂ : Time) (actor₂ : Text) {d e f : Db}
    → reserve_pair_provisioning c s op pair token at actor db ≡ ok d
    → (e ≡ d)
      ⊎ ((fail_pair_provisioning c s₁ op₁ actor₁ reason at₁ d ≡ ok e)
          ⊎ (fail_provisioning_at_startup c s₁ op₁ actor₁ at₁ d ≡ ok e))
    → ¬ (reserve_pair_provisioning c s₂ op₂ pair token₂ at₂ actor₂ e ≡ ok f)
reserve_pair_provisioning-unavailable c s op pair token at actor db s₁ op₁ actor₁ reason at₁ s₂ op₂
      token₂ at₂ actor₂ {d} {e} {f} reserved next again =
    let held : Awaits pair d =
      Ensures_elim (reserve-Awaits c s op pair token at actor db) reserved in
    let still : Awaits pair e = elim next [
      | inl same ↦ subst (Awaits pair) (sym same) held
      | inr (inl failed) ↦ Ensures_elim (fail-Awaits c s₁ pair op₁ actor₁ reason at₁ d held) failed
      | inr (inr interrupted) ↦
          Ensures_elim (at_startup-Awaits c s₁ pair op₁ actor₁ at₁ d held) interrupted
    ] in
    Ensures_elim {Q = λ x. ⊥} (reserve-refused c s₂ op₂ pair token₂ at₂ actor₂ e still) again
