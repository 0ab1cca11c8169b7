-- ===== src/Store/Audit/Chain.antt =====
-- The hash chain as a predicate on the rows, the verification that decides it, and the append that
-- keeps it.
use ai_supervisor.Base.{
  ℕ, ◌+◌, ◌-◌, ◌<◌, List, [], ◌∷◌, ok, ◌≡◌, refl, ◌∙◌, ◌↔◌, ◌==◌, length, arith, Bool-cases,
  Ensures, returns, Ensures-do, Ensures-map, Ensures-then, Ensures-guard, Ensures_elim,
  guard->>-eq-ok, guard-pass, >>=-pass, >>=-eq-ok, inl, inr, subst, sym,
}
use ai_supervisor.Base.Text.{Text, text_eq_iff, text_eq_refl}
use ai_supervisor.Base.Table.{insert}
use ai_supervisor.Store.Schema.{Time, AuditEvent, AuditRow, Db, Codec, genesis_audit_hash}
use ai_supervisor.Store.Audit.{
  row_fields, compute_event_hash_raw, chained_row, chain_event, append_audit_event_tx,
  append_audit_event, verify_rows, verify_audit_chain, order_by_sequence, place, coalesce, nullable,
}

length-place : (r : AuditRow) (rows : List AuditRow) → length (place r rows) ≡ length rows + 1
unfolding place
length-place r [] = refl
length-place r (x ∷ rows) = ground (arith, length-place r rows)

length-order_by_sequence : (rows : List AuditRow) → length (order_by_sequence rows) ≡ length rows
unfolding order_by_sequence
length-order_by_sequence [] = refl
length-order_by_sequence (x ∷ rows) =
    omega (arith, length-place x (order_by_sequence rows), length-order_by_sequence rows)

module _ (c : Codec) where
  -- The rows lead from a sequence number and a hash to others, each linked to the one before.
  abbrev pub Chained : ℕ → Text → List AuditRow → ℕ → Text → Type 0
  Chained n p [] m q = (n ≡ m) × (p ≡ q)
  Chained n p (r ∷ rows) m q =
      (r.sequence ≡ n)
      × (r.prev_hash ≡ p)
      × (r.event_hash ≡ compute_event_hash_raw c (row_fields c r))
      × Chained (n + 1) r.event_hash rows m q

  -- The whole log leads from the genesis hash to the recorded head.
  abbrev pub IsChained : Db → Type 0
  IsChained db = Chained 1 genesis_audit_hash db.audit_events (db.last_sequence + 1) db.last_hash

  pub Chained-insert :
      (n : ℕ) (p : Text) (rows : List AuditRow) (m : ℕ) (q : Text) (r : AuditRow)
      → Chained n p rows m q
      → r.sequence ≡ m
      → r.prev_hash ≡ q
      → r.event_hash ≡ compute_event_hash_raw c (row_fields c r)
      → Chained n p (insert r rows) (m + 1) r.event_hash
  unfolding insert
  Chained-insert n p [] m q r h s e k = (s ∙ sym h.0, e ∙ sym h.1, k, (omega arith, refl))
  Chained-insert n p (x ∷ rows) m q r h s e k =
      (h.0, h.1, h.2, Chained-insert (n + 1) x.event_hash rows m q r h.3 s e k)

  pub Chained-le :
      (n : ℕ) (p : Text) (rows : List AuditRow) (m : ℕ) (q : Text)
      → Chained n p rows m q
      → n + length rows ≡ m
  Chained-le n p [] m q h = omega arith
  Chained-le n p (x ∷ rows) m q h = omega (arith, Chained-le (n + 1) x.event_hash rows m q h.3)

  pub Chained-verify_rows :
      (n : ℕ) (p : Text) (rows : List AuditRow) (m : ℕ) (q : Text)
      → Chained n p rows m q
      → verify_rows c n p rows ≡ ok (m, q)
  unfolding verify_rows
  Chained-verify_rows n p [] m q h = ground arith
  Chained-verify_rows n p (x ∷ rows) m q h =
      guard-pass _ _ _ (ground arith)
      ∙ guard-pass _ _ _ ((text_eq_iff _ _).1 h.1)
      ∙ guard-pass _ _ _ ((text_eq_iff _ _).1 h.2)
      ∙ Chained-verify_rows (n + 1) x.event_hash rows m q h.3

  verify_rows-Chained :
      (n : ℕ) (p : Text) (rows : List AuditRow) (m : ℕ) (q : Text)
      → verify_rows c n p rows ≡ ok (m, q)
      → Chained n p rows m q
  unfolding verify_rows
  verify_rows-Chained n p [] m q h = ground arith
  verify_rows-Chained n p (x ∷ rows) m q h =
      let (a, h1) = guard->>-eq-ok _ _ _ h in
      let (b, h2) = guard->>-eq-ok _ _ _ h1 in
      let (d, h3) = guard->>-eq-ok _ _ _ h2 in
      (
        ground arith,
        (text_eq_iff _ _).0 b,
        (text_eq_iff _ _).0 d,
        verify_rows-Chained (n + 1) x.event_hash rows m q h3,
      )

  place-head :
      (r : AuditRow) (n : ℕ) (p : Text) (rows : List AuditRow) (m : ℕ) (q : Text)
      → r.sequence < n
      → Chained n p rows m q
      → place r rows ≡ r ∷ rows
  unfolding place
  place-head r n p [] m q lt h = refl
  place-head r n p (x ∷ rows) m q lt h = ground arith

  -- Chained rows are in the order of their sequence numbers already.
  Chained-ordered :
      (n : ℕ) (p : Text) (rows : List AuditRow) (m : ℕ) (q : Text)
      → Chained n p rows m q
      → order_by_sequence rows ≡ rows
  unfolding order_by_sequence
  Chained-ordered n p [] m q h = refl
  Chained-ordered n p (x ∷ rows) m q h =
      rw (Chained-ordered (n + 1) x.event_hash rows m q h.3)
        (place-head x (n + 1) x.event_hash rows m q (omega arith) h.3)

  Chained-empty :
      (n : ℕ) (p : Text) (rows : List AuditRow) (m : ℕ) (q : Text)
      → Chained n p rows m q
      → n ≡ m
      → p ≡ q
  Chained-empty n p [] m q h e = h.1
  Chained-empty n p (x ∷ rows) m q h e =
      absurd (omega (arith, Chained-le (n + 1) x.event_hash rows m q h.3))

  -- The log, read in the order of its sequence numbers, leads from the genesis hash to the head.
  abbrev pub IsVerified : Db → Type 0
  IsVerified db =
      Chained 1 genesis_audit_hash (order_by_sequence db.audit_events) (db.last_sequence + 1)
        db.last_hash

  IsVerified-verify : (db : Db) → IsVerified db → verify_audit_chain c db ≡ ok tt
  unfolding verify_audit_chain
  IsVerified-verify db h = elim (Bool-cases (db.last_sequence == 0)) [
    | inl empty ↦ rw empty (
        guard-pass _ _ _ ((text_eq_iff _ _).1 (sym (Chained-empty _ _ _ _ _ h (ground arith))))
        ∙ guard-pass _ _ _
            (ground (arith, Chained-le _ _ _ _ _ h, length-order_by_sequence db.audit_events)))
    | inr more ↦ rw more (
        >>=-pass _ _ (Chained-verify_rows _ _ _ _ _ h)
        ∙ guard-pass _ _ _ (ground arith)
        ∙ guard-pass _ _ _ (text_eq_refl _))
  ]

  verified_empty :
      (p : Text) (rows : List AuditRow) (n m : ℕ) (q : Text)
      → length rows ≡ 0
      → n ≡ m
      → p ≡ q
      → Chained n p (order_by_sequence rows) m q
  unfolding order_by_sequence
  verified_empty p [] n m q l e k = (e, k)
  verified_empty p (x ∷ rows) n m q l e k = absurd (omega arith)

  end_of_chain :
      (n : ℕ) (p : Text) (rows : List AuditRow) (end : ℕ × Text) (m : ℕ) (q : Text)
      → verify_rows c n p rows ≡ ok end
      → end.0 - 1 ≡ m
      → 0 < m
      → end.1 ≡ q
      → Chained n p rows (m + 1) q
  end_of_chain n p rows (k, r) m q h s pos e =
      subst (λ x. Chained n p rows (m + 1) x) e
        (subst (λ x. Chained n p rows x r) (omega arith) (verify_rows-Chained n p rows k r h))

  verify-IsVerified : (db : Db) → verify_audit_chain c db ≡ ok tt → IsVerified db
  unfolding verify_audit_chain
  verify-IsVerified db h = elim (Bool-cases (db.last_sequence == 0)) [
    | inl empty ↦
        let (a, h1) = guard->>-eq-ok _ _ _ (rw empty at h) in
        let (b, h2) = guard->>-eq-ok _ _ _ h1 in
        verified_empty genesis_audit_hash db.audit_events 1 (db.last_sequence + 1) db.last_hash
          (ground arith) (ground arith) (sym ((text_eq_iff _ _).0 a))
    | inr more ↦
        let (end, run, h0) = >>=-eq-ok _ _ (rw more at h) in
        let (a, h1) = guard->>-eq-ok _ _ _ h0 in
        let (b, h2) = guard->>-eq-ok _ _ _ h1 in
        end_of_chain 1 genesis_audit_hash (order_by_sequence db.audit_events) end db.last_sequence
          db.last_hash run (ground arith) (ground arith) ((text_eq_iff _ _).0 b)
  ]

  -- VerifyAuditChain succeeds exactly if the log, in the order of its sequence numbers, is linked
  -- row by row from the genesis hash to the recorded head.
  pub verify_audit_chain_iff : (db : Db) → (verify_audit_chain c db ≡ ok tt) ↔ IsVerified db
  verify_audit_chain_iff db = (verify-IsVerified db, IsVerified-verify db)

  -- A log whose rows are chained as they were inserted is verified.
  pub IsChained-verify : (db : Db) → IsChained db → verify_audit_chain c db ≡ ok tt
  IsChained-verify db h = IsVerified-verify db (
      rw
        (Chained-ordered 1 genesis_audit_hash db.audit_events (db.last_sequence + 1) db.last_hash h)
        h)

  coalesce-nullable : (s : Text) → coalesce (nullable s) ≡ s
  coalesce-nullable [] = refl
  coalesce-nullable (x ∷ s) = refl

  -- The hash of a new row is that of its stored columns.
  chained_row-hash :
      (event : AuditEvent) (json : Text) (db : Db)
      → (chained_row c event json db).event_hash
        ≡ compute_event_hash_raw c (row_fields c (chained_row c event json db))
  unfolding chained_row row_fields
  chained_row-hash event json db = simp coalesce-nullable

  -- The database after an append: one more row, which is the new head, and all else as it was.
  abbrev pub append_row : AuditRow → Db → Db
  append_row row db = record db {
    audit_events = insert row db.audit_events;
    last_sequence = row.sequence;
    last_hash = row.event_hash;
  }

  -- `row` continues the chain of `db`.
  abbrev pub Continues : Db → AuditRow → Type 0
  Continues db row =
      (row.sequence ≡ db.last_sequence + 1)
      × (row.prev_hash ≡ db.last_hash)
      × (row.event_hash ≡ compute_event_hash_raw c (row_fields c row))

  abbrev pub Appended : Db → Db × AuditRow → Type 0
  Appended db r = (r.0 ≡ append_row r.1 db) × Continues db r.1

  chain_event-Appended :
      (event : AuditEvent) (json : Text) (db : Db)
      → Ensures (Appended db) (chain_event c event json db)
  unfolding chain_event
  chain_event-Appended event json db = Ensures-guard _ _ _ λ unique. returns (refl, continues)
    where
      continues : Continues db (chained_row c event json db)
      continues =
          (unfold chained_row in refl, unfold chained_row in refl, chained_row-hash event json db)

  pub append_audit_event_tx-Appended :
      (now : Time) (event : AuditEvent) (db : Db)
      → Ensures (Appended db) (append_audit_event_tx c now event db)
  unfolding append_audit_event_tx
  append_audit_event_tx-Appended now event db =
      Ensures-do _ _
        λ prepared e. Ensures-then _ _ λ lineage. chain_event-Appended prepared.0 prepared.1 db

  -- A database that differs in the log and its head.
  abbrev pub Logged : Db → Db → Type 0
  Logged db d = d ≡ record db {
    audit_events = d.audit_events;
    last_sequence = d.last_sequence;
    last_hash = d.last_hash;
  }

  pub append_audit_event_tx-Logged :
      (now : Time) (event : AuditEvent) (db : Db)
      → Ensures (λ r. Logged db r.0) (append_audit_event_tx c now event db)
  append_audit_event_tx-Logged now event db =
      Ensures-map (λ r a. subst (Logged db) (sym a.0) refl)
        (append_audit_event_tx-Appended now event db)

  pub append_audit_event-Appended :
      (now : Time) (event : AuditEvent) (db : Db)
      → Ensures (Appended db) (append_audit_event c now event db)
  unfolding append_audit_event
  append_audit_event-Appended now event db = Ensures-do _ _ λ prepared e.
      Ensures-then _ _ λ lineage. Ensures-guard _ _ _ λ task_known.
        Ensures-guard _ _ _ λ pair_known. chain_event-Appended prepared.0 prepared.1 db

  pub Appended-IsChained :
      (db : Db) (r : Db × AuditRow) → Appended db r → IsChained db → IsChained r.0
  Appended-IsChained db r (e, next) h = subst IsChained (sym e) (
      subst (λ n. Chained 1 genesis_audit_hash (insert r.1 db.audit_events) (n + 1) r.1.event_hash)
        (sym next.0)
        (Chained-insert 1 genesis_audit_hash db.audit_events (db.last_sequence + 1) db.last_hash r.1
          h next.0 next.1 next.2))

  -- Appending to a chained log gives a chained log, which VerifyAuditChain accepts.
  pub append_audit_event-verify :
      (now : Time) (event : AuditEvent) (db : Db) {r : Db × AuditRow}
      → IsChained db
      → append_audit_event c now event db ≡ ok r
      → IsChained r.0 × (verify_audit_chain c r.0 ≡ ok tt)
  append_audit_event-verify now event db {r} h e =
      let chained =
        Appended-IsChained db r (Ensures_elim (append_audit_event-Appended now event db) e) h in
      (chained, IsChained-verify r.0 chained)
