-- ===== src/Store/Audit/Tamper.antt =====
-- The head of a verified log of internal/store/audit_store.go against its rows.
use ai_supervisor.Base.{
  ℕ, ◌+◌, ok, List, [], ◌∷◌, map, ◌≡◌, refl, sym, ap, ◌∙◌, subst, ◌≢◌, ◌⊎◌, inl, inr, false,
  Bool-cases, All, arith,
}
use ai_supervisor.Base.Text.{Text, ◌=ᵗ◌, text_eq_iff}
use ai_supervisor.Store.Schema.{AuditRow, Db, Codec, genesis_audit_hash}
use ai_supervisor.Store.Audit.{
  HashedFields, hash_input, row_fields, compute_event_hash_raw, verify_audit_chain,
  order_by_sequence,
}
use ai_supervisor.Store.Audit.Chain.{Chained, Chained-le, verify_audit_chain_iff}
use ai_supervisor.Store.Audit.Framing.{Fits, hash_input_injective}

module _ (c : Codec) where
  -- Two texts with one hash.
  abbrev pub Collision : Type 0
  Collision = (x : Text) × (y : Text) × (x ≢ y) × (c.sha256_hex x ≡ c.sha256_hex y)

  abbrev pub AllFit : List AuditRow → Type 0
  AllFit = All (λ r. Fits (row_fields c r))

  unequal : (x y : Text) → (x =ᵗ y) ≡ false → x ≢ y
  unequal x y h e = let same = (text_eq_iff x y).1 e in absurd (cc)

  hash_determines :
      (f g : HashedFields)
      → Fits f
      → Fits g
      → compute_event_hash_raw c f ≡ compute_event_hash_raw c g
      → (f ≡ g) ⊎ Collision
  unfolding compute_event_hash_raw
  hash_determines f g v w e = elim (Bool-cases (hash_input f =ᵗ hash_input g)) [
    | inl same ↦ inl (hash_input_injective f g v w ((text_eq_iff _ _).0 same))
    | inr differ ↦ inr (hash_input f, hash_input g, unequal _ _ differ, e)
  ]

  same_prev : (x y : AuditRow) → row_fields c x ≡ row_fields c y → x.prev_hash ≡ y.prev_hash
  unfolding row_fields
  same_prev x y e = ap (λ f. f.prev_hash) e

  abbrev SameRows : Text → Text → List AuditRow → List AuditRow → Type 0
  SameRows p p' rows rows' =
      ((p ≡ p') × (map (row_fields c) rows ≡ map (row_fields c) rows')) ⊎ Collision

  same_rows :
      (n : ℕ) (p p' : Text) (rows rows' : List AuditRow) (m : ℕ) (q : Text)
      → AllFit rows
      → AllFit rows'
      → Chained c n p rows m q
      → Chained c n p' rows' m q
      → SameRows p p' rows rows'
  same_rows n p p' [] [] m q v w h k = inl (h.1 ∙ sym k.1, refl)
  same_rows n p p' [] (y ∷ rows') m q v w h k =
      absurd (omega (arith, Chained-le c (n + 1) y.event_hash rows' m q k.3))
  same_rows n p p' (x ∷ rows) [] m q v w h k =
      absurd (omega (arith, Chained-le c (n + 1) x.event_hash rows m q h.3))
  same_rows n p p' (x ∷ rows) (y ∷ rows') m q v w h k =
      elim (same_rows (n + 1) x.event_hash y.event_hash rows rows' m q v.1 w.1 h.3 k.3) [
        | inr collision ↦ inr collision
        | inl (hashes, tails) ↦
            elim (hash_determines (row_fields c x) (row_fields c y) v.0 w.0
              (sym h.2 ∙ hashes ∙ k.2)) [
                | inr collision ↦ inr collision
                | inl fields ↦ inl (sym h.1 ∙ same_prev x y fields ∙ k.1, cc)
              ]
      ]

  -- Two logs that VerifyAuditChain accepts, with the same head, agree in the sequence number, the
  -- event, the identities, the actor, the details and the previous hash of every row, or else there
  -- are two different texts with the same SHA-256; the fields are taken to fit their length prefixes.
  pub head_determines_log :
      (a b : Db)
      → AllFit (order_by_sequence a.audit_events)
      → AllFit (order_by_sequence b.audit_events)
      → verify_audit_chain c a ≡ ok tt
      → verify_audit_chain c b ≡ ok tt
      → a.last_sequence ≡ b.last_sequence
      → a.last_hash ≡ b.last_hash
      → (map (row_fields c) (order_by_sequence a.audit_events)
          ≡ map (row_fields c) (order_by_sequence b.audit_events))
        ⊎ Collision
  head_determines_log a b v w h k s e =
      let ha = (verify_audit_chain_iff c a).0 h in
      let hb = (verify_audit_chain_iff c b).0 k in
      let moved : Chained c 1 genesis_audit_hash (order_by_sequence a.audit_events)
          (b.last_sequence + 1) b.last_hash =
        subst
          (λ n.
            Chained c 1 genesis_audit_hash (order_by_sequence a.audit_events) (n + 1) b.last_hash)
          s
          (subst
            (λ t.
              Chained c 1 genesis_audit_hash (order_by_sequence a.audit_events)
                (a.last_sequence + 1) t)
            e ha) in
      elim (same_rows 1 genesis_audit_hash genesis_audit_hash _ _ (b.last_sequence + 1) b.last_hash
        v w moved hb) [ inl same ↦ inl same.1 | inr collision ↦ inr collision ]
