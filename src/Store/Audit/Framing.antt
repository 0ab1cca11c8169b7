-- ===== src/Store/Audit/Framing.antt =====
-- The framing of the hashed fields is injective, so that equal hashes mean equal fields.
use ai_supervisor.Base.{ℕ, ◌/◌, ◌%◌, ◌^◌, ◌<◌, [], ◌∷◌, ◌++◌, ◌≡◌, refl, length, arith}
use ai_supervisor.Base.Text.{Text}
use ai_supervisor.Store.Audit.{
  big_endian, prefixed, audit_domain_separator, HashedFields, hash_input,
}

append_injective : (s t x y : Text) → length s ≡ length t → s ++ x ≡ t ++ y → (s ≡ t) × (x ≡ y)
append_injective [] [] x y l e = (refl, e)
append_injective [] (b ∷ t) x y l e = absurd (omega arith)
append_injective (a ∷ s) [] x y l e = absurd (omega arith)
append_injective (a ∷ s) (b ∷ t) x y l e =
    let (p, q) = append_injective s t x y (omega arith) (cc) in (cc, q)

-- A number below the width is read back from its bytes.
big_endian_4 :
    (n m : ℕ) (x y : Text)
    → n < 2 ^ 32
    → m < 2 ^ 32
    → big_endian 4 n ++ x ≡ big_endian 4 m ++ y
    → (n ≡ m) × (x ≡ y)
unfolding big_endian
big_endian_4 n m x y hn hm e =
    let d3 : n / 256 ^ 3 % 256 ≡ m / 256 ^ 3 % 256 = cc in
    let d2 : n / 256 ^ 2 % 256 ≡ m / 256 ^ 2 % 256 = cc in
    let d1 : n / 256 ^ 1 % 256 ≡ m / 256 ^ 1 % 256 = cc in
    let d0 : n / 256 ^ 0 % 256 ≡ m / 256 ^ 0 % 256 = cc in (omega arith, cc)

big_endian_8 :
    (n m : ℕ) (x y : Text)
    → n < 2 ^ 64
    → m < 2 ^ 64
    → big_endian 8 n ++ x ≡ big_endian 8 m ++ y
    → (n ≡ m) × (x ≡ y)
unfolding big_endian
big_endian_8 n m x y hn hm e =
    let d7 : n / 256 ^ 7 % 256 ≡ m / 256 ^ 7 % 256 = cc in
    let d6 : n / 256 ^ 6 % 256 ≡ m / 256 ^ 6 % 256 = cc in
    let d5 : n / 256 ^ 5 % 256 ≡ m / 256 ^ 5 % 256 = cc in
    let d4 : n / 256 ^ 4 % 256 ≡ m / 256 ^ 4 % 256 = cc in
    let d3 : n / 256 ^ 3 % 256 ≡ m / 256 ^ 3 % 256 = cc in
    let d2 : n / 256 ^ 2 % 256 ≡ m / 256 ^ 2 % 256 = cc in
    let d1 : n / 256 ^ 1 % 256 ≡ m / 256 ^ 1 % 256 = cc in
    let d0 : n / 256 ^ 0 % 256 ≡ m / 256 ^ 0 % 256 = cc in (omega arith, cc)

-- A length fits the four bytes that are written of it.
abbrev pub IsFramable : Text → Type 0
IsFramable s = length s < 2 ^ 32

prefixed_injective :
    (s t x y : Text) → IsFramable s → IsFramable t → prefixed s x ≡ prefixed t y → (s ≡ t) × (x ≡ y)
unfolding prefixed
prefixed_injective s t x y hs ht e =
    let (l, rest) = big_endian_4 (length s) (length t) (s ++ x) (t ++ y) hs ht e in
    append_injective s t x y l rest

-- The sequence number fits an int64, and the fields the length prefixes.
pub record Fits (f : HashedFields) : Type 0 where
  pub sequence : f.sequence < 2 ^ 64
  pub event_id : IsFramable f.event_id
  pub event_type : IsFramable f.event_type
  pub timestamp : IsFramable f.timestamp
  pub pair_id : IsFramable f.pair_id
  pub task_id : IsFramable f.task_id
  pub contract_id : IsFramable f.contract_id
  pub attempt_id : IsFramable f.attempt_id
  pub actor : IsFramable f.actor
  pub details_json : IsFramable f.details_json
  pub prev_hash : IsFramable f.prev_hash

separator-IsFramable : IsFramable audit_domain_separator
unfolding audit_domain_separator
separator-IsFramable = omega arith

-- The bytes that are hashed determine every field, if the sequence number is below 2^64 and the
-- length of each field below 2^32.
pub hash_input_injective :
    (f g : HashedFields) → Fits f → Fits g → hash_input f ≡ hash_input g → f ≡ g
unfolding hash_input
hash_input_injective f g v w e =
    let (a0, e0) = prefixed_injective _ _ _ _ separator-IsFramable separator-IsFramable e in
    let (a1, e1) = big_endian_8 _ _ _ _ v.sequence w.sequence e0 in
    let (a2, e2) = prefixed_injective _ _ _ _ v.event_id w.event_id e1 in
    let (a3, e3) = prefixed_injective _ _ _ _ v.event_type w.event_type e2 in
    let (a4, e4) = prefixed_injective _ _ _ _ v.timestamp w.timestamp e3 in
    let (a5, e5) = prefixed_injective _ _ _ _ v.pair_id w.pair_id e4 in
    let (a6, e6) = prefixed_injective _ _ _ _ v.task_id w.task_id e5 in
    let (a7, e7) = prefixed_injective _ _ _ _ v.contract_id w.contract_id e6 in
    let (a8, e8) = prefixed_injective _ _ _ _ v.attempt_id w.attempt_id e7 in
    let (a9, e9) = prefixed_injective _ _ _ _ v.actor w.actor e8 in
    let (a10, e10) = prefixed_injective _ _ _ _ v.details_json w.details_json e9 in
    let (a11, e11) = prefixed_injective _ _ _ _ v.prev_hash w.prev_hash e10 in cc
