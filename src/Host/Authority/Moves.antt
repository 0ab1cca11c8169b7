-- ===== src/Host/Authority/Moves.antt =====
-- The callers of internal/host/authority.go: any of them may call at any time, in any order.
use ai_supervisor.Base.{ℕ, zero, suc, ◌≡◌, Option, none, some, List, [], ◌∷◌, ◌++◌, ok}
use ai_supervisor.Base.Text.{Text}
use ai_supervisor.Host.Authority.{
  Authority, ScopePermit, acquire_exclusive_scope, acquire_global_exclusive_scope, release,
  set_unavailable, new_authority,
}

-- The authority, and every permit that it has given out, in order.
pub record Host : Type 0 where
  pub authority : Authority
  pub permits : List ScopePermit

module _ {A : Type 0} where
  abbrev pub get_elem? : List A → ℕ → Option A
  get_elem? [] i = none
  get_elem? (x ∷ l) zero = some x
  get_elem? (x ∷ l) (suc i) = get_elem? l i

  abbrev pub set : List A → ℕ → A → List A
  set [] i v = []
  set (x ∷ l) zero v = v ∷ l
  set (x ∷ l) (suc i) v = x ∷ set l i v

abbrev pub new_host : Text → Host
new_host principal = record { authority = new_authority principal; permits = [] }

-- One call by someone. The maintenance and effect scopes, and that of a recovery scan, are calls of
-- the two acquisitions; Drain closes the admission as SetUnavailable does, before it waits.
infix 20 ◌⟿◌ ◌⟿*◌
pub data ◌⟿◌ : Host → Host → Type 0 where
  acquires :
      {h : Host} (pair_id purpose : Text) (a : Authority) (p : ScopePermit)
      → acquire_exclusive_scope h.authority pair_id purpose ≡ ok (a, p)
      → h ⟿ record { authority = a; permits = h.permits ++ p ∷ [] }
  acquires_all :
      {h : Host} (purpose : Text) (a : Authority) (p : ScopePermit)
      → acquire_global_exclusive_scope h.authority purpose ≡ ok (a, p)
      → h ⟿ record { authority = a; permits = h.permits ++ p ∷ [] }
  releases :
      {h : Host} (i : ℕ) (p : ScopePermit) (a : Authority) (q : ScopePermit)
      → get_elem? h.permits i ≡ some p
      → release p h.authority ≡ some (a, q)
      → h ⟿ record { authority = a; permits = set h.permits i q }
  closes_admission :
      {h : Host} → h ⟿ record { authority = set_unavailable h.authority; permits = h.permits }

pub data ◌⟿*◌ : Host → Host → Type 0 where
  stays : {h : Host} → h ⟿* h
  moves : {h k l : Host} → h ⟿* k → k ⟿ l → h ⟿* l
