-- ===== src/Host/Authority/Counts.antt =====
-- Which permits are in force, and how their number changes with the list.
use ai_supervisor.Base.{
  ℕ, zero, suc, ◌+◌, ◌≡◌, Bool, true, false, ◌&&◌, not, some, List, [], ◌∷◌, ◌++◌, if◌then◌else◌,
  arith, refl,
}
use ai_supervisor.Base.Table.{count}
use ai_supervisor.Base.Text.{Text, ◌=ᵗ◌, text_eq_refl}
use ai_supervisor.Host.Authority.{Scope, pair, global, ScopePermit}
use ai_supervisor.Host.Authority.Moves.{get_elem?, set}

abbrev pub bit : Bool → ℕ
bit b = if b then 1 else 0

abbrev pub on_pair : Text → Scope → Bool
on_pair k (pair pair_id) = pair_id =ᵗ k
on_pair k global = false

abbrev pub is_global : Scope → Bool
is_global (pair pair_id) = false
is_global global = true

-- A permit that its holder has not released: on a pair, on all pairs, on either.
abbrev pub holds_pair : Text → ScopePermit → Bool
holds_pair k p = not p.released && on_pair k p.scope

abbrev pub holds_all : ScopePermit → Bool
holds_all p = not p.released && is_global p.scope

abbrev pub in_force : ScopePermit → Bool
in_force p = not p.released

module _ {A : Type 0} where
  pub count-append :
      (f : A → Bool) (l : List A) (x : A) → count f (l ++ x ∷ []) ≡ count f l + bit (f x)
  unfolding count
  count-append f [] x = omega arith
  count-append f (y ∷ l) x = omega (arith, count-append f l x)

  pub count-set :
      (f : A → Bool) (l : List A) (i : ℕ) (x y : A)
      → get_elem? l i ≡ some x
      → count f (set l i y) + bit (f x) ≡ count f l + bit (f y)
  unfolding count
  count-set f [] i x y h = cc
  count-set f (z ∷ l) zero x y h = let e : z ≡ x = cc in rw e (omega arith)
  count-set f (z ∷ l) (suc i) x y h = omega (arith, count-set f l i x y h)

-- A permit in force is on a pair or on all pairs.
in_force-cases :
    (released : Bool) (scope : Scope)
    → ((k : Text) → bit (not released && on_pair k scope) ≡ 0)
    → bit (not released) ≡ bit (not released && is_global scope)
in_force-cases true scope h = refl
in_force-cases false global h = refl
in_force-cases false (pair k) h = let off = h k in let same = text_eq_refl k in ground arith

-- Where no pair is held, the permits in force are on all pairs.
pub count-in_force :
    (l : List ScopePermit)
    → ((k : Text) → count (holds_pair k) l ≡ 0)
    → count in_force l ≡ count holds_all l
unfolding count
count-in_force [] h = refl
count-in_force (p ∷ l) h = omega (
  arith,
  count-in_force l (λ k. omega (arith, h k)),
  in_force-cases p.released p.scope (λ k. omega (arith, h k)),
)
