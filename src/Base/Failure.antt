-- ===== src/Base/Failure.antt =====
-- Fallible code: a result with an error, and a postcondition logic for it. The operations stay
-- shut in proofs, so that each rule finds its place in a `do` block.
use mathlib.Core.Path.{◌≡◌, refl, subst}
use mathlib.Core.Bool.{Bool, true, false}
use mathlib.Core.Option.{Option, none, some}

pub data Result (E A : Type 0) : Type 0 where
  ok : A → Result E A
  err : E → Result E A

infixl 5 ◌>>=◌ ◌>>◌
unfoldable pub ◌>>=◌ : {E A B : Type 0} → Result E A → (A → Result E B) → Result E B
ok a >>= f = f a
err e >>= f = err e

unfoldable pub ◌>>◌ : {E B : Type 0} → Result E (Unit {0}) → Result E B → Result E B
ok a >> k = k
err e >> k = err e

-- `if !test { return err }`
unfoldable pub guard : {E : Type 0} → Bool → E → Result E (Unit {0})
guard true e = ok tt
guard false e = err e

-- A query whose missing row is an error.
unfoldable pub or_fail : {E A : Type 0} → Option A → E → Result E A
or_fail none e = err e
or_fail (some a) e = ok a

-- What holds of the value, if the code returns one.
pub data Ensures {E A : Type 0} (Q : A → Type 0) : Result E A → Type 0 where
  returns : {a : A} → Q a → Ensures Q (ok a)
  fails : (e : E) → Ensures Q (err e)

pub Ensures-guard :
    {E A : Type 0} {Q : A → Type 0} (b : Bool) (e : E) (k : Result E A)
    → (b ≡ true → Ensures Q k)
    → Ensures Q (guard b e >> k)
unfolding guard ◌>>◌
Ensures-guard true e k h = h refl
Ensures-guard false e k h = fails e

pub Ensures-or_fail :
    {E A B : Type 0} {Q : A → Type 0} (o : Option B) (e : E) (f : B → Result E A)
    → ((b : B) → o ≡ some b → Ensures Q (f b))
    → Ensures Q (or_fail o e >>= f)
unfolding or_fail ◌>>=◌
Ensures-or_fail none e f h = fails e
Ensures-or_fail (some b) e f h = h b refl

pub Ensures-bind :
    {E A B : Type 0} {P : B → Type 0} {Q : A → Type 0} {m : Result E B} (f : B → Result E A)
    → Ensures P m
    → ((b : B) → P b → Ensures Q (f b))
    → Ensures Q (m >>= f)
unfolding ◌>>=◌
Ensures-bind f (returns {a = b} p) h = h b p
Ensures-bind f (fails e) h = fails e

pub Ensures-map :
    {E A : Type 0} {P Q : A → Type 0} {m : Result E A}
    → ((a : A) → P a → Q a)
    → Ensures P m
    → Ensures Q m
Ensures-map h (returns {a} p) = returns (h a p)
Ensures-map h (fails e) = fails e

pub Ensures_elim :
    {E A : Type 0} {Q : A → Type 0} {m : Result E A} {a : A} → Ensures Q m → m ≡ ok a → Q a
Ensures_elim {Q} {a} (returns {a = b} p) e = let e' : b ≡ a = cc in subst Q e' p
Ensures_elim (fails x) e = cc

-- To read a block forwards: what a success says of its first step.
pub guard->>-eq-ok :
    {E A : Type 0} (b : Bool) (e : E) (k : Result E A) {a : A}
    → (guard b e >> k) ≡ ok a
    → (b ≡ true) × (k ≡ ok a)
unfolding guard ◌>>◌
guard->>-eq-ok true e k h = (refl, h)
guard->>-eq-ok false e k h = cc

-- A test that passes, and a query that finds its row.
pub guard-pass :
    {E A : Type 0} (b : Bool) (e : E) (k : Result E A) → b ≡ true → (guard b e >> k) ≡ k
unfolding guard ◌>>◌
guard-pass b e k h = rw h

pub or_fail-pass :
    {E A B : Type 0} (o : Option B) (e : E) (f : B → Result E A) {b : B}
    → o ≡ some b
    → (or_fail o e >>= f) ≡ f b
unfolding or_fail ◌>>=◌
or_fail-pass o e f h = rw h

-- A test that fails is the error.
pub guard-stop :
    {E A : Type 0} (b : Bool) (e : E) (k : Result E A) → b ≡ false → (guard b e >> k) ≡ err e
unfolding guard ◌>>◌
guard-stop b e k h = rw h

pub >>=-pass :
    {E A B : Type 0} (m : Result E B) (f : B → Result E A) {b : B} → m ≡ ok b → (m >>= f) ≡ f b
unfolding ◌>>=◌
>>=-pass m f h = rw h

pub >>=-eq-ok :
    {E A B : Type 0} (m : Result E B) (f : B → Result E A) {a : A}
    → (m >>= f) ≡ ok a
    → (b : B) × (m ≡ ok b) × (f b ≡ ok a)
unfolding ◌>>=◌
>>=-eq-ok (ok b) f h = (b, refl, h)
>>=-eq-ok (err e) f h = cc

pub >>-eq-ok :
    {E A : Type 0} (m : Result E (Unit {0})) (k : Result E A) {a : A}
    → (m >> k) ≡ ok a
    → (m ≡ ok tt) × (k ≡ ok a)
unfolding ◌>>◌
>>-eq-ok (ok u) k h = (refl, h)
>>-eq-ok (err e) k h = cc

pub Ensures-then :
    {E A : Type 0} {Q : A → Type 0} (m : Result E (Unit {0})) (k : Result E A)
    → (m ≡ ok tt → Ensures Q k)
    → Ensures Q (m >> k)
unfolding ◌>>◌
Ensures-then (ok u) k h = h refl
Ensures-then (err e) k h = fails e

pub Ensures-do :
    {E A B : Type 0} {Q : A → Type 0} (m : Result E B) (f : B → Result E A)
    → ((b : B) → m ≡ ok b → Ensures Q (f b))
    → Ensures Q (m >>= f)
unfolding ◌>>=◌
Ensures-do (ok b) f h = h b refl
Ensures-do (err e) f h = fails e

pub Ensures-both :
    {E A : Type 0} {P Q : A → Type 0} {m : Result E A}
    → Ensures P m
    → Ensures Q m
    → Ensures (λ a. P a × Q a) m
Ensures-both {Q} (returns {a} p) q = returns (p, Ensures_elim q refl)
Ensures-both (fails e) q = fails e

pub or_fail-eq-ok : {E A : Type 0} (o : Option A) (e : E) {a : A} → or_fail o e ≡ ok a → o ≡ some a
unfolding or_fail
or_fail-eq-ok none e h = cc
or_fail-eq-ok (some b) e h = cc

-- The last step of a block.
pub Ensures-self :
    {E A : Type 0} {Q : A → Type 0} {m : Result E A} → ((a : A) → m ≡ ok a → Q a) → Ensures Q m
Ensures-self {m = ok a} h = returns (h a refl)
Ensures-self {m = err e} h = fails e

pub guard-eq-ok : {E : Type 0} (b : Bool) (e : E) → guard b e ≡ ok tt → b ≡ true
unfolding guard
guard-eq-ok true e h = refl
guard-eq-ok false e h = cc
