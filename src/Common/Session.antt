-- ===== src/Common/Session.antt =====
-- A unit of work on the database: `AsyncSession` with `commit` and `rollback`.
use mathlib.Core.Bool.{Bool, true, false}
use mathlib.Core.Path.{◌≡◌, refl, ap}
use mathlib.Core.Logic.{◌⊎◌, inl, inr}
use mathlib.Core.Option.{Option, none, some}
use store_evix.Common.Tests.{if◌then◌else◌}

pub data Result {ℓ κ} (E : Type ℓ) (A : Type κ) : Type (ℓ ⊔ κ) where
  ok : A → Result E A
  err : E → Result E A

-- What the transaction has written so far, and what the database holds without it.
pub record Session (S : Type 0) : Type 0 where
  pub work : S
  pub committed : S

-- A service call: it may raise, and what was written before the raise stays in the session.
abbrev pub Action : Type 0 → Type 0 → Type 0 → Type 0
Action S E A = Session S → Result E A × Session S

module _ {S E A : Type 0} where
  abbrev pub pure : A → Action S E A
  pure a s = (ok a, s)

  abbrev pub raise : E → Action S E A
  raise e s = (err e, s)

  abbrev pub gets : (S → A) → Action S E A
  gets f s = (ok (f s.work), s)

  abbrev pub lift : Result E A → Action S E A
  lift r s = (r, s)

  abbrev pub or_raise : Option A → E → Action S E A
  or_raise none e = raise e
  or_raise (some a) e = pure a

infixl 5 ◌>>=◌ ◌>>◌
abbrev pub continue : {S E A B : Type 0} → Result E A → (A → Action S E B) → Action S E B
continue (ok a) f s = f a s
continue (err e) f s = (err e, s)

abbrev pub ◌>>=◌ : {S E A B : Type 0} → Action S E A → (A → Action S E B) → Action S E B
◌>>=◌ m f s = let (r, s') = m s in continue r f s'

abbrev pub ◌>>◌ : {S E B : Type 0} → Action S E (Unit {0}) → Action S E B → Action S E B
m >> k = m >>= λ _. k

module _ {S E : Type 0} where
  abbrev pub raise_if : Bool → E → Action S E (Unit {0})
  raise_if c e s = (if c then err e else ok tt, s)

  -- A statement that writes; it is seen inside the session until the commit.
  abbrev pub write : (S → S) → Action S E (Unit {0})
  write f s = (ok tt, record s { work = f s.work })

  abbrev pub commit : Action S E (Unit {0})
  commit s = (ok tt, record s { committed = s.work })

  abbrev pub rollback : Action S E (Unit {0})
  rollback s = (ok tt, record s { work = s.committed })

-- One request: a fresh session on the database; what is not committed at its end is lost.
abbrev pub run_request : {S E A : Type 0} → Action S E A → S → Result E A × S
run_request m db = let (r, s) = m (record { work = db; committed = db }) in (r, s.committed)

pub Result-cases {ℓ κ} :
    {E : Type ℓ} {A : Type κ} (r : Result E A) → ((a : A) × (r ≡ ok a)) ⊎ ((e : E) × (r ≡ err e))
Result-cases (ok a) = inl (a, refl)
Result-cases (err e) = inr (e, refl)

-- How a bind goes on, by what its first action does.
module _ {S E A B : Type 0} where
  pub bind_ok :
      (m : Action S E A) (f : A → Action S E B) (s t : Session S) (a : A)
      → m s ≡ (ok a, t)
      → (m >>= f) s ≡ f a t
  bind_ok m f s t a e = ap (λ (x : Result E A × Session S). continue x.0 f x.1) e

  pub bind_err :
      (m : Action S E A) (f : A → Action S E B) (s t : Session S) (x : E)
      → m s ≡ (err x, t)
      → (m >>= f) s ≡ (err x, t)
  bind_err m f s t x e = ap (λ (y : Result E A × Session S). continue y.0 f y.1) e

-- An action that leaves a property of the session as it was, whether it raises or not.
abbrev pub Keeps {ℓ} : {S E A : Type 0} → (Session S → Type ℓ) → Action S E A → Type ℓ
Keeps P m = (s : Session _) → P s → P (m s).1

pub Keeps-bind {ℓ} :
    {S E A B : Type 0} (P : Session S → Type ℓ) (m : Action S E A) (f : A → Action S E B)
    → Keeps P m
    → ((a : A) → Keeps P (f a))
    → Keeps P (m >>= f)
Keeps-bind {S = S} {E = E} {A = A} P m f first next s h = go (m s) (first s h)
  where
    go : (r : Result E A × Session S) → P r.1 → P (continue r.0 f r.1).1
    go (ok a, t) p = next a t p
    go (err e, t) p = p

pub Keeps-or_raise {ℓ} :
    {S E A : Type 0} (P : Session S → Type ℓ) (o : Option A) (e : E)
    → Keeps P (or_raise {S = S} o e)
Keeps-or_raise P none e s h = h
Keeps-or_raise P (some a) e s h = h

-- An action whose result is dropped leaves the same session.
pub bind_pure :
    {S E A B : Type 0} (m : Action S E A) (b : B) (s : Session S)
    → ((m >>= λ _. pure b) s).1 ≡ (m s).1
bind_pure {S = S} {E = E} {A = A} m b s = go (m s)
  where
    go : (r : Result E A × Session S) → (continue r.0 (λ _. pure b) r.1).1 ≡ r.1
    go (ok a, t) = refl
    go (err e, t) = refl

-- A guard: it raises and leaves the session, or the action goes on.
module _ {ℓ} {S E A B : Type 0} (R : Result E B × Session S → Type ℓ) (s : Session S) (e : E) where
  pub guard_or_raise :
      (o : Option A) (f : A → Action S E B)
      → R (err e, s)
      → ((a : A) → o ≡ some a → R (f a s))
      → R ((or_raise o e >>= f) s)
  guard_or_raise none f stop go = stop
  guard_or_raise (some a) f stop go = go a refl

module _ {ℓ} {S E B : Type 0} (R : Result E B × Session S → Type ℓ) (s : Session S) (e : E) where
  pub guard_raise_if :
      (c : Bool) (f : Unit {0} → Action S E B)
      → R (err e, s)
      → (c ≡ false → R (f tt s))
      → R ((raise_if c e >>= f) s)
  guard_raise_if true f stop go = stop
  guard_raise_if false f stop go = go refl
