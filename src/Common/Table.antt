-- ===== src/Common/Table.antt =====
-- A database table with a numeric primary key, as the list of its rows in insertion order.
use mathlib.Core.Option
use mathlib.Core.Path.{◌≡◌, refl}
use mathlib.Core.Option.{Option, none, some}
use mathlib.Core.List.{List, [], ◌∷◌, ◌++◌, map}
use Prim.Native.Nat.{ℕ}
use native.Mathlib.Omega.{arith}
use store_evix.Common.Tests.{◌==◌, if◌then◌else◌, is_some}

module _ {ℓ} {A : Type ℓ} (key : A → ℕ) where
  -- `SELECT ... WHERE id = k`
  abbrev pub find : ℕ → List A → Option A
  find k [] = none
  find k (r ∷ rs) = if key r == k then some r else find k rs

  -- `UPDATE ... SET ... WHERE id = k`, and an assignment to the mapped row with that key
  abbrev pub modify : ℕ → (A → A) → List A → List A
  modify k f [] = []
  modify k f (r ∷ rs) = (if key r == k then f r else r) ∷ modify k f rs

  -- `DELETE ... WHERE id = k`
  abbrev pub remove : ℕ → List A → List A
  remove k [] = []
  remove k (r ∷ rs) = let rest = remove k rs in if key r == k then rest else r ∷ rest

  pub find-modify :
      (j k : ℕ) (f : A → A) (rs : List A)
      → ((r : A) → key (f r) ≡ key r)
      → find j (modify k f rs) ≡ (if k == j then Option.map f (find j rs) else find j rs)
  find-modify j k f [] keep = ground arith
  find-modify j k f (r ∷ rs) keep = ground (arith, keep r, find-modify j k f rs keep)

  pub find_key : (k : ℕ) (rs : List A) (r : A) → find k rs ≡ some r → key r ≡ k
  find_key k [] s e = cc
  find_key k (r ∷ rs) s e = ground (arith, find_key k rs s)

  pub find-append :
      (k : ℕ) (rs ss : List A)
      → find k (rs ++ ss) ≡ (if is_some (find k rs) then find k rs else find k ss)
  find-append k [] ss = refl
  find-append k (r ∷ rs) ss = ground (arith, find-append k rs ss)

  pub find-remove :
      (j k : ℕ) (rs : List A) → find j (remove k rs) ≡ (if k == j then none else find j rs)
  find-remove j k [] = ground arith
  find-remove j k (r ∷ rs) = ground (arith, find-remove j k rs)

  pub find-map :
      (j : ℕ) (f : A → A) (rs : List A)
      → ((r : A) → key (f r) ≡ key r)
      → find j (map f rs) ≡ Option.map f (find j rs)
  find-map j f [] keep = refl
  find-map j f (r ∷ rs) keep = ground (arith, keep r, find-map j f rs keep)
