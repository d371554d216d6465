-- ===== src/Products/Selected.antt =====
-- Queries over the rows of a table, and the least price of a list of variants, as
-- app/repositories/catalog_repo.py asks for them.
use store_evix.Common.{
  ℕ, ◌≤◌, ◌↔◌, ◌⊎◌, select_where, any, if◌then◌else◌, leb, Bool-cases, ◌≡◌, refl, Bool, true, false,
  inl, inr, none, some, List, [], ◌∷◌, All, Option-cases, arith,
}
use store_evix.Models.Catalog.{ProductVariant}
use store_evix.Cards.{min_price}

abbrev pub Exists : {A : Type 0} → (A → Type 0) → List A → Type 0
Exists P [] = ⊥
Exists P (x ∷ xs) = P x ⊎ Exists P xs

-- The rows that a query selects.
module _ {A : Type 0} (P Q : A → Type 0) (q : A → Bool) where
  pub Exists-select_where :
      (xs : List A)
      → ((x : A) → q x ≡ true → Q x)
      → Exists P (select_where q xs)
      → Exists (λ x. Q x × P x) xs
  Exists-select_where [] to h = h
  Exists-select_where (x ∷ xs) to h = go (q x) refl h (Exists-select_where xs to)
    where
      go :
          (b : Bool)
          → q x ≡ b
          → Exists P (if b then x ∷ select_where q xs else select_where q xs)
          → (Exists P (select_where q xs) → Exists (λ y. Q y × P y) xs)
          → Exists (λ y. Q y × P y) (x ∷ xs)
      go true picked (inl here) rest = inl (to x picked, here)
      go true picked (inr later) rest = inr (rest later)
      go false passed later rest = inr (rest later)

  pub select_where-Exists :
      (xs : List A)
      → ((x : A) → Q x → q x ≡ true)
      → Exists (λ x. Q x × P x) xs
      → Exists P (select_where q xs)
  select_where-Exists [] from h = h
  select_where-Exists (x ∷ xs) from h = go (q x) refl h (select_where-Exists xs from)
    where
      go :
          (b : Bool)
          → q x ≡ b
          → Exists (λ y. Q y × P y) (x ∷ xs)
          → (Exists (λ y. Q y × P y) xs → Exists P (select_where q xs))
          → Exists P (if b then x ∷ select_where q xs else select_where q xs)
      go true picked (inl (_, here)) rest = inl here
      go true picked (inr later) rest = inr (rest later)
      go false passed (inl (named, _)) rest = cc (from x named, passed)
      go false passed (inr later) rest = rest later

  pub All-select_where :
      (xs : List A)
      → ((x : A) → Q x → q x ≡ true)
      → All P (select_where q xs)
      → All (λ x. Q x → P x) xs
  All-select_where [] from h = tt
  All-select_where (x ∷ xs) from h = go (q x) refl h (All-select_where xs from)
    where
      go :
          (b : Bool)
          → q x ≡ b
          → All P (if b then x ∷ select_where q xs else select_where q xs)
          → (All P (select_where q xs) → All (λ y. Q y → P y) xs)
          → All (λ y. Q y → P y) (x ∷ xs)
      go true picked (here, later) rest = ((λ _. here), rest later)
      go false passed later rest = ((λ named. cc (from x named, passed)), rest later)

module _ {A : Type 0} (P : A → Type 0) (q : A → Bool) (test : (x : A) → (q x ≡ true) ↔ P x) where
  pub any-Exists : (xs : List A) → any q xs ≡ true → Exists P xs
  any-Exists [] e = absurd (ground arith)
  any-Exists (x ∷ xs) e = elim (Bool-cases (q x)) [
    | inl picked ↦ inl ((test x).0 picked)
    | inr passed ↦ inr (any-Exists xs (ground (arith, passed, e)))
  ]

  Exists-any : (xs : List A) → Exists P xs → any q xs ≡ true
  Exists-any [] h = absurd h
  Exists-any (x ∷ xs) (inl here) = ground (arith, (test x).1 here)
  Exists-any (x ∷ xs) (inr later) = ground (arith, Exists-any xs later)

  pub any_iff : (xs : List A) → (any q xs ≡ true) ↔ Exists P xs
  any_iff xs = (any-Exists xs, Exists-any xs)

pub min_price-Exists :
    (vs : List ProductVariant) (m : ℕ) → min_price vs ≡ some m → Exists (λ v. v.price ≡ m) vs
min_price-Exists [] m e = absurd (ground arith)
min_price-Exists (v ∷ vs) m e = elim (Option-cases (min_price vs)) [
  | inl alone ↦ inl ground (arith, alone, e)
  | inr (b, rest) ↦ elim (Bool-cases (leb v.price b)) [
    | inl less ↦ inl ground (arith, rest, less, e)
    | inr more ↦ inr (min_price-Exists vs m (ground (arith, rest, more, e)))
  ]
]

pub min_price-least :
    (vs : List ProductVariant) (m n : ℕ) → min_price vs ≡ some m → n ≤ m → All (λ v. n ≤ v.price) vs
min_price-least [] m n e less = tt
min_price-least (v ∷ vs) m n e less = elim (Option-cases (min_price vs)) [
  | inl alone ↦ (ground (arith, alone, e), none_else vs alone)
  | inr (b, rest) ↦ (ground (arith, rest, e), min_price-least vs b n rest (ground (arith, rest, e)))
]
  where
    none_else : (ws : List ProductVariant) → min_price ws ≡ none → All (λ w. n ≤ w.price) ws
    none_else [] gone = tt
    none_else (w ∷ ws) gone = absurd (elim (Option-cases (min_price ws)) [
      | inl alone ↦ ground (arith, alone, gone)
      | inr (b, rest) ↦ ground (arith, rest, gone)
    ])
