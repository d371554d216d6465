-- ===== src/Promo/Rows.antt =====
-- The invariant of the coupon table, and what keeps it: a new row, a removed one, a changed one.
use store_evix.Common.{
  ℕ, ◌≤◌, ◌≡◌, ◌≢◌, refl, sym, none, some, List, [], ◌∷◌, ◌++◌, String, arith, All, All-append,
  str_eq_iff, ◌==◌, inl, inr, Bool-cases,
}
use store_evix.Common.Int.{ℤ, pos, ◌≤ℤ◌}
use store_evix.Common.Table.{find, modify, remove}
use store_evix.Common.Session.{ok}
use store_evix.Models.Promo.{PromoCode, DiscountType, percent, fixed}
use store_evix.Promo.Defs.{get_by_code, promo_id, validate_definition}

-- A percentage is at most 100, and the window is not inverted.
abbrev pub IsDefined : DiscountType → ℤ → ℕ → ℕ → Type 0
IsDefined percent value from to = (value ≤ℤ pos 10_000) × (from ≤ to)
IsDefined fixed value from to = from ≤ to

abbrev pub PromoIsDefined : PromoCode → Type 0
PromoIsDefined p = IsDefined p.discount_type p.discount_value p.active_from p.active_to

-- No row of the list has the code, or the key.
abbrev pub NotCoded : String → List PromoCode → Type 0
NotCoded c = All λ p. p.code ≢ c

abbrev pub NotKeyed : ℕ → List PromoCode → Type 0
NotKeyed k = All λ p. p.id ≢ k

-- Every definition is consistent, and no two rows share a key or a code.
abbrev pub IsValid : List PromoCode → Type 0
IsValid [] = Unit
IsValid (p ∷ ps) = PromoIsDefined p × NotCoded p.code ps × NotKeyed p.id ps × IsValid ps

pub validate_definition-IsDefined :
    (d : DiscountType) (v : ℤ) (a b : ℕ) → validate_definition d v a b ≡ ok tt → IsDefined d v a b
unfolding validate_definition
validate_definition-IsDefined percent v a b h = ground arith
validate_definition-IsDefined fixed v a b h = ground arith

pub get_by_code-none : (c : String) (ps : List PromoCode) → get_by_code c ps ≡ none → NotCoded c ps
unfolding get_by_code
get_by_code-none c [] h = tt
get_by_code-none c (p ∷ ps) h = ground (arith, str_eq_iff p.code c, get_by_code-none c ps)

find-none : (k : ℕ) (ps : List PromoCode) → find promo_id k ps ≡ none → NotKeyed k ps
find-none k [] h = tt
find-none k (p ∷ ps) h = ground (arith, find-none k ps)

-- A new row at the end.
pub append-IsValid :
    (p : PromoCode) (ps : List PromoCode)
    → PromoIsDefined p
    → NotCoded p.code ps
    → NotKeyed p.id ps
    → IsValid ps
    → IsValid (ps ++ p ∷ [])
append-IsValid p [] d c k v = (d, tt, tt, tt)
append-IsValid p (q ∷ ps) d (c, cs) (k, ks) v = (
  v.0,
  All-append (λ r. r.code ≢ q.code) ps (p ∷ []) v.1 (λ e. c (sym e), tt),
  All-append (λ r. r.id ≢ q.id) ps (p ∷ []) v.2 (λ e. k (sym e), tt),
  append-IsValid p ps d cs ks v.3,
)

remove-NotCoded :
    (c : String) (k : ℕ) (ps : List PromoCode) → NotCoded c ps → NotCoded c (remove promo_id k ps)
remove-NotCoded c k [] h = tt
remove-NotCoded c k (p ∷ ps) h = ground (arith, remove-NotCoded c k ps h.1)

remove-NotKeyed :
    (j k : ℕ) (ps : List PromoCode) → NotKeyed j ps → NotKeyed j (remove promo_id k ps)
remove-NotKeyed j k [] h = tt
remove-NotKeyed j k (p ∷ ps) h = ground (arith, remove-NotKeyed j k ps h.1)

pub remove-IsValid : (k : ℕ) (ps : List PromoCode) → IsValid ps → IsValid (remove promo_id k ps)
remove-IsValid k [] v = tt
remove-IsValid k (p ∷ ps) v =
    ground (
      arith,
      remove-NotCoded p.code k ps v.1,
      remove-NotKeyed p.id k ps v.2,
      remove-IsValid k ps v.3,
    )

-- Every row but those with the key has another code.
abbrev pub OthersCoded : ℕ → String → List PromoCode → Type 0
OthersCoded k c = All λ r. r.id ≢ k → r.code ≢ c

pub NotCoded-OthersCoded :
    (k : ℕ) (c : String) (ps : List PromoCode) → NotCoded c ps → OthersCoded k c ps
NotCoded-OthersCoded k c [] h = tt
NotCoded-OthersCoded k c (p ∷ ps) (h, hs) = (λ _. h, NotCoded-OthersCoded k c ps hs)

find-NotCoded :
    (c : String) (k : ℕ) (ps : List PromoCode) (p : PromoCode)
    → find promo_id k ps ≡ some p
    → NotCoded c ps
    → p.code ≢ c
find-NotCoded c k [] p e h = cc
find-NotCoded c k (q ∷ ps) p e h = ground (arith, find-NotCoded c k ps p)

pub get_by_code_code :
    (c : String) (ps : List PromoCode) (p : PromoCode) → get_by_code c ps ≡ some p → p.code ≡ c
unfolding get_by_code
get_by_code_code c [] p e = cc
get_by_code_code c (q ∷ ps) p e = ground (arith, str_eq_iff q.code c, get_by_code_code c ps p)

-- In a valid table a code names one row.
pub find-OthersCoded :
    (k : ℕ) (ps : List PromoCode) (p : PromoCode)
    → find promo_id k ps ≡ some p
    → IsValid ps
    → OthersCoded k p.code ps
find-OthersCoded k [] p e v = tt
find-OthersCoded k (q ∷ ps) p e v = ground (
  arith,
  NotCoded-OthersCoded k q.code ps v.1,
  find-NotCoded q.code k ps p,
  find-OthersCoded k ps p,
)

pub get_by_code-OthersCoded :
    (c : String) (ps : List PromoCode) (p : PromoCode)
    → get_by_code c ps ≡ some p
    → IsValid ps
    → OthersCoded p.id c ps
unfolding get_by_code
get_by_code-OthersCoded c [] p e v = tt
get_by_code-OthersCoded c (q ∷ ps) p e v = ground (
  arith,
  str_eq_iff q.code c,
  NotCoded-OthersCoded q.id q.code ps v.1,
  get_by_code-OthersCoded c ps p,
)

modify-absent :
    (k : ℕ) (f : PromoCode → PromoCode) (ps : List PromoCode)
    → NotKeyed k ps
    → modify promo_id k f ps ≡ ps
modify-absent k f [] h = refl
modify-absent k f (p ∷ ps) h = ground (arith, modify-absent k f ps h.1)

OthersCoded-NotCoded :
    (k : ℕ) (c : String) (ps : List PromoCode) → OthersCoded k c ps → NotKeyed k ps → NotCoded c ps
OthersCoded-NotCoded k c [] o h = tt
OthersCoded-NotCoded k c (p ∷ ps) (o, os) (h, hs) = (o h, OthersCoded-NotCoded k c ps os hs)

-- A change of the row with one key, which keeps the key and takes no other row's code.
module _ (k : ℕ) (f : PromoCode → PromoCode) (keep : (r : PromoCode) → (f r).id ≡ r.id) where
  modify-NotKeyed :
      (j : ℕ) (ps : List PromoCode) → NotKeyed j ps → NotKeyed j (modify promo_id k f ps)
  modify-NotKeyed j [] h = tt
  modify-NotKeyed j (p ∷ ps) h = ground (arith, keep p, modify-NotKeyed j ps h.1)

  modify-NotCoded :
      (c : String) (ps : List PromoCode) (p : PromoCode)
      → find promo_id k ps ≡ some p
      → (f p).code ≢ c
      → IsValid ps
      → NotCoded c ps
      → NotCoded c (modify promo_id k f ps)
  modify-NotCoded c [] p e n v h = tt
  modify-NotCoded c (q ∷ ps) p e n v h =
      ground (arith, modify-absent k f ps, modify-NotCoded c ps p)

  pub modify-IsValid :
      (ps : List PromoCode) (p : PromoCode)
      → find promo_id k ps ≡ some p
      → PromoIsDefined (f p)
      → OthersCoded k (f p).code ps
      → IsValid ps
      → IsValid (modify promo_id k f ps)
  modify-IsValid [] p e d o v = tt
  modify-IsValid (q ∷ ps) p e d (o, os) v = elim (Bool-cases (q.id == k)) [
    | inl same ↦
        ground (arith, keep q, modify-absent k f ps, OthersCoded-NotCoded k (f p).code ps os)
    | inr other ↦
        ground
          (arith, modify-NotCoded q.code ps p, modify-NotKeyed q.id ps v.2, modify-IsValid ps p, o)
  ]
