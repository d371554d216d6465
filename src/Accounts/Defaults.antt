-- ===== src/Accounts/Defaults.antt =====
-- A user has at most one default address: app/services/auth_service.py.
use mathlib.Core.Option
use mathlib.Core.Path.{subst}
use store_evix.Common.{
  ℕ, ◌+◌, ◌≤◌, ◌≡◌, ◌≢◌, refl, ap, ◌∙◌, Bool, true, false, not, ◌&&◌, inl, inr, Option, none, some,
  List, [], ◌∷◌, ◌++◌, All, ◌==◌, ==_iff, if◌then◌else◌, Bool-cases, Option-cases, arith,
}
use store_evix.Common.Table.{find, modify, remove, find-map}
use store_evix.Common.Patch.{Patch, unset, assign, patched}
use store_evix.Common.Session.{Result, run_request}
use store_evix.Models.Db.{Address, Db}
use store_evix.Accounts.Addresses.{
  AddressError, address_id, undefault, clear_default, cleared_if, create_address, owned_by_user,
  get_owned_address, AddressUpdate, address_changes, asks_default, update_address, delete_address,
}

abbrev pub weight : ℕ → Address → ℕ
weight user a = if (a.user_id == user) && a.is_default then 1 else 0

-- How many default addresses a user has.
abbrev pub defaults : ℕ → List Address → ℕ
defaults user [] = 0
defaults user (a ∷ xs) = weight user a + defaults user xs

-- The ids are a key of the addresses.
abbrev pub IsDistinct : List Address → Type 0
IsDistinct [] = Unit
IsDistinct (a ∷ xs) = All (λ b. b.id ≢ a.id) xs × IsDistinct xs

abbrev pub HasOneDefault : List Address → Type 0
HasOneDefault xs = (user : ℕ) → defaults user xs ≤ 1

defaults-clear_default :
    (user other : ℕ) (xs : List Address)
    → defaults other (clear_default user xs) ≡ (if user == other then 0 else defaults other xs)
unfolding clear_default
defaults-clear_default user other [] = ground arith
defaults-clear_default user other (a ∷ xs) = ground (arith, defaults-clear_default user other xs)

defaults-append :
    (user : ℕ) (xs ys : List Address)
    → defaults user (xs ++ ys) ≡ defaults user xs + defaults user ys
defaults-append user [] ys = omega arith
defaults-append user (a ∷ xs) ys = omega (arith, defaults-append user xs ys)

defaults-remove :
    (user id : ℕ) (xs : List Address) → defaults user (remove address_id id xs) ≤ defaults user xs
defaults-remove user id [] = omega arith
defaults-remove user id (a ∷ xs) = ground (arith, defaults-remove user id xs)

-- Without the id, a write under it changes nothing.
defaults-absent :
    (user id : ℕ) (f : Address → Address) (xs : List Address)
    → All (λ b. b.id ≢ id) xs
    → defaults user (modify address_id id f xs) ≡ defaults user xs
defaults-absent user id f [] absent = refl
defaults-absent user id f (a ∷ xs) (other, absent) =
    ground (arith, defaults-absent user id f xs absent)

-- One row changes: the count changes by what that row weighs.
defaults-modify :
    (user id : ℕ) (f : Address → Address) (xs : List Address) (a : Address)
    → IsDistinct xs
    → find address_id id xs ≡ some a
    → defaults user (modify address_id id f xs) + weight user a
      ≡ defaults user xs + weight user (f a)
defaults-modify user id f [] a distinct found = absurd (ground arith)
defaults-modify user id f (b ∷ xs) a (apart, distinct) found = elim (Bool-cases (b.id == id)) [
  | inl here ↦
      let at_id : b.id ≡ id = (==_iff b.id id).0 here in
      let absent = subst (λ i. All (λ r. r.id ≢ i) xs) at_id apart in
      ground (arith, defaults-absent user id f xs absent)
  | inr below ↦ ground (arith, defaults-modify user id f xs a distinct)
]

owned :
    (user : ℕ) (a : Address) (o : Option Address)
    → owned_by_user user o ≡ some a
    → (o ≡ some a) × (a.user_id ≡ user)
owned user a none e = ground arith
owned user a (some b) e = ground arith

-- A change that does not ask for the default does not give it.
kept_default :
    (p : Patch Bool) (b : Bool) → (asks_default p && not b) ≡ false → patched p b ≡ true → b ≡ true
kept_default unset b h e = e
kept_default (assign v) b h e = ground arith

find-clear_default :
    (user id : ℕ) (xs : List Address) (a : Address)
    → find address_id id xs ≡ some a
    → find address_id id (clear_default user xs) ≡ some (undefault user a)
unfolding clear_default
find-clear_default user id xs a e =
    find-map address_id id (undefault user) xs (λ r. ground arith)
    ∙ ap (Option.map (undefault user)) e

apart-clear_default :
    (user id : ℕ) (xs : List Address)
    → All (λ b. b.id ≢ id) xs
    → All (λ b. b.id ≢ id) (clear_default user xs)
unfolding clear_default
apart-clear_default user id [] h = tt
apart-clear_default user id (a ∷ xs) (other, h) = (ground arith, apart-clear_default user id xs h)

clear_default-IsDistinct :
    (user : ℕ) (xs : List Address) → IsDistinct xs → IsDistinct (clear_default user xs)
unfolding clear_default
clear_default-IsDistinct user [] h = tt
clear_default-IsDistinct user (a ∷ xs) (apart, h) =
    let same : (undefault user a).id ≡ a.id = ground arith in
    (rw same (apart-clear_default user a.id xs apart), clear_default-IsDistinct user xs h)

abbrev pub addresses_after : {A : Type 0} → Result AddressError A × Db → List Address
addresses_after (_, db) = db.addresses

module _ (db : Db) (one : HasOneDefault db.addresses) where
  create_address-HasOneDefault :
      (payload : Address)
      → HasOneDefault (addresses_after (run_request (create_address payload) db))
  unfolding create_address
  create_address-HasOneDefault payload user =
      let xs = db.addresses in
      ground (
        arith,
        one user,
        defaults-append user (cleared_if payload.is_default payload.user_id xs) (payload ∷ []),
        defaults-clear_default payload.user_id user xs,
        Bool-cases payload.is_default,
      )

  update_address-HasOneDefault :
      (user id : ℕ) (u : AddressUpdate)
      → IsDistinct db.addresses
      → HasOneDefault (addresses_after (run_request (update_address user id u) db))
  unfolding update_address get_owned_address
  update_address-HasOneDefault user id u distinct other =
      elim (Option-cases (owned_by_user user (find address_id id db.addresses))) [
        | inl missing ↦ rw missing (one other)
        | inr (a, found) ↦
            let (here, theirs) = owned user a (find address_id id db.addresses) found in
            elim (Bool-cases (asks_default u.is_default && not a.is_default)) [
              | inl cleared ↦
                  let xs = clear_default user db.addresses in
                  rw (found, cleared) ground
                    (
                      arith,
                      theirs,
                      one other,
                      defaults-clear_default user other db.addresses,
                      defaults-modify other id (address_changes u) xs (undefault user a)
                          (clear_default-IsDistinct user db.addresses distinct)
                          (find-clear_default user id db.addresses a here),
                    )
              | inr kept ↦
                  rw (found, kept) ground
                    (
                      arith,
                      one other,
                      kept_default u.is_default a.is_default kept,
                      Bool-cases a.is_default,
                      Bool-cases (patched u.is_default a.is_default),
                      defaults-modify other id (address_changes u) db.addresses a distinct here,
                    )
            ]
      ]

  delete_address-HasOneDefault :
      (user id : ℕ) → HasOneDefault (addresses_after (run_request (delete_address user id) db))
  unfolding delete_address get_owned_address
  delete_address-HasOneDefault user id other =
      elim (Option-cases (owned_by_user user (find address_id id db.addresses))) [
        | inl missing ↦ rw missing (one other)
        | inr (a, found) ↦
            rw found (omega (arith, defaults-remove other a.id db.addresses, one other))
      ]

-- The requests to a user's addresses; a new address comes with its key.
pub data AddressRequest : Type 0 where
  add : Address → AddressRequest
  change : ℕ → ℕ → AddressUpdate → AddressRequest
  drop : ℕ → ℕ → AddressRequest

abbrev pub addresses_served : AddressRequest → Db → List Address
addresses_served (add payload) db = addresses_after (run_request (create_address payload) db)
addresses_served (change user id u) db = addresses_after (run_request (update_address user id u) db)
addresses_served (drop user id) db = addresses_after (run_request (delete_address user id) db)

-- Where ids are a key and nobody has two default addresses, a request to the addresses, whether it
-- succeeds or raises, gives nobody a second one.
pub addresses_served-HasOneDefault :
    (q : AddressRequest) (db : Db)
    → IsDistinct db.addresses
    → HasOneDefault db.addresses
    → HasOneDefault (addresses_served q db)
addresses_served-HasOneDefault (add payload) db distinct one =
    create_address-HasOneDefault db one payload
addresses_served-HasOneDefault (change user id u) db distinct one =
    update_address-HasOneDefault db one user id u distinct
addresses_served-HasOneDefault (drop user id) db distinct one =
    delete_address-HasOneDefault db one user id
