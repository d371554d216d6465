-- ===== src/Accounts/Addresses.antt =====
-- The address operations of app/services/auth_service.py and app/repositories/user_repo.py, and the
-- default address of a user.
use store_evix.Common.{
  ℕ, Bool, false, not, ◌&&◌, Option, none, some, List, [], ◌∷◌, ◌++◌, map, String, ◌==◌,
  if◌then◌else◌,
}
use store_evix.Common.Table.{find, modify, remove}
use store_evix.Common.Patch.{Patch, unset, assign, patched}
use store_evix.Common.Session.{Action, pure, gets, or_raise, write, commit, ◌>>=◌, ◌>>◌}
use store_evix.Models.Db.{Address, Db}

pub data AddressError : Type 0 where
  address_not_found : AddressError

abbrev pub AddressAction : Type 0 → Type 0
AddressAction A = Action Db AddressError A

abbrev pub set_addresses : List Address → Db → Db
set_addresses xs db = record db { addresses = xs }

abbrev pub address_id : Address → ℕ
address_id a = a.id

abbrev pub undefault : ℕ → Address → Address
undefault user a = if a.user_id == user then record a { is_default = false } else a

unfoldable pub clear_default : ℕ → List Address → List Address
clear_default user xs = map (undefault user) xs

abbrev pub cleared_if : Bool → ℕ → List Address → List Address
cleared_if b user xs = if b then clear_default user xs else xs

-- `payload` is the new row, with the primary key that the sequence assigns.
unfoldable pub create_address : Address → AddressAction Address
create_address payload = do
  write (λ db. set_addresses (cleared_if payload.is_default payload.user_id db.addresses) db)
  write (λ db. set_addresses (db.addresses ++ payload ∷ []) db)
  commit
  pure payload

abbrev pub owned_by_user : ℕ → Option Address → Option Address
owned_by_user user none = none
owned_by_user user (some a) = if a.user_id == user then some a else none

unfoldable pub get_owned_address : ℕ → ℕ → AddressAction Address
get_owned_address user id = do
  found ← gets (λ db. owned_by_user user (find address_id id db.addresses))
  or_raise found address_not_found

pub record AddressUpdate : Type 0 where
  pub full_name : Patch String
  pub phone : Patch String
  pub city : Patch String
  pub street : Patch String
  pub zip : Patch (Option String)
  pub is_default : Patch Bool

abbrev pub address_changes : AddressUpdate → Address → Address
address_changes u a = record a {
  full_name = patched u.full_name a.full_name;
  phone = patched u.phone a.phone;
  city = patched u.city a.city;
  street = patched u.street a.street;
  zip = patched u.zip a.zip;
  is_default = patched u.is_default a.is_default;
}

-- `changes.get("is_default") is True`
abbrev pub asks_default : Patch Bool → Bool
asks_default unset = false
asks_default (assign b) = b

unfoldable pub update_address : ℕ → ℕ → AddressUpdate → AddressAction (Unit {0})
unfolding get_owned_address
update_address user id u = do
  address ← get_owned_address user id
  write (λ db.
      set_addresses
        (cleared_if (asks_default u.is_default && not address.is_default) user db.addresses) db)
  write (λ db. set_addresses (modify address_id id (address_changes u) db.addresses) db)
  commit

unfoldable pub delete_address : ℕ → ℕ → AddressAction (Unit {0})
unfolding get_owned_address
delete_address user id = do
  address ← get_owned_address user id
  write (λ db. set_addresses (remove address_id address.id db.addresses) db)
  commit
