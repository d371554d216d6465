-- ===== src/Accounts/Tests.antt =====
-- The properties of the accounts on a library that knows one token, and on two addresses.
use store_evix.Common.{
  ℕ, ◌<◌, ◌≡◌, refl, ap, ◌&&◌, true, false, none, some, [], ◌∷◌, String, ltb, str_eq, if◌then◌else◌,
  arith,
}
use store_evix.Common.Patch.{unset, assign}
use store_evix.Common.Session.{ok, err, run_request}
use store_evix.Models.Db.{Address, Db}
use store_evix.Fixtures.{shop_db}
use store_evix.Accounts.Tokens.{
  refresh_token, RawClaims, JwtDecode, AuthError, decode_token, is_blacklisted, blacklist, refresh,
}
use store_evix.Accounts.Rotation.{
  JwtLaws, refresh_at, logout_at, serve, serve_all, refresh_at_most_once,
}
use store_evix.Accounts.Addresses.{AddressUpdate, clear_default, update_address, get_owned_address}
use store_evix.Accounts.Defaults.{
  HasOneDefault, change, addresses_after, addresses_served, addresses_served-HasOneDefault,
}

abbrev claims : RawClaims
claims = record { sub = some 4; jti = some "j1"; kind = some refresh_token; exp = some 100 }

abbrev one_token : JwtDecode
one_token now token = if str_eq token "tok" && ltb now 100 then some claims else none

one_token_lem :
    (now : ℕ) (token : String) (raw : RawClaims)
    → one_token now token ≡ some raw
    → (raw ≡ claims) × (now < 100)
one_token_lem now token raw e = ground arith

one_token-JwtLaws : JwtLaws one_token
one_token-JwtLaws = record {
  expires = λ now exp token raw e x. ground (arith, one_token_lem now token raw e);
  stable = λ now later token raw raw' e e'.
      ground (arith, one_token_lem now token raw e, one_token_lem later token raw' e');
  unique = λ now later token other jti raw raw' e e' i i'.
      ground (arith, one_token_lem now token raw e, one_token_lem later other raw' e');
}

first_refresh : refresh one_token 10 "tok" [] ≡ (ok 4, record { jti = "j1"; until = 100 } ∷ [])
unfolding refresh decode_token is_blacklisted blacklist
first_refresh = refl

-- Two requests that both looked before either wrote: each passes the test that the other one's write
-- would have failed.
both_pass : (is_blacklisted 10 "j1" [] ≡ false) × (is_blacklisted 11 "j1" [] ≡ false)
unfolding is_blacklisted
both_pass = (refl, refl)

refresh_at_most_once_example :
    (e : AuthError) × ((refresh one_token 50 "tok" (
        serve_all one_token
          (logout_at 20 "other" ∷ [])
          (serve one_token (refresh_at 10 "tok") []))).0
      ≡ err e)
refresh_at_most_once_example =
    refresh_at_most_once one_token (refresh_at 10 "tok") [] (logout_at 20 "other" ∷ []) 50
      one_token-JwtLaws (4, ap (λ x. x.0) first_refresh)

abbrev office : Address
office = record {
  id = 1;
  user_id = 4;
  full_name = "Ana";
  phone = "060";
  city = "Chisinau";
  street = "Stefan cel Mare 1";
  zip = none;
  is_default = true;
}

abbrev flat : Address
flat = record office { id = 2; street = "Puskin 5"; is_default = false }

abbrev two_addresses : Db
two_addresses = record shop_db { addresses = office ∷ flat ∷ [] }

abbrev make_default : AddressUpdate
make_default = record {
  full_name = unset;
  phone = unset;
  city = unset;
  street = unset;
  zip = unset;
  is_default = assign true;
}

the_other_one :
    addresses_after (run_request (update_address 4 2 make_default) two_addresses)
    ≡ record office { is_default = false } ∷ record flat { is_default = true } ∷ []
unfolding update_address get_owned_address clear_default
the_other_one = refl

two_addresses-HasOneDefault : HasOneDefault two_addresses.addresses
two_addresses-HasOneDefault user = ground arith

addresses_served-HasOneDefault_example :
    HasOneDefault (addresses_served (change 4 2 make_default) two_addresses)
addresses_served-HasOneDefault_example =
    addresses_served-HasOneDefault (change 4 2 make_default) two_addresses
      (((omega arith), tt), (tt, tt)) two_addresses-HasOneDefault
