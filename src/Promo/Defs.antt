-- ===== src/Promo/Defs.antt =====
-- The operations of the coupon service, in the order of app/services/promo_service.py.
use store_evix.Common.{
  ℕ, suc, ◌+◌, ◌*◌, ◌/◌, min, Bool, true, false, not, Option, none, some, List, [], ◌∷◌, ◌++◌,
  String, length, select_where, if◌then◌else◌, ltb, leb, ◌==◌, str_eq,
}
use store_evix.Common.Int.{ℤ, pos, negsuc, sub_ℕ, ltb_ℤ}
use store_evix.Common.Table.{find, modify, remove}
use store_evix.Common.Session.{
  Result, ok, err, Action, pure, gets, lift, or_raise, raise_if, write, commit, ◌>>=◌, ◌>>◌,
}
use store_evix.Common.Patch.{Patch, unset, assign, patched}
use store_evix.Models.Promo.{PromoCode, DiscountType, percent, fixed}
use store_evix.Models.Order.{Order}
use store_evix.Models.Db.{Db}

-- The leaves of the class PromoError.
pub data PromoError : Type 0 where
  promo_invalid promo_expired promo_min_order promo_usage_limit : PromoError
  not_found conflict validation_error : PromoError

abbrev pub status_code : PromoError → ℕ
status_code promo_invalid = 404
status_code promo_expired = 400
status_code promo_min_order = 400
status_code promo_usage_limit = 409
status_code not_found = 404
status_code conflict = 409
status_code validation_error = 422

-- Codes are compared case-sensitively, and the column is unique.
unfoldable pub get_by_code : String → List PromoCode → Option PromoCode
get_by_code code [] = none
get_by_code code (p ∷ ps) = if str_eq p.code code then some p else get_by_code code ps

abbrev pub redeemed_with : String → Option String → Bool
redeemed_with code none = false
redeemed_with code (some c) = str_eq c code

-- The usage counter is derived from the orders.
unfoldable pub count_orders_using : String → List Order → ℕ
count_orders_using code orders = length (select_where (λ o. redeemed_with code o.promo_code) orders)

abbrev pub promo_id : PromoCode → ℕ
promo_id p = p.id

unfoldable pub within_window : PromoCode → ℕ → Bool
within_window promo moment =
    if ltb moment promo.active_from then false else not (ltb promo.active_to moment)

-- Millionths, from two amounts in hundredths and a division by 100.
abbrev pub scale : ℕ → ℤ → ℤ
scale n (pos v) = pos (n * v)
scale n (negsuc v) = sub_ℕ 0 (n * suc v)

-- `quantize(Decimal("1"), ROUND_HALF_UP)`: to whole units, a tie away from zero.
unfoldable pub quantize : ℤ → ℤ
quantize (pos m) = pos ((m + 500_000) / 1_000_000)
quantize (negsuc m) = sub_ℕ 0 ((suc m + 500_000) / 1_000_000)

abbrev pub raw_discount : DiscountType → ℤ → ℕ → ℤ
raw_discount percent value subtotal = scale subtotal value
raw_discount fixed value subtotal = scale 10_000 value

-- Whole units, clamped from below at zero and from above at the subtotal.
abbrev pub clamp_units : ℤ → ℕ → ℕ
clamp_units (pos units) subtotal = min (units * 100) subtotal
clamp_units (negsuc _) subtotal = 0

unfoldable pub compute_discount : PromoCode → ℕ → ℕ
unfolding quantize
compute_discount promo subtotal =
    clamp_units (quantize (raw_discount promo.discount_type promo.discount_value subtotal)) subtotal

abbrev pub below_minimum : Option ℕ → ℕ → Bool
below_minimum none subtotal = false
below_minimum (some m) subtotal = ltb subtotal m

abbrev pub exhausted : Option ℕ → ℕ → Bool
exhausted none used = false
exhausted (some limit) used = leb limit used

abbrev pub check_promo : PromoCode → ℕ → ℕ → ℕ → Result PromoError (PromoCode × ℕ)
check_promo promo subtotal now used =
    if not promo.is_active
    then err promo_invalid
    else if not (within_window promo now)
    then err promo_expired
    else if below_minimum promo.min_order_total subtotal
    then err promo_min_order
    else if exhausted promo.usage_limit used
    then err promo_usage_limit
    else ok (promo, compute_discount promo subtotal)

abbrev pub check_found : Option PromoCode → ℕ → ℕ → Db → Result PromoError (PromoCode × ℕ)
check_found none subtotal now db = err promo_invalid
check_found (some promo) subtotal now db =
    check_promo promo subtotal now (count_orders_using promo.code db.orders)

unfoldable pub validate_and_compute : String → ℕ → ℕ → Db → Result PromoError (PromoCode × ℕ)
validate_and_compute code subtotal now db = check_found (get_by_code code db.promos) subtotal now db

-- The cross-field rules of a definition. That the type is known is in `DiscountType`.
unfoldable pub validate_definition : DiscountType → ℤ → ℕ → ℕ → Result PromoError (Unit {0})
validate_definition percent value from to =
    if ltb_ℤ (pos 10_000) value
    then err validation_error
    else if ltb to from
    then err validation_error
    else ok tt
validate_definition fixed value from to = if ltb to from then err validation_error else ok tt

abbrev pub PromoAction : Type 0 → Type 0
PromoAction = Action Db PromoError

abbrev pub set_promos : List PromoCode → Db → Db
set_promos ps db = record db { promos = ps }

unfoldable pub get_promo : ℕ → PromoAction PromoCode
get_promo id = do or_raise (← gets (λ db. find promo_id id db.promos)) not_found

abbrev pub is_taken : Option PromoCode → Bool
is_taken none = false
is_taken (some _) = true

-- `payload` is the new row, with the primary key that the sequence assigns.
unfoldable pub create_promo : PromoCode → PromoAction PromoCode
unfolding validate_definition get_by_code
create_promo payload = do
  lift (
      validate_definition payload.discount_type payload.discount_value payload.active_from
        payload.active_to)
  clash ← gets (λ db. get_by_code payload.code db.promos)
  raise_if (is_taken clash) conflict
  write (λ db. set_promos (db.promos ++ payload ∷ []) db)
  commit
  pure payload

pub record PromoUpdate : Type 0 where
  pub code : Patch String
  pub discount_type : Patch DiscountType
  pub discount_value : Patch ℤ
  pub active_from : Patch ℕ
  pub active_to : Patch ℕ
  pub min_order_total : Patch (Option ℕ)
  pub usage_limit : Patch (Option ℕ)
  pub is_active : Patch Bool

-- The loop of `setattr` over the fields that are set.
abbrev pub apply_changes : PromoUpdate → PromoCode → PromoCode
apply_changes u p = record p {
  code = patched u.code p.code;
  discount_type = patched u.discount_type p.discount_type;
  discount_value = patched u.discount_value p.discount_value;
  active_from = patched u.active_from p.active_from;
  active_to = patched u.active_to p.active_to;
  min_order_total = patched u.min_order_total p.min_order_total;
  usage_limit = patched u.usage_limit p.usage_limit;
  is_active = patched u.is_active p.is_active;
}

abbrev pub clashes : PromoCode → Option PromoCode → Bool
clashes promo none = false
clashes promo (some other) = not (other.id == promo.id)

-- `new_code is not None and new_code != promo.code`, then the lookup.
abbrev pub code_clash : PromoCode → Patch String → List PromoCode → Bool
code_clash promo unset ps = false
code_clash promo (assign c) ps =
    if str_eq c promo.code then false else clashes promo (get_by_code c ps)

unfoldable pub update_promo : ℕ → PromoUpdate → PromoAction PromoCode
unfolding get_promo validate_definition get_by_code
update_promo id u = do
  promo ← get_promo id
  clash ← gets (λ db. code_clash promo u.code db.promos)
  raise_if clash conflict
  write (λ db. set_promos (modify promo_id id (apply_changes u) db.promos) db)
  let p = apply_changes u promo
  lift (validate_definition p.discount_type p.discount_value p.active_from p.active_to)
  commit
  pure p

unfoldable pub delete_promo : ℕ → PromoAction (Unit {0})
unfolding get_promo
delete_promo id = do
  promo ← get_promo id
  write (λ db. set_promos (remove promo_id promo.id db.promos) db)
  commit
