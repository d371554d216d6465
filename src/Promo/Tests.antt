-- ===== src/Promo/Tests.antt =====
-- The properties of the coupons on the coupons of the small shop.
use store_evix.Common.{ℕ, ◌≤◌, ◌<◌, ◌≡◌, refl, ◌*◌, ◌+◌, min, true, some, arith}
use store_evix.Common.Session.{run_request}
use store_evix.Common.Patch.{unset, assign}
use store_evix.Models.Promo.{PromoCode, percent}
use store_evix.Fixtures.{ten_percent, shop_db}
use store_evix.Promo.Defs.{
  compute_discount, validate_and_compute, get_by_code, count_orders_using, PromoUpdate,
  create_promo, update_promo, delete_promo,
}
use store_evix.Promo.Discount.{compute_discount_le, compute_discount_nearest, compute_discount_mono}
use store_evix.Promo.Validate.{IsUsable, Answers, validate_and_compute-Answers}
use store_evix.Promo.Rows.{IsValid, NotKeyed}
use store_evix.Promo.Admin.{
  promos_after, create_promo-IsValid, update_promo-IsValid, Deleted, delete_promo-Deleted,
}

ten_percent_rounds : compute_discount ten_percent 12_550 ≡ 1300
unfolding compute_discount
ten_percent_rounds = refl

compute_discount_le_example : compute_discount ten_percent 12_550 ≤ 12_550
compute_discount_le_example = compute_discount_le ten_percent 12_550

compute_discount_nearest_example :
    (units : ℕ) × (compute_discount ten_percent 12_550 ≡ min (units * 100) 12_550)
    × (units * 1_000_000 ≤ 12_550_000 + 500_000)
    × (12_550_000 < units * 1_000_000 + 500_000)
compute_discount_nearest_example = compute_discount_nearest ten_percent 12_550 12_550_000 refl

compute_discount_mono_example :
    compute_discount ten_percent 12_500 ≤ compute_discount ten_percent 20_000
compute_discount_mono_example = compute_discount_mono ten_percent 12_500 20_000 (omega arith)

validate_and_compute-Answers_example :
    Answers 12_550 50 shop_db
      (get_by_code "TEN" shop_db.promos)
      (validate_and_compute "TEN" 12_550 50 shop_db)
validate_and_compute-Answers_example = validate_and_compute-Answers "TEN" 12_550 50 shop_db

found_ten : get_by_code "TEN" shop_db.promos ≡ some ten_percent
unfolding get_by_code
found_ten = refl

ten_percent-IsUsable :
    IsUsable ten_percent 12_550 50 (count_orders_using ten_percent.code shop_db.orders)
unfolding count_orders_using
ten_percent-IsUsable = record {
  active = refl;
  inside = (omega arith, omega arith);
  minimum = omega arith;
  uses_left = omega arith;
}

shop_db-IsValid : IsValid shop_db.promos
shop_db-IsValid = (
  (omega arith, omega arith),
  ((λ e. cc), tt),
  ((λ e. omega (arith, e)), tt),
  (omega arith, tt, tt, tt),
)

abbrev spring : PromoCode
spring = record ten_percent { id = 3; code = "SPRING" }

spring-NotKeyed : NotKeyed 3 shop_db.promos
spring-NotKeyed = ((λ e. omega (arith, e)), ((λ e. omega (arith, e)), tt))

create_promo-IsValid_example : IsValid (promos_after (run_request (create_promo spring) shop_db))
create_promo-IsValid_example = create_promo-IsValid spring shop_db shop_db-IsValid spring-NotKeyed

abbrev to_percent : PromoUpdate
to_percent = record {
  code = assign "HALF";
  discount_type = assign percent;
  discount_value = unset;
  active_from = unset;
  active_to = unset;
  min_order_total = unset;
  usage_limit = assign (some 5);
  is_active = assign true;
}

update_promo-IsValid_example :
    IsValid (promos_after (run_request (update_promo 2 to_percent) shop_db))
update_promo-IsValid_example = update_promo-IsValid 2 to_percent shop_db shop_db-IsValid

delete_promo-Deleted_example : Deleted 1 shop_db (run_request (delete_promo 1) shop_db)
delete_promo-Deleted_example = delete_promo-Deleted 1 shop_db shop_db-IsValid
