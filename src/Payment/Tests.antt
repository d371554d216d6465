-- ===== src/Payment/Tests.antt =====
-- The properties of card payments on the payment of the small shop.
use store_evix.Common.{◌≡◌, refl, true, some, [], str_eq}
use store_evix.Common.Session.{ok, err, run_request}
use store_evix.Models.Order.{paid}
use store_evix.Models.Payment.{PaymentState}
use store_evix.Models.Db.{Db}
use store_evix.Order.{waybill_cancel_failed, Surroundings, move_payment, transition}
use store_evix.Fixtures.{shop_db, shipped, card_payment}
use store_evix.Payment.Defs.{
  order_refused, Callback, Gateway, mark, set_payment, handle_callback, get_by_pay_id, apply_paid,
}
use store_evix.Payment.Callback.{
  Answered, IsDue, handle_callback-Answered, handle_callback_idempotent, handle_callback_stuck,
}
use store_evix.Payment.Effects.{Settlement, handle_callback-Settlement}

abbrev gateway : Gateway
gateway = record {
  enabled = true;
  currency = "MDL";
  create_payment = λ o. some "p2";
  refunds = λ id amount. true;
  verifies = λ c. str_eq c.signature "signed";
  upper = λ s. s;
}

abbrev env : Surroundings
env = record {
  integration = true;
  cancels_shipment = λ _. true;
  effect_runs = true;
  lines_before_failure = 0;
}

abbrev success : Callback
success = record { pay_id = some "p1"; status = "OK"; signature = "signed" }

abbrev failure : Callback
failure = record { pay_id = some "p1"; status = "FAILED"; signature = "signed" }

abbrev unshipped : Db
unshipped = record shop_db { carriers = [] }

success-IsDue : IsDue gateway success shop_db "p1" card_payment shipped
unfolding get_by_pay_id
success-IsDue = (refl, refl, refl, refl, refl)

failure-IsDue : IsDue gateway failure unshipped "p1" card_payment shipped
unfolding get_by_pay_id
failure-IsDue = (refl, refl, refl, refl, refl)

-- A failed payment of an order with a waybill is refused.
handle_callback-Answered_example :
    Answered gateway failure shop_db (run_request (handle_callback gateway env failure) shop_db)
handle_callback-Answered_example = handle_callback-Answered gateway env failure shop_db

abbrev paid_db : Db
paid_db = move_payment shipped (some paid) "maib" (set_payment 1 (mark PaymentState.ok) shop_db)

first_time : run_request (handle_callback gateway env success) shop_db ≡ (ok true, paid_db)
unfolding handle_callback apply_paid transition get_by_pay_id
first_time = refl

handle_callback_idempotent_example :
    run_request (handle_callback gateway env failure) paid_db ≡ (ok true, paid_db)
handle_callback_idempotent_example =
    handle_callback_idempotent gateway env env success failure shop_db paid_db first_time refl refl

refusal-IsDue : IsDue gateway failure shop_db "p1" card_payment shipped
unfolding get_by_pay_id
refusal-IsDue = (refl, refl, refl, refl, refl)

handle_callback_stuck_example :
    run_request (handle_callback gateway env failure) shop_db
    ≡ (err (order_refused waybill_cancel_failed), shop_db)
handle_callback_stuck_example =
    handle_callback_stuck gateway env failure shop_db "p1" card_payment shipped refusal-IsDue refl
      refl refl

abbrev failed_db : Db
failed_db = (run_request (handle_callback gateway env failure) unshipped).1

handle_callback-Settlement_example :
    ((run_request (handle_callback gateway env failure) unshipped).0 ≡ ok true)
    × Settlement (str_eq "FAILED" "OK") "p1" card_payment shipped unshipped failed_db
handle_callback-Settlement_example =
    handle_callback-Settlement gateway env failure unshipped "p1" card_payment shipped failure-IsDue
      refl refl refl refl
