-- ===== src/Order/Tests.antt =====
-- The properties of orders on the shipped order of the small shop.
use store_evix.Common.{◌≡◌, refl, true, none, some, List, [], ◌∷◌}
use store_evix.Common.Table.{find}
use store_evix.Common.Session.{run_request}
use store_evix.Models.Order.{done, canceled, paid, refunded, Order}
use store_evix.Models.Db.{Db}
use store_evix.Fixtures.{shipped, shop_db}
use store_evix.Order.Defs.{Surroundings, order_key, transition}
use store_evix.Order.Machine.{Verdict, transition-Verdict}
use store_evix.Order.Requests.{Request, Progress, handle_all, handle_all-Progress, handle_all_final}

abbrev carrier_on : Surroundings
carrier_on = record {
  integration = true;
  cancels_shipment = λ _. true;
  effect_runs = true;
  lines_before_failure = 0;
}

transition-Verdict_example :
    Verdict carrier_on shipped
      (some canceled)
      none
      "admin"
      shop_db
      (run_request (transition carrier_on shipped (some canceled) none "admin") shop_db)
transition-Verdict_example =
    transition-Verdict carrier_on shipped (some canceled) none "admin" shop_db refl

abbrev day : List Request
day =
    record {
      env = carrier_on;
      to_status = none;
      to_payment_status = some paid;
      changed_by = "maib";
    }
    ∷ record {
      env = carrier_on;
      to_status = some canceled;
      to_payment_status = some refunded;
      changed_by = "admin";
    }
    ∷ record {
      env = carrier_on;
      to_status = some done;
      to_payment_status = none;
      changed_by = "admin";
    }
    ∷ []

handle_all-Progress_example : Progress 9 shipped (handle_all 9 day shop_db)
handle_all-Progress_example = handle_all-Progress 9 day shipped shop_db refl

abbrev finished : Order
finished = record shipped { status = done }

abbrev later : Db
later = record shop_db { orders = finished ∷ [] }

handle_all_final_example :
    (o : Order) × (find order_key 9 (handle_all 9 day later).orders ≡ some o) × (o.status ≡ done)
handle_all_final_example = handle_all_final 9 day finished later refl refl
