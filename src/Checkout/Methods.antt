-- ===== src/Checkout/Methods.antt =====
-- Which delivery selections `_DeliveryChoice.validate` of app/services/checkout_service.py accepts.
use store_evix.Common.{◌≡◌, ◌≢◌, ◌↔◌, true, Option, none, some, String, arith, is_some, str_eq_iff}
use store_evix.Common.Session.{ok}
use store_evix.Models.Order.{
  DeliveryService, own, novapost, DeliveryType, pickup, courier, branch, postomat,
}
use store_evix.Order.{truthy}
use store_evix.Checkout.Choice.{Settings, DeliveryChoice, validate}

-- A text that is there and not empty.
abbrev pub IsText : Option String → Type 0
IsText none = ⊥
IsText (some s) = s ≢ ""

abbrev pub IsGiven : {A : Type 0} → Option A → Type 0
IsGiven none = ⊥
IsGiven (some _) = Unit

-- Where the carrier is to deliver, by kind.
abbrev pub IsReachable : DeliveryType → DeliveryChoice → Type 0
IsReachable pickup c = ⊥
IsReachable courier c = IsText c.settlement_id × IsGiven c.np_address
IsReachable branch c = IsText c.division_id
IsReachable postomat c = IsText c.division_id

abbrev pub IsOffered : Settings → DeliveryChoice → DeliveryService → DeliveryType → Type 0
IsOffered settings c own pickup = Unit
IsOffered settings c own courier = Unit
IsOffered settings c own branch = ⊥
IsOffered settings c own postomat = ⊥
IsOffered settings c novapost kind =
    (settings.novapost_enabled ≡ true) × IsReachable kind c × IsText c.np_recipient_name

truthy_iff : (o : Option String) → (is_some (truthy o) ≡ true) ↔ IsText o
truthy_iff none = ground arith
truthy_iff (some s) = ground (arith, str_eq_iff s "")

IsGiven-iff : {A : Type 0} (o : Option A) → (is_some o ≡ true) ↔ IsGiven o
IsGiven-iff none = ground arith
IsGiven-iff (some a) = ground arith

validate-IsOffered :
    (settings : Settings) (s : DeliveryService) (t : DeliveryType) (c : DeliveryChoice)
    → (validate settings (record c { service = s; delivery_type = t }) ≡ ok tt)
      ↔ IsOffered settings c s t
unfolding validate
validate-IsOffered settings own pickup c = ground arith
validate-IsOffered settings own courier c = ground arith
validate-IsOffered settings own branch c = ground arith
validate-IsOffered settings own postomat c = ground arith
validate-IsOffered settings novapost pickup c = ground arith
validate-IsOffered settings novapost courier c =
    ground
      (arith, truthy_iff c.settlement_id, IsGiven-iff c.np_address, truthy_iff c.np_recipient_name)
validate-IsOffered settings novapost branch c =
    ground (arith, truthy_iff c.division_id, truthy_iff c.np_recipient_name)
validate-IsOffered settings novapost postomat c =
    ground (arith, truthy_iff c.division_id, truthy_iff c.np_recipient_name)

-- A selection is accepted exactly when the shop offers it: our pickup and our courier always, the
-- carrier where it is enabled, has a destination of its kind and a recipient is named.
pub validate_iff :
    (settings : Settings) (c : DeliveryChoice)
    → (validate settings c ≡ ok tt) ↔ IsOffered settings c c.service c.delivery_type
validate_iff settings c = validate-IsOffered settings c.service c.delivery_type c
