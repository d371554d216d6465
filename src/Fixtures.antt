-- ===== src/Fixtures.antt =====
-- A small shop on which the properties are tried: two products, one of them with a variant, a
-- guest's cart, two coupons and one order with a waybill.
use store_evix.Common.{true, false, none, some, [], ◌∷◌}
use store_evix.Common.Int.{pos}
use store_evix.Models.Catalog.{Product, ProductVariant, Stock}
use store_evix.Models.Order.{
  confirmed, pending, branch, novapost, card, Order, OrderItem, OrderDeliveryNovaPost,
}
use store_evix.Models.Cart.{Cart, CartItem, draft}
use store_evix.Models.Promo.{PromoCode, percent, fixed}
use store_evix.Models.Payment.{Payment, PaymentState}
use store_evix.Models.Db.{Db}
use store_evix.Models.CatalogDb.{Category, CatalogDb}

abbrev pub kettle : Product
kettle = record {
  id = 1;
  category_id = 12;
  code = "KET";
  price = 12_550;
  old_price = none;
  qty = 3;
  is_active = true;
  is_featured = false;
  has_variants = false;
  weight_g = some 900;
}

abbrev pub shirt : Product
shirt = record {
  id = 2;
  category_id = 11;
  code = "SHI";
  price = 0;
  old_price = none;
  qty = 0;
  is_active = true;
  is_featured = false;
  has_variants = true;
  weight_g = none;
}

abbrev pub red_shirt : ProductVariant
red_shirt = record {
  id = 7;
  product_id = 2;
  code = none;
  price = 20_000;
  old_price = none;
  qty = 5;
  position = 0;
  is_active = true;
  weight_g = some 0;
}

abbrev pub shelf : Stock
shelf = record { products = kettle ∷ shirt ∷ []; variants = red_shirt ∷ [] }

abbrev pub ten_percent : PromoCode
ten_percent = record {
  id = 1;
  code = "TEN";
  discount_type = percent;
  discount_value = pos 1000;
  active_from = 10;
  active_to = 90;
  min_order_total = some 5000;
  usage_limit = some 2;
  is_active = true;
}

abbrev pub fifty_off : PromoCode
fifty_off = record {
  id = 2;
  code = "FIFTY";
  discount_type = fixed;
  discount_value = pos 5000;
  active_from = 10;
  active_to = 90;
  min_order_total = none;
  usage_limit = none;
  is_active = false;
}

abbrev pub guest_cart : Cart
guest_cart = record { id = 4; user_id = none; session_token = some 77; status = draft }

abbrev pub kettles : CartItem
kettles = record { id = 1; cart_id = 4; product_id = 1; variant_id = none; qty = 2 }

abbrev pub shirts : CartItem
shirts = record { id = 2; cart_id = 4; product_id = 2; variant_id = some 7; qty = 1 }

-- An order of one kettle and two red shirts.
abbrev pub shipped : Order
shipped = record {
  id = 9;
  number = record { day = 20_260_101; seq = 1 };
  user_id = some 3;
  email = "a@b.md";
  phone = "060";
  status = confirmed;
  payment_status = pending;
  subtotal = 52_550;
  discount_total = 0;
  delivery_cost = 5000;
  total = pos 57_550;
  delivery_type = branch;
  delivery_service = novapost;
  delivery_address_id = none;
  delivery_name = some "Ana";
  delivery_city = none;
  delivery_street = none;
  delivery_zip = none;
  payment_method = card;
  promo_code = none;
}

abbrev pub shipped_kettle : OrderItem
shipped_kettle = record {
  order_id = 9;
  product_id = some 1;
  variant_id = none;
  name_snapshot = "Kettle";
  price_snapshot = 12_550;
  qty = 1;
}

abbrev pub shipped_shirts : OrderItem
shipped_shirts = record {
  order_id = 9;
  product_id = some 2;
  variant_id = some 7;
  name_snapshot = "Shirt";
  price_snapshot = 20_000;
  qty = 2;
}

abbrev pub waybill_row : OrderDeliveryNovaPost
waybill_row = record {
  order_id = 9;
  settlement_id = some "s";
  settlement_name = "Balti";
  settlement_name_ru = "";
  division_id = some "d";
  division_number = "2";
  division_address = "";
  address_parts = none;
  calculated_cost = some 5000;
  parcel_weight_g = some 900;
  awb_id = some "w9";
  awb_number = some "204";
  status_code = "1";
  status_text = "";
  status_updated_at = none;
}

abbrev pub card_payment : Payment
card_payment = record {
  id = 1;
  order_id = 9;
  pay_id = some "p1";
  status = PaymentState.pending;
  amount = pos 57_550;
  currency = "MDL";
}

abbrev pub shop_db : Db
shop_db = record {
  stock = shelf;
  translations = record { product_id = 1; lang = "ro"; name = "Ceainic"; slug = "ceainic" } ∷ [];
  addresses = [];
  carts = guest_cart ∷ [];
  cart_items = shirts ∷ kettles ∷ [];
  promos = ten_percent ∷ fifty_off ∷ [];
  orders = shipped ∷ [];
  order_items = shipped_kettle ∷ shipped_shirts ∷ [];
  history = [];
  carriers = waybill_row ∷ [];
  payments = card_payment ∷ [];
}

-- The catalogue of the shop: everything stands under one root.
abbrev pub home : Category
home = record {
  id = 10;
  parent_id = none;
  path = 10 ∷ [];
  depth = 0;
  is_active = true;
  position = pos 0;
  cover_image_url = none;
}

abbrev pub clothes : Category
clothes = record {
  id = 11;
  parent_id = some 10;
  path = 10 ∷ 11 ∷ [];
  depth = 1;
  is_active = true;
  position = pos 0;
  cover_image_url = none;
}

abbrev pub kitchen : Category
kitchen = record {
  id = 12;
  parent_id = some 11;
  path = 10 ∷ 11 ∷ 12 ∷ [];
  depth = 2;
  is_active = true;
  position = pos 1;
  cover_image_url = none;
}

-- Attribute 5 is the color, with the values 50 (red) and 51 (blue).
abbrev pub catalogue : CatalogDb
catalogue = record {
  categories = home ∷ clothes ∷ kitchen ∷ [];
  category_translations = [];
  products = kettle ∷ shirt ∷ [];
  translations =
      record { product_id = 1; lang = "ro"; name = "Ceainic"; slug = "ceainic" }
      ∷ record { product_id = 1; lang = "ru"; name = "Чайник"; slug = "chainik" }
      ∷ record { product_id = 2; lang = "ro"; name = "Camasa"; slug = "camasa" }
      ∷ record { product_id = 2; lang = "ru"; name = "Рубашка"; slug = "rubashka" }
      ∷ [];
  variants = red_shirt ∷ [];
  media = record { id = 1; product_id = 1; variant_id = none; url = "k.png"; position = 0 } ∷ [];
  attributes = record { id = 5; code = "color" } ∷ [];
  attribute_values =
      record { id = 50; attribute_id = 5 } ∷ record { id = 51; attribute_id = 5 } ∷ [];
  product_attributes =
      record { product_id = 2; value_id = 50 } ∷ record { product_id = 2; value_id = 51 } ∷ [];
  variation_attributes = record { product_id = 2; attribute_id = 5; position = 0 } ∷ [];
  variant_values = record { variant_id = 7; value_id = 50 } ∷ [];
  cards = [];
}
