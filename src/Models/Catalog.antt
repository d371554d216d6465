-- ===== src/Models/Catalog.antt =====
-- The catalogue rows that buying reads and writes: app/models/catalog.py. Prices are whole cents
-- (`Numeric(12, 2)`), which the back office keeps at zero or more, as it does quantities.
use store_evix.Common.{ℕ, Bool, Option, List, String}

-- Timestamps are left out.
pub record Product : Type 0 where
  pub id : ℕ
  pub category_id : ℕ
  pub code : String
  pub price : ℕ
  pub old_price : Option ℕ
  pub qty : ℕ
  pub is_active : Bool
  pub is_featured : Bool
  pub has_variants : Bool
  pub weight_g : Option ℕ

-- The text for search engines, the description and the search vector are left out.
pub record ProductTranslation : Type 0 where
  pub product_id : ℕ
  pub lang : String
  pub name : String
  pub slug : String

pub record ProductVariant : Type 0 where
  pub id : ℕ
  pub product_id : ℕ
  pub code : Option String
  pub price : ℕ
  pub old_price : Option ℕ
  pub qty : ℕ
  pub position : ℕ
  pub is_active : Bool
  pub weight_g : Option ℕ

-- The two tables that hold stock.
pub record Stock : Type 0 where
  pub products : List Product
  pub variants : List ProductVariant
