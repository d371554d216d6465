-- ===== src/Models/CatalogDb.antt =====
-- The tables of the catalogue, as the back office edits them: app/models/catalog.py.
use store_evix.Common.{ℕ, Bool, Option, List, String}
use store_evix.Common.Int.{ℤ}
use store_evix.Models.Catalog.{Product, ProductTranslation, ProductVariant}

pub record Category : Type 0 where
  pub id : ℕ
  pub parent_id : Option ℕ
  pub path : List ℕ
  pub depth : ℕ
  pub is_active : Bool
  pub position : ℤ
  pub cover_image_url : Option String

pub record CategoryTranslation : Type 0 where
  pub category_id : ℕ
  pub lang : String
  pub name : String
  pub slug : String
  pub seo_title : Option String
  pub seo_description : Option String

-- The kind of a medium is always an image.
pub record Media : Type 0 where
  pub id : ℕ
  pub product_id : ℕ
  pub variant_id : Option ℕ
  pub url : String
  pub position : ℕ

pub record Attribute : Type 0 where
  pub id : ℕ
  pub code : String

pub record AttributeValue : Type 0 where
  pub id : ℕ
  pub attribute_id : ℕ

pub record ProductAttribute : Type 0 where
  pub product_id : ℕ
  pub value_id : ℕ

pub record ProductVariationAttribute : Type 0 where
  pub product_id : ℕ
  pub attribute_id : ℕ
  pub position : ℕ

pub record ProductVariantValue : Type 0 where
  pub variant_id : ℕ
  pub value_id : ℕ

-- The read model of a listing.
pub record ProductCard : Type 0 where
  pub product_id : ℕ
  pub lang : String
  pub category_id : ℕ
  pub name : String
  pub slug : String
  pub price : ℕ
  pub old_price : Option ℕ
  pub price_max : Option ℕ
  pub in_stock : Bool
  pub main_image_url : Option String
  pub badge : Option String
  pub path : List ℕ
  pub is_active : Bool
  pub is_featured : Bool

pub record CatalogDb : Type 0 where
  pub categories : List Category
  pub category_translations : List CategoryTranslation
  pub products : List Product
  pub translations : List ProductTranslation
  pub variants : List ProductVariant
  pub media : List Media
  pub attributes : List Attribute
  pub attribute_values : List AttributeValue
  pub product_attributes : List ProductAttribute
  pub variation_attributes : List ProductVariationAttribute
  pub variant_values : List ProductVariantValue
  pub cards : List ProductCard
