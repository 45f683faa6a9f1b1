-- ===== src/Models/Products.antt =====
-- backend/app/modules/products/models.py. A variant's free-form attributes are its key and value
-- pairs; prices are whole cents.
use aurapro.Prelude.{ℕ, String, Bool, Option, List}
use aurapro.Models.Row.{Row}

pub record ProductCategory : Type 0 where
  pub id : ℕ
  pub created_at : ℕ
  pub tenant_id : ℕ
  pub name : String

pub record Product : Type 0 where
  pub id : ℕ
  pub created_at : ℕ
  pub tenant_id : ℕ
  pub name : String
  pub description : Option String
  pub price : ℕ
  pub cost : Option ℕ
  pub wholesale_price : Option ℕ
  pub current_stock : ℕ
  pub category_id : Option ℕ
  pub sku : Option String
  pub barcode : Option String
  pub image_url : Option String
  pub is_active : Bool

pub record ProductAttribute : Type 0 where
  pub id : ℕ
  pub created_at : ℕ
  pub tenant_id : ℕ
  pub name : String

pub record ProductAttributeValue : Type 0 where
  pub id : ℕ
  pub created_at : ℕ
  pub tenant_id : ℕ
  pub attribute_id : ℕ
  pub value : String

pub record ProductVariant : Type 0 where
  pub id : ℕ
  pub created_at : ℕ
  pub tenant_id : ℕ
  pub product_id : ℕ
  pub attributes : List (String × String)
  pub sku : Option String
  pub stock : ℕ

instance abbrev pub category_row : Row ProductCategory
category_row = record {
  id = λ c. c.id;
  created_at = λ c. c.created_at;
  tenant_id = λ c. c.tenant_id;
}

instance abbrev pub product_row : Row Product
product_row = record {
  id = λ p. p.id;
  created_at = λ p. p.created_at;
  tenant_id = λ p. p.tenant_id;
}

instance abbrev pub variant_row : Row ProductVariant
variant_row = record {
  id = λ v. v.id;
  created_at = λ v. v.created_at;
  tenant_id = λ v. v.tenant_id;
}

instance abbrev pub attribute_row : Row ProductAttribute
attribute_row = record {
  id = λ a. a.id;
  created_at = λ a. a.created_at;
  tenant_id = λ a. a.tenant_id;
}

instance abbrev pub attribute_value_row : Row ProductAttributeValue
attribute_value_row = record {
  id = λ v. v.id;
  created_at = λ v. v.created_at;
  tenant_id = λ v. v.tenant_id;
}
