-- ===== src/Tests/Fixtures.antt =====
-- A small shop: tenant 1 with two customers, two products and a variant, and a neighbour, tenant 2.
use aurapro.Prelude.{ℕ, String, true, Option, none, some, [], ◌∷◌}
use aurapro.Models.{Database, empty}
use aurapro.Models.Identity.{Tenant}
use aurapro.Models.Customers.{Customer, CustomerType}
use aurapro.Models.Products.{Product, ProductVariant}
use aurapro.Models.Documents.{OrderNote, OrderNoteStatus}
use aurapro.Models.Treasury.{CashSession, opened}
use aurapro.Session.{Session}
use aurapro.Sales.Schemas.{SaleCreate, SaleItemCreate}

abbrev pub tenant : ℕ → Tenant
tenant id = record {
  id = id;
  name = "Tienda";
  is_active = true;
  created_at = 0;
  next_sale_number = 1;
  next_quote_number = 1;
  next_order_note_number = 1;
  cuit = none;
  address = none;
  phone = none;
  business_email = none;
  tax_status = none;
  logo = none;
  logo_content_type = none;
}

abbrev pub wholesale : CustomerType
wholesale = record {
  id = 10;
  created_at = 0;
  tenant_id = 1;
  name = "Mayorista";
  is_wholesale = true;
}

abbrev pub customer : ℕ → Option ℕ → Option ℕ → Customer
customer id customer_type_id credit_limit = record {
  id = id;
  created_at = 0;
  tenant_id = 1;
  name = "Ana";
  email = none;
  phone = none;
  address = none;
  credit_limit = credit_limit;
  default_salesperson_id = none;
  customer_type_id = customer_type_id;
  cuit = none;
  tax_status = none;
}

abbrev pub product : ℕ → ℕ → Option ℕ → ℕ → Product
product id price wholesale_price current_stock = record {
  id = id;
  created_at = 0;
  tenant_id = 1;
  name = "Yerba";
  description = none;
  price = price;
  cost = none;
  wholesale_price = wholesale_price;
  current_stock = current_stock;
  category_id = none;
  sku = none;
  barcode = none;
  image_url = none;
  is_active = true;
}

abbrev pub variant : ProductVariant
variant = record {
  id = 40;
  created_at = 0;
  tenant_id = 1;
  product_id = 31;
  attributes = ("talle", "M") ∷ [];
  sku = none;
  stock = 4;
}

abbrev pub till_session : CashSession
till_session = record {
  id = 50;
  created_at = 0;
  tenant_id = 1;
  opening_amount = 1000;
  opened_by_user_id = none;
  status = opened;
  closed_at = none;
  closed_by_user_id = none;
  closing_amount_declared = none;
  closing_amount_expected = none;
}

abbrev pub pending_note : OrderNote
pending_note = record {
  id = 60;
  created_at = 0;
  tenant_id = 1;
  customer_id = 20;
  total_amount = 500;
  currency = "ARS";
  order_note_number = 1;
  status = OrderNoteStatus.pending;
  sale_id = none;
  items = [];
}

abbrev pub shop : Database
shop = record empty {
  next_id = 100;
  tenants = tenant 1 ∷ tenant 2 ∷ [];
  customer_types = wholesale ∷ [];
  customers = customer 20 (some 10) (some 5000) ∷ customer 21 none none ∷ [];
  products = product 30 500 (some 400) 10 ∷ product 31 900 none 0 ∷ [];
  variants = variant ∷ [];
  cash_sessions = till_session ∷ [];
  order_notes = pending_note ∷ [];
}

abbrev pub session : Session
session = record { scope = some 1; now = 77; committed = shop; pending = shop }

abbrev pub item : ℕ → Option ℕ → ℕ → SaleItemCreate
item product_id variant_id quantity = record {
  product_id = product_id;
  variant_id = variant_id;
  quantity = quantity;
}

-- Two lines of product 30 and one of a variant of product 31.
abbrev pub request : String → Option ℕ → SaleCreate
request payment_method order_note_id = record {
  customer_id = 20;
  payment_method = payment_method;
  currency = "ARS";
  items = item 30 none 2 ∷ item 31 (some 40) 3 ∷ item 30 none 1 ∷ [];
  card_coupon_number = none;
  card_authorization_code = none;
  order_note_id = order_note_id;
}
