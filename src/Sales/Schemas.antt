-- ===== src/Sales/Schemas.antt =====
-- backend/app/modules/sales/schemas.py: the body of a sale request, and what pydantic has checked
-- of it before `create_sale` runs.
use aurapro.Prelude.{ℕ, String, Bool, not, ◌&&◌, Option, List, ltb, str_eq, length, all}
use aurapro.Pricing.{is_currency}

pub record SaleItemCreate : Type 0 where
  pub product_id : ℕ
  pub variant_id : Option ℕ
  pub quantity : ℕ

pub record SaleCreate : Type 0 where
  pub customer_id : ℕ
  pub payment_method : String
  pub currency : String
  pub items : List SaleItemCreate
  pub card_coupon_number : Option String
  pub card_authorization_code : Option String
  pub order_note_id : Option ℕ

unfoldable pub is_accepted : SaleCreate → Bool
is_accepted payload =
    not (str_eq payload.payment_method "")
    && is_currency payload.currency
    && ltb 0 (length payload.items)
    && all (λ (i : SaleItemCreate). ltb 0 i.quantity) payload.items
