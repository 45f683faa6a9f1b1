-- ===== src/Models/Documents.antt =====
-- The documents that carry priced lines: backend/app/modules/sales/models.py, quotes/models.py and
-- order_notes/models.py, each with its items, which the parent row owns (`delete-orphan`), and
-- the outbox row of backend/app/shared/outbox_model.py with its event of
-- backend/app/schemas/sales_event.py.
use aurapro.Prelude.{ℕ, String, Option, List}
use aurapro.Models.Row.{Row}

pub data SaleStatus : Type 0 where
  pending completed cancelled : SaleStatus

pub record SaleItem : Type 0 where
  pub tenant_id : ℕ
  pub product_id : ℕ
  pub variant_id : Option ℕ
  pub quantity : ℕ
  pub unit_price : ℕ

pub record Sale : Type 0 where
  pub id : ℕ
  pub created_at : ℕ
  pub tenant_id : ℕ
  pub customer_id : ℕ
  pub total_amount : ℕ
  pub currency : String
  pub sale_number : ℕ
  pub status : SaleStatus
  pub payment_method : String
  pub card_coupon_number : Option String
  pub card_authorization_code : Option String
  pub items : List SaleItem

pub data QuoteStatus : Type 0 where
  pending accepted rejected expired : QuoteStatus

-- The columns that quote_items and order_note_items share.
pub record OfferItem : Type 0 where
  pub tenant_id : ℕ
  pub product_id : ℕ
  pub variant_id : Option ℕ
  pub quantity : ℕ
  pub unit_price : ℕ

abbrev pub QuoteItem : Type 0
QuoteItem = OfferItem

abbrev pub OrderNoteItem : Type 0
OrderNoteItem = OfferItem

pub record Quote : Type 0 where
  pub id : ℕ
  pub created_at : ℕ
  pub tenant_id : ℕ
  pub customer_id : ℕ
  pub total_amount : ℕ
  pub currency : String
  pub quote_number : ℕ
  pub status : QuoteStatus
  pub valid_until : Option ℕ
  pub items : List QuoteItem

pub data OrderNoteStatus : Type 0 where
  pending invoiced cancelled : OrderNoteStatus

pub record OrderNote : Type 0 where
  pub id : ℕ
  pub created_at : ℕ
  pub tenant_id : ℕ
  pub customer_id : ℕ
  pub total_amount : ℕ
  pub currency : String
  pub order_note_number : ℕ
  pub status : OrderNoteStatus
  pub sale_id : Option ℕ
  pub items : List OrderNoteItem

-- The tenant's and a product's identifiers stand in the event as the texts of their UUIDs, which
-- are one to one with them.
pub record ProductDetail : Type 0 where
  pub product_id : ℕ
  pub name : String
  pub quantity : ℕ
  pub unit_price : ℕ

pub record SalesEvent : Type 0 where
  pub event_id : ℕ
  pub timestamp : ℕ
  pub tenant_id : ℕ
  pub product_details : List ProductDetail
  pub amount : ℕ
  pub currency : String

pub record OutboxEvent : Type 0 where
  pub id : ℕ
  pub created_at : ℕ
  pub aggregate_id : ℕ
  pub event_type : String
  pub payload : SalesEvent
  pub status : String

instance abbrev pub sale_row : Row Sale
sale_row = record { id = λ s. s.id; created_at = λ s. s.created_at; tenant_id = λ s. s.tenant_id }

instance abbrev pub quote_row : Row Quote
quote_row = record { id = λ q. q.id; created_at = λ q. q.created_at; tenant_id = λ q. q.tenant_id }

instance abbrev pub order_note_row : Row OrderNote
order_note_row = record {
  id = λ n. n.id;
  created_at = λ n. n.created_at;
  tenant_id = λ n. n.tenant_id;
}
