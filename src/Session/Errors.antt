-- ===== src/Session/Errors.antt =====
-- The exceptions that the service functions raise, and results. Modules that declare an exception
-- class of the same name share its constructor.
pub data Error : Type 0 where
  -- sales, quotes and order notes
  customer_not_found product_not_found product_not_active : Error
  product_variant_not_found variant_product_mismatch insufficient_stock : Error
  sale_not_found quote_not_found quote_not_pending : Error
  order_note_not_found order_note_not_pending order_note_customer_mismatch : Error
  cannot_set_invoiced_manually : Error
  -- treasury
  insufficient_credit : Error
  cash_session_already_open cash_session_not_found cash_session_already_closed : Error
  -- customers
  customer_in_use customer_type_not_found customer_type_duplicate_name : Error
  invalid_salesperson invalid_customer_type : Error
  -- products
  product_in_use product_sku_conflict product_category_not_found : Error
  product_category_duplicate_name invalid_category : Error
  product_variant_attributes_conflict product_variant_duplicate : Error
  product_variant_sku_conflict : Error
  product_attribute_not_found product_attribute_duplicate_name : Error
  product_attribute_value_not_found product_attribute_value_duplicate : Error
  -- identity
  invalid_credentials email_already_registered tenant_suspended : Error
  invitation_not_found invitation_expired invitation_already_accepted : Error
  user_not_found cannot_delete_self cannot_delete_last_admin cannot_demote_last_admin : Error
  password_reset_not_found password_reset_expired password_reset_already_used : Error
  logo_too_large unsupported_logo_type : Error
  -- admin
  tenant_not_found : Error
  -- HTTP 401 and 403 of the session's dependency
  not_authenticated organization_suspended : Error
  -- a constraint and a column's range (SQLAlchemy), and a model's validation (pydantic)
  integrity_error data_error no_result_found attribute_error multiple_results_found
        validation_error :
      Error

pub data Result {ℓ} (A : Type ℓ) : Type ℓ where
  ok : A → Result A
  err : Error → Result A
