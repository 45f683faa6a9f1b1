-- ===== src/Pricing.antt =====
-- backend/app/shared/pricing.py and backend/app/shared/payment_methods.py, and the currency pattern
-- of the request schemas. Prices are whole cents.
use Prim.Native.Char.{code}
use aurapro.Prelude.{
  ℕ, String, ◌≡◌, Bool, true, false, ◌&&◌, ◌||◌, Option, none, some, List, [], ◌∷◌, leb, str_eq,
  if◌then◌else◌, length, all, ◌==◌, refl,
}
use aurapro.Models.Customers.{CustomerType}
use aurapro.Models.Products.{Product}

-- The customer is seen through the type that the query has loaded with it.
pub is_wholesale_customer : Option CustomerType → Bool
is_wholesale_customer none = false
is_wholesale_customer (some customer_type) = customer_type.is_wholesale

unfoldable pub resolve_unit_price : Option CustomerType → Product → ℕ
unfolding is_wholesale_customer
resolve_unit_price customer_type product = elim product.wholesale_price [
  | none ↦ product.price
  | some wholesale_price ↦
      if is_wholesale_customer customer_type then wholesale_price else product.price
]

unfoldable pub payment_method_label : String → String
payment_method_label payment_method =
    if str_eq payment_method "cash"
    then "Efectivo"
    else if str_eq payment_method "card_debit"
    then "Tarjeta de débito"
    else if str_eq payment_method "card_credit"
    then "Tarjeta de crédito"
    else if str_eq payment_method "transfer"
    then "Transferencia"
    else if str_eq payment_method "account"
    then "Cuenta corriente"
    else payment_method

unfoldable pub is_card_payment : String → Bool
is_card_payment payment_method =
    str_eq payment_method "card_debit" || str_eq payment_method "card_credit"

-- The characters of a text, by their codes.
codes : String → List ℕ
codes String.[] = []
codes (String.◌∷◌ c s) = code c ∷ codes s

-- `^[A-Z]{3}$`
unfoldable pub is_currency : String → Bool
unfolding codes
is_currency text = length (codes text) == 3 && all (λ c. leb b'A' c && leb c b'Z') (codes text)

is_currency_ars : is_currency "ARS" ≡ true
unfolding is_currency
is_currency_ars = refl
