-- ===== src/Products/Removal.antt =====
-- The deletions of backend/app/modules/products/services.py with what the foreign keys do: a line
-- of a sale, a quote or an order note restricts, a product's variants go with it (`CASCADE`), and
-- a category is taken off its products (`SET NULL`).
use aurapro.Prelude.{
  ℕ, Bool, false, not, ◌&&◌, Option, none, some, List, ◌==◌, if◌then◌else◌, map, filter, all, find,
}
use aurapro.Models.{Database}
use aurapro.Models.Products.{Product, ProductVariant, category_row, product_row, variant_row}
use aurapro.Models.Documents.{Sale, SaleItem, Quote, QuoteItem, OrderNote, OrderNoteItem}
use aurapro.Session.{Exec, gets, or_raise, ◌>>=◌, ◌>>◌, raise_if, modify, commit, commit_or_rescue}
use aurapro.Session.Errors.{Error}
use aurapro.Query.{select_by_id, visible, delete_by_id}
use aurapro.Products.Catalogue.{get_product}

-- What a line of a document refers to.
pub record Reference : Type 0 where
  pub product_id : ℕ
  pub variant_id : Option ℕ

abbrev pub sale_references : List SaleItem → List Reference
sale_references =
    map (λ (i : SaleItem). record { product_id = i.product_id; variant_id = i.variant_id })

abbrev pub quote_references : List QuoteItem → List Reference
quote_references =
    map (λ (i : QuoteItem). record { product_id = i.product_id; variant_id = i.variant_id })

abbrev pub note_references : List OrderNoteItem → List Reference
note_references =
    map (λ (i : OrderNoteItem). record { product_id = i.product_id; variant_id = i.variant_id })

-- Every line of every document of the type passes the test.
module _ {D : Type 0} where
  abbrev pub all_lines : (D → List Reference) → (Reference → Bool) → List D → Bool
  all_lines lines p docs = all (λ doc. all p (lines doc)) docs

unfoldable pub all_references : (Reference → Bool) → Database → Bool
all_references p d =
    all_lines (λ (s : Sale). sale_references s.items) p d.sales
    && all_lines (λ (q : Quote). quote_references q.items) p d.quotes
    && all_lines (λ (n : OrderNote). note_references n.items) p d.order_notes

abbrev pub is_variant : ℕ → Option ℕ → Bool
is_variant k none = false
is_variant k (some j) = j == k

-- The line refers neither to the product nor to one of its variants.
abbrev pub spares_product : ℕ → List ProductVariant → Reference → Bool
spares_product k variants r =
    not (r.product_id == k)
    && all (λ (v : ProductVariant). not (v.product_id == k && is_variant v.id r.variant_id))
        variants

unfoldable pub is_unreferenced : ℕ → Database → Bool
is_unreferenced k d = all_references (spares_product k d.variants) d

abbrev pub remove_product : ℕ → Database → Database
remove_product k d = record d {
  products = delete_by_id k d.products;
  variants = filter (λ (v : ProductVariant). not (v.product_id == k)) d.variants;
}

unfoldable pub delete_product : ℕ → Exec (Unit {0})
delete_product product_id = do
  product ← get_product product_id
  free ← gets (λ s. is_unreferenced product.id s.pending)
  commit_or_rescue free Error.product_in_use (remove_product product.id)

abbrev pub select_variant : ℕ → ℕ → Option ℕ → List ProductVariant → Option ProductVariant
select_variant product_id variant_id scope variants =
    find
      (λ (v : ProductVariant).
        v.id == variant_id && v.product_id == product_id && visible scope v.tenant_id)
      variants

-- `get_variant`: the product in the path has to be the variant's own.
unfoldable pub get_variant : ℕ → ℕ → Exec ProductVariant
get_variant product_id variant_id = do
  found ← gets λ s. select_variant product_id variant_id s.scope s.pending.variants
  or_raise found Error.product_variant_not_found

-- The commit of `delete_variant` is not caught: a variant on a document's line makes it fail.
unfoldable pub variant_is_unreferenced : ℕ → Database → Bool
variant_is_unreferenced k d = all_references (λ (r : Reference). not (is_variant k r.variant_id)) d

unfoldable pub delete_variant : ℕ → ℕ → Exec (Unit {0})
delete_variant product_id variant_id = do
  variant ← get_variant product_id variant_id
  free ← gets (λ s. variant_is_unreferenced variant.id s.pending)
  raise_if (not free) Error.integrity_error
  modify (λ d. record d { variants = delete_by_id variant.id d.variants })
  commit

abbrev pub clear_category : ℕ → Product → Product
clear_category k p = record p {
  category_id = elim p.category_id [ none ↦ none | some j ↦ if j == k then none else some j ];
}

unfoldable pub delete_category : ℕ → Exec (Unit {0})
delete_category category_id = do
  found ← select_by_id (λ d. d.categories) category_id
  category ← or_raise found Error.product_category_not_found
  modify λ d. record d {
    categories = delete_by_id category.id d.categories;
    products = map (clear_category category.id) d.products;
  }
  commit
