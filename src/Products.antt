-- ===== src/Products.antt =====
-- backend/app/modules/products: the catalogue with its categories, products, attributes and
-- variants.
pub mod Keys
pub mod Catalogue
pub mod Attributes
pub mod Removal
pub mod Categories
pub mod Patching
pub mod Ownership
pub mod Integrity
pub mod Variants
