-- ===== src/Products/Variants/Combinations.antt =====
-- Lists of variants of which no two have the same combination of attributes, and what keeps them
-- so.
use aurapro.Prelude.{
  ℕ, ◌≡◌, refl, sym, subst, String, Bool, true, false, not, none, List, [], ◌∷◌, ◌++◌, arith, ◌==◌,
  inl, inr, Bool-cases, filter, map,
}
use aurapro.Models.Products.{ProductVariant, variant_row}
use aurapro.Query.{find_by_id, update_by_id}
use aurapro.Query.Laws.{IsKeyed, update_by_id-absent}
use aurapro.Products.Keys.{keys_equal}
use aurapro.Products.Keys.Canonical.{keys_equal_sound, keys_equal_self}
use aurapro.Products.Variants.{is_taken, is_empty_key, contains_key, combo_of}

abbrev Items : Type 0
Items = List (String × String)

abbrev pub IsDistinct : List ProductVariant → Type 0
IsDistinct [] = Unit
IsDistinct (v ∷ rest) = (is_taken (combo_of v) (map combo_of rest) ≡ false) × IsDistinct rest

is_taken-cons :
    (x y : Items) (ys : List Items)
    → is_taken x (y ∷ ys) ≡ false
    → (is_taken x (y ∷ []) ≡ false) × (is_taken x ys ≡ false)
unfolding is_taken contains_key
is_taken-cons x y ys h = ground arith

is_taken_join :
    (x y : Items) (ys : List Items)
    → is_taken x (y ∷ []) ≡ false
    → is_taken x ys ≡ false
    → is_taken x (y ∷ ys) ≡ false
unfolding is_taken contains_key
is_taken_join x y ys h k = ground arith

pub is_taken-nil : (x : Items) → is_taken x [] ≡ false
unfolding is_taken contains_key
is_taken-nil x = ground arith

is_taken_self : (x : Items) → is_empty_key x ≡ false → is_taken x (x ∷ []) ≡ true
unfolding is_taken contains_key
is_taken_self x h = ground (arith, keys_equal_self x)

is_taken_sound : (x y : Items) → is_taken x (y ∷ []) ≡ true → (x ≡ y) × (is_empty_key x ≡ false)
unfolding is_taken contains_key
is_taken_sound x y h =
    let (same, full) : (keys_equal x y ≡ true) × (is_empty_key x ≡ false) = ground arith in
    (keys_equal_sound x y same, full)

is_taken_sym : (x y : Items) → is_taken x (y ∷ []) ≡ false → is_taken y (x ∷ []) ≡ false
is_taken_sym x y h = elim (Bool-cases (is_taken y (x ∷ []))) [
  | inr free ↦ free
  | inl taken ↦
      let (same, full) = is_taken_sound y x taken in
      let back = subst (λ z. is_taken x (z ∷ []) ≡ false) same h in
      let full' = subst (λ z. is_empty_key z ≡ false) same full in
      absurd (ground (arith, back, is_taken_self x full'))
]

is_taken-append :
    (x : Items) (ys : List ProductVariant) (v : ProductVariant)
    → is_taken x (map combo_of ys) ≡ false
    → is_taken x (combo_of v ∷ []) ≡ false
    → is_taken x (map combo_of (ys ++ v ∷ [])) ≡ false
is_taken-append x [] v h k = k
is_taken-append x (w ∷ ys) v h k =
    let (first, rest) = is_taken-cons x (combo_of w) (map combo_of ys) h in
    is_taken_join x (combo_of w) (map combo_of (ys ++ v ∷ [])) first (is_taken-append x ys v rest k)

-- A new variant with a combination that is free.
pub IsDistinct-append :
    (ys : List ProductVariant) (v : ProductVariant)
    → IsDistinct ys
    → is_taken (combo_of v) (map combo_of ys) ≡ false
    → IsDistinct (ys ++ v ∷ [])
IsDistinct-append [] v d free = (is_taken-nil (combo_of v), tt)
IsDistinct-append (w ∷ ys) v d free =
    let (first, rest) = is_taken-cons (combo_of v) (combo_of w) (map combo_of ys) free in
    (
      is_taken-append (combo_of w) ys v d.0 (is_taken_sym (combo_of v) (combo_of w) first),
      IsDistinct-append ys v d.1 rest,
    )

is_taken-filter :
    (x : Items) (p : ProductVariant → Bool) (ys : List ProductVariant)
    → is_taken x (map combo_of ys) ≡ false
    → is_taken x (map combo_of (filter p ys)) ≡ false
is_taken-filter x p [] h = h
is_taken-filter x p (w ∷ ys) h =
    let (first, rest) = is_taken-cons x (combo_of w) (map combo_of ys) h in
    let ih = is_taken-filter x p ys rest in
    elim (Bool-cases (p w)) [
      | inl kept ↦ rw kept (is_taken_join x (combo_of w) (map combo_of (filter p ys)) first ih)
      | inr dropped ↦ rw dropped ih
    ]

-- Variants that are left out.
pub IsDistinct-filter :
    (p : ProductVariant → Bool) (ys : List ProductVariant)
    → IsDistinct ys
    → IsDistinct (filter p ys)
IsDistinct-filter p [] d = tt
IsDistinct-filter p (w ∷ ys) d = elim (Bool-cases (p w)) [
  | inl kept ↦ rw kept (is_taken-filter (combo_of w) p ys d.0, IsDistinct-filter p ys d.1)
  | inr dropped ↦ rw dropped (IsDistinct-filter p ys d.1)
]

-- The rows but the one with identifier `k`.
abbrev pub others : ℕ → List ProductVariant → List ProductVariant
others k = filter (λ (v : ProductVariant). not (v.id == k))

others_absent : (k : ℕ) (ys : List ProductVariant) → find_by_id none k ys ≡ none → others k ys ≡ ys
others_absent k [] h = refl
others_absent k (w ∷ ys) h = ground (arith, others_absent k ys)

is_taken-update :
    (x : Items) (k : ℕ) (f : ProductVariant → ProductVariant) (combo : Items)
    (ys : List ProductVariant)
    → ((v : ProductVariant) → combo_of (f v) ≡ combo)
    → is_taken x (combo ∷ []) ≡ false
    → is_taken x (map combo_of ys) ≡ false
    → is_taken x (map combo_of (update_by_id k f ys)) ≡ false
is_taken-update x k f combo [] sets free h = h
is_taken-update x k f combo (w ∷ ys) sets free h =
    let (first, rest) = is_taken-cons x (combo_of w) (map combo_of ys) h in
    let ih = is_taken-update x k f combo ys sets free rest in
    elim (Bool-cases (w.id == k)) [
      | inl here ↦ rw here (
          is_taken_join x (combo_of (f w)) (map combo_of (update_by_id k f ys))
            (subst (λ z. is_taken x (z ∷ []) ≡ false) (sym (sets w)) free) ih)
      | inr away ↦
          rw away (is_taken_join x (combo_of w) (map combo_of (update_by_id k f ys)) first ih)
    ]

-- A new combination for variant `k` that no other one has.
pub IsDistinct-update :
    (k : ℕ) (f : ProductVariant → ProductVariant) (combo : Items) (ys : List ProductVariant)
    → ((v : ProductVariant) → combo_of (f v) ≡ combo)
    → IsKeyed ys
    → is_taken combo (map combo_of (others k ys)) ≡ false
    → IsDistinct ys
    → IsDistinct (update_by_id k f ys)
IsDistinct-update k f combo [] sets keyed free d = tt
IsDistinct-update k f combo (w ∷ ys) sets keyed free d = elim (Bool-cases (w.id == k)) [
  | inl here ↦
      let alone : find_by_id none k ys ≡ none = ground (arith, keyed.0) in
      let same = update_by_id-absent k f ys alone in
      let free' = rw here at free in
      let free'' =
        subst (λ z. is_taken combo (map combo_of z) ≡ false) (others_absent k ys alone) free' in
      rw here (
        subst (λ z. (is_taken (combo_of (f w)) (map combo_of z) ≡ false) × IsDistinct z) (sym same)
          (subst (λ c. is_taken c (map combo_of ys) ≡ false) (sym (sets w)) free'', d.1))
  | inr away ↦
      let free' = rw away at free in
      let (first, rest) = is_taken-cons combo (combo_of w) (map combo_of (others k ys)) free' in
      rw away (
        is_taken-update (combo_of w) k f combo ys sets (is_taken_sym combo (combo_of w) first) d.0,
        IsDistinct-update k f combo ys sets keyed.1 rest d.1,
      )
]

map-combo_of-update :
    (k : ℕ) (f : ProductVariant → ProductVariant) (ys : List ProductVariant)
    → ((v : ProductVariant) → combo_of (f v) ≡ combo_of v)
    → map combo_of (update_by_id k f ys) ≡ map combo_of ys
map-combo_of-update k f [] keeps = refl
map-combo_of-update k f (w ∷ ys) keeps = ground (arith, keeps w, map-combo_of-update k f ys keeps)

-- An update that leaves every combination alone.
pub IsDistinct-update_same :
    (k : ℕ) (f : ProductVariant → ProductVariant) (ys : List ProductVariant)
    → ((v : ProductVariant) → combo_of (f v) ≡ combo_of v)
    → IsDistinct ys
    → IsDistinct (update_by_id k f ys)
IsDistinct-update_same k f [] keeps d = tt
IsDistinct-update_same k f (w ∷ ys) keeps d =
    let combos = map-combo_of-update k f ys keeps in
    let tail = IsDistinct-update_same k f ys keeps d.1 in
    elim (Bool-cases (w.id == k)) [
      | inl here ↦ rw here (rw combos (rw (keeps w) d.0), tail)
      | inr away ↦ rw away (rw combos d.0, tail)
    ]
