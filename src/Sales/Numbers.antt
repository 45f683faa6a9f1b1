-- ===== src/Sales/Numbers.antt =====
-- The numbers of a tenant's sales: `Tenant.next_sale_number` and `Sale.sale_number`.
use aurapro.Prelude.{
  ℕ, ◌+◌, ◌≡◌, ◌≤◌, refl, ◌∙◌, ap, sym, subst, true, false, not, ◌&&◌, some, List, [], ◌∷◌, ◌++◌,
  arith, ◌==◌, ==_self, ==_iff, filter, filter-append, all, if◌then◌else◌, append-nil, Bool-cases,
  inl, inr,
}
use aurapro.Models.{Database}
use aurapro.Models.Identity.{Tenant}
use aurapro.Models.Documents.{Sale}
use aurapro.Session.{Session, ok}
use aurapro.Sales.{create_sale}
use aurapro.Sales.Schemas.{SaleCreate}
use aurapro.Sales.Effects.{tenant_of, advance}
use aurapro.Sales.Trail.{Trail, create_sale-Trail, Tables, Trail-Tables}

-- The sales of one tenant, in the order in which they were made.
abbrev pub own_sales : ℕ → List Sale → List Sale
own_sales t sales = filter (λ (r : Sale). r.tenant_id == t) sales

-- The sales are numbered from `n` on, one by one, and the next one is to be `m`.
abbrev pub Consecutive : ℕ → List Sale → ℕ → Type 0
Consecutive n [] m = n ≡ m
Consecutive n (r ∷ rest) m = (r.sale_number ≡ n) × Consecutive (n + 1) rest m

-- The tenant's sales are numbered 1, 2, 3, … without a gap or a repetition, and its counter holds
-- the number that comes next.
abbrev pub IsGapless : ℕ → Database → Type 0
IsGapless t d =
    (tenant : Tenant) × (tenant_of t d.tenants ≡ some tenant)
    × Consecutive 1 (own_sales t d.sales) tenant.next_sale_number

Consecutive-append :
    (n : ℕ) (rows : List Sale) (m : ℕ) (r : Sale)
    → Consecutive n rows m
    → r.sale_number ≡ m
    → Consecutive n (rows ++ r ∷ []) (m + 1)
Consecutive-append n [] m r h e = (e ∙ sym h, ap (λ k. k + 1) h)
Consecutive-append n (x ∷ rows) m r h e = (h.0, Consecutive-append (n + 1) rows m r h.1 e)

tenant_of-advance :
    (u t n : ℕ) (tenants : List Tenant) (tenant : Tenant)
    → tenant_of u tenants ≡ some tenant
    → tenant_of u (advance t n tenants)
      ≡ some (if u == t then record tenant { next_sale_number = n } else tenant)
tenant_of-advance u t n [] tenant h = cc
tenant_of-advance u t n (x ∷ rest) tenant h = ground (arith, tenant_of-advance u t n rest tenant)

-- A number that the counter has reached is taken by no earlier sale, so that the table's unique
-- constraint never refuses a sale.
Consecutive-fresh :
    (t n : ℕ) (sales : List Sale) (m k : ℕ)
    → Consecutive n (own_sales t sales) m
    → m ≤ k
    → (n ≤ m) × (all (λ (r : Sale). not (r.tenant_id == t && r.sale_number == k)) sales ≡ true)
Consecutive-fresh t n [] m k h le = (omega arith, refl)
Consecutive-fresh t n (x ∷ sales) m k h le = elim (Bool-cases (x.tenant_id == t)) [
  | inl own ↦
      let h' = rw own at h in
      let ih = Consecutive-fresh t (n + 1) sales m k h'.1 le in
      let number = h'.0 in let first = ih.0 in (omega (arith, first), ground (arith, ih.1, first))
  | inr other ↦
      let h' = rw other at h in
      let ih = Consecutive-fresh t n sales m k h' le in (ih.0, ground (arith, ih.1))
]

-- In a database whose tenant is numbered without gaps, the number that the counter holds meets the
-- unique constraint on the tenant and the number.
pub next_sale_number-unused :
    (t : ℕ) (d : Database) (gapless : IsGapless t d)
    → all
        (λ (r : Sale). not (r.tenant_id == t && r.sale_number == gapless.0.next_sale_number))
        d.sales
      ≡ true
next_sale_number-unused t d (tenant, found, consecutive) =
    (Consecutive-fresh t 1 d.sales tenant.next_sale_number tenant.next_sale_number consecutive
      (omega arith)).1

module _ (t : ℕ) (payload : SaleCreate) (s : Session) (sale : Sale) (s' : Session)
    (created : create_sale t payload s ≡ (ok sale, s')) where
  trail : Trail t payload s sale s'
  trail = create_sale-Trail t payload s sale s' created

  tables : Tables t payload s sale s' trail
  tables = Trail-Tables t payload s sale s' trail

  owner : sale.tenant_id ≡ t
  owner = ap (λ (r : Sale). r.tenant_id) trail.inserted.row

  number : sale.sale_number ≡ trail.steps.sale_number
  number = ap (λ (r : Sale). r.sale_number) trail.inserted.row

  -- The counter that the sale read is the tenant's own before the sale.
  counter :
      (tenant : Tenant)
      → tenant_of t s.pending.tenants ≡ some tenant
      → trail.steps.sale_number ≡ tenant.next_sale_number
  counter tenant found =
      let same = trail.lines.takes.same in
      let got = trail.numbered.found in
      let n = trail.numbered.number in
      let here = ap (λ (z : Session). tenant_of t z.pending.tenants) same in
      ground (arith, got, n, here)

  own_sales-after :
      (u : ℕ)
      → own_sales u s'.pending.sales
        ≡ own_sales u s.pending.sales ++ (if t == u then sale ∷ [] else [])
  own_sales-after u =
      ap (own_sales u) tables.sales
      ∙ filter-append (λ (r : Sale). r.tenant_id == u) s.pending.sales (sale ∷ [])
      ∙ ap (λ k. own_sales u s.pending.sales ++ (if k == u then sale ∷ [] else [])) owner

  numbered_after :
      (u : ℕ) (tenant : Tenant)
      → tenant_of u s.pending.tenants ≡ some tenant
      → tenant_of u s'.pending.tenants
        ≡ some (
            if u == t
            then record tenant { next_sale_number = trail.steps.sale_number + 1 }
            else tenant)
  numbered_after u tenant found =
      ap (tenant_of u) tables.tenants
      ∙ tenant_of-advance u t (trail.steps.sale_number + 1) s.pending.tenants tenant found

  IsGapless-seller : IsGapless t s.pending → IsGapless t s'.pending
  IsGapless-seller (tenant, found, consecutive) = (
    record tenant { next_sale_number = trail.steps.sale_number + 1 },
    rw (==_self t) at (numbered_after t tenant found),
    rw (own_sales-after t) (
        rw (==_self t) (
          rw (counter tenant found) (
            Consecutive-append 1 (own_sales t s.pending.sales) tenant.next_sale_number sale
              consecutive (number ∙ counter tenant found)))),
  )

  IsGapless-other : (u : ℕ) → (u == t) ≡ false → IsGapless u s.pending → IsGapless u s'.pending
  IsGapless-other u other (tenant, found, consecutive) =
      let other' : (t == u) ≡ false = ground arith in
      (
        tenant,
        rw other at (numbered_after u tenant found),
        rw (own_sales-after u) (rw other' (rw append-nil consecutive)),
      )

  -- Every tenant's numbering stays without gaps: after a sale of tenant `t` that succeeds, each tenant
  -- that was numbered 1, 2, 3, … still is, the seller with one number more.
  pub create_sale-IsGapless : (u : ℕ) → IsGapless u s.pending → IsGapless u s'.committed
  create_sale-IsGapless u gapless =
      subst (IsGapless u) (sym tables.committed) (elim (Bool-cases (u == t)) [
        | inl own ↦
            let same = (==_iff u t).0 own in
            subst (λ v. IsGapless v s'.pending) (sym same)
              (IsGapless-seller (subst (λ v. IsGapless v s.pending) same gapless))
        | inr other ↦ IsGapless-other u other gapless
      ])
