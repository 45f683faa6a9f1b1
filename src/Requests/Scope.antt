-- ===== src/Requests/Scope.antt =====
-- What a tenant's request sees.
use aurapro.Prelude.{
  ℕ, ◌≡◌, refl, sym, ap, ◌∙◌, Bool, true, false, Option, none, some, List, [], ◌∷◌, arith, ◌==◌,
  filter, find, All, inl, inr, Bool-cases, subst,
}
use aurapro.Models.{Database}
use aurapro.Models.Row.{Row}
use aurapro.Models.Identity.{Tenant}
use aurapro.Session.{Session, opened, ok}
use aurapro.Query.{find_by_id, select_where, select_by_id}
use aurapro.Requests.{is_active, get_tenant_db}

granted :
    (t now : ℕ) (d : Database) (s : Session)
    → get_tenant_db (some t) false now d ≡ ok s
    → (is_active (find (λ (x : Tenant). x.id == t) d.tenants) ≡ true) × (opened t now d ≡ s)
unfolding get_tenant_db
granted t now d s h = elim (Bool-cases (is_active (find (λ (x : Tenant). x.id == t) d.tenants))) [
  | inr suspended ↦ absurd (ground arith)
  | inl active ↦ (active, ground arith)
]

module _ {A : Type 0} ⦃row : Row A⦄ where
  -- The rows of tenant `t`, in order.
  abbrev pub own_rows : ℕ → List A → List A
  own_rows t xs = filter (λ r. row.tenant_id r == t) xs

  All-filter :
      (t : ℕ) (p : A → Bool) (xs : List A)
      → All (λ r. row.tenant_id r ≡ t) xs
      → All (λ r. row.tenant_id r ≡ t) (filter p xs)
  All-filter t p [] h = tt
  All-filter t p (x ∷ xs) h = elim (Bool-cases (p x)) [
    | inl kept ↦ rw kept (h.0, All-filter t p xs h.1)
    | inr dropped ↦ rw dropped (All-filter t p xs h.1)
  ]

  All-own_rows : (t : ℕ) (xs : List A) → All (λ r. row.tenant_id r ≡ t) (own_rows t xs)
  All-own_rows t [] = tt
  All-own_rows t (x ∷ xs) = elim (Bool-cases (row.tenant_id x == t)) [
    | inl own ↦ rw own (ground arith, All-own_rows t xs)
    | inr other ↦ rw other (All-own_rows t xs)
  ]

  -- A query by primary key sees the tenant's rows and no other.
  find_by_id-own_rows :
      (t k : ℕ) (xs : List A) → find_by_id (some t) k xs ≡ find (λ r. row.id r == k) (own_rows t xs)
  find_by_id-own_rows t k [] = refl
  find_by_id-own_rows t k (x ∷ xs) = ground (arith, find_by_id-own_rows t k xs)

  -- Two sessions answer a query by a condition and a query by primary key alike.
  abbrev pub AnswersAlike : (Database → List A) → (A → Bool) → ℕ → ℕ → Session → Session → Type 0
  AnswersAlike table p k t s s' =
      ((rows : List A) × All (λ r. row.tenant_id r ≡ t) rows
        × (select_where table p s ≡ (ok rows, s))
        × (select_where table p s' ≡ (ok rows, s')))
      × ((found : Option A) × (select_by_id table k s ≡ (ok found, s))
          × (select_by_id table k s' ≡ (ok found, s')))

  opened-AnswersAlike :
      (table : Database → List A) (p : A → Bool) (k t now now' : ℕ) (d d' : Database)
      → own_rows t (table d) ≡ own_rows t (table d')
      → AnswersAlike table p k t (opened t now d) (opened t now' d')
  opened-AnswersAlike table p k t now now' d d' same =
      let found = find (λ r. row.id r == k) (own_rows t (table d)) in
      (
        (
          filter p (own_rows t (table d)),
          All-filter t p (own_rows t (table d)) (All-own_rows t (table d)),
          refl,
          ap (λ xs. (ok (filter p xs), opened t now' d')) (sym same),
        ),
        (
          found,
          ap (λ o. (ok o, opened t now d)) (find_by_id-own_rows t k (table d)),
          ap (λ o. (ok o, opened t now' d'))
              (find_by_id-own_rows t k (table d') ∙ ap (find (λ r. row.id r == k)) (sym same)),
        ),
      )

  -- No tenant's queries depend on another's data. A request without the superadmin's flag that is
  -- given a session names a tenant, which is there and active. If two such requests of one tenant,
  -- at any times and to two databases whose rows of the tenant in a table are the same, are each
  -- given a session, then a query of the table by any condition has the same rows for an answer in
  -- both, all of them this tenant's, and so has a query by primary key, whatever the rows of other
  -- tenants are. This is about queries that are not marked `skip_tenant_filter`.
  pub get_tenant_db_isolates :
      (table : Database → List A) (p : A → Bool) (k : ℕ) (tenant_id : Option ℕ) (now now' : ℕ)
      (d d' : Database) (s s' : Session)
      → get_tenant_db tenant_id false now d ≡ ok s
      → get_tenant_db tenant_id false now' d' ≡ ok s'
      → ((t : ℕ) → tenant_id ≡ some t → own_rows t (table d) ≡ own_rows t (table d'))
      → (t : ℕ) × (tenant_id ≡ some t)
        × (is_active (find (λ (x : Tenant). x.id == t) d.tenants) ≡ true)
        × AnswersAlike table p k t s s'
  unfolding get_tenant_db
  get_tenant_db_isolates table p k none now now' d d' s s' h h' same = absurd (ground arith)
  get_tenant_db_isolates table p k (some t) now now' d d' s s' h h' same =
      let (active, here) = granted t now d s h in
      let (active', there) = granted t now' d' s' h' in
      let alike = opened-AnswersAlike table p k t now now' d d' (same t refl) in
      (
        t,
        refl,
        active,
        subst (λ z. AnswersAlike table p k t s z) there
            (subst (λ z. AnswersAlike table p k t z (opened t now' d')) here alike),
      )
