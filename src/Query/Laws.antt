-- ===== src/Query/Laws.antt =====
-- Primary keys, and what a write by primary key does to later queries and to other tenants' rows.
use aurapro.Prelude.{
  if◌then◌else◌, ℕ, ◌≡◌, ◌≤◌, ◌<◌, refl, ap, Bool, true, false, not, Option, none, some, List, [],
  ◌∷◌, ◌++◌, ◌==◌, ◌≢◌, Rowwise, filter, All, arith, Bool-cases, inl, inr, is_some,
}
use mathlib.Core.Option
use aurapro.Models.Row.{Row}
use aurapro.Query.{visible, in_scope, find_by_id, update_by_id, delete_by_id}

module _ {A : Type 0} ⦃row : Row A⦄ where
  -- No two rows share their primary key.
  abbrev pub IsKeyed : List A → Type 0
  IsKeyed [] = Unit
  IsKeyed (r ∷ rs) = (find_by_id none (row.id r) rs ≡ none) × IsKeyed rs

  -- The rows of the other tenants, in order.
  abbrev pub of_others : ℕ → List A → List A
  of_others t xs = filter (λ r. not (row.tenant_id r == t)) xs

  -- A write that leaves the primary key and the owner alone.
  abbrev pub KeepsKey : (A → A) → Type 0
  KeepsKey f = (r : A) → (row.id (f r) ≡ row.id r) × (row.tenant_id (f r) ≡ row.tenant_id r)

  pub find_by_id-none_of_none :
      (scope : Option ℕ) (k : ℕ) (xs : List A)
      → find_by_id none k xs ≡ none
      → find_by_id scope k xs ≡ none
  find_by_id-none_of_none scope k [] h = refl
  find_by_id-none_of_none none k (x ∷ xs) h = h
  find_by_id-none_of_none (some t) k (x ∷ xs) h =
      ground (arith, find_by_id-none_of_none (some t) k xs)

  -- A session without a tenant sees every row.
  pub in_scope-none : (xs : List A) → in_scope none xs ≡ xs
  in_scope-none [] = refl
  in_scope-none (x ∷ xs) = ap (λ ys. x ∷ ys) (in_scope-none xs)

  -- What a query by primary key finds has that key, and is in the session's scope.
  pub find_by_id_sound :
      (scope : Option ℕ) (k : ℕ) (xs : List A) (r : A)
      → find_by_id scope k xs ≡ some r
      → (row.id r ≡ k) × (visible scope (row.tenant_id r) ≡ true)
  find_by_id_sound scope k [] r h = cc
  find_by_id_sound none k (x ∷ xs) r h = ground (arith, find_by_id_sound none k xs r)
  find_by_id_sound (some t) k (x ∷ xs) r h = ground (arith, find_by_id_sound (some t) k xs r)

  -- A query after a write: the row that was written, if it is the one asked for.
  pub find_by_id-update :
      (scope : Option ℕ) (j k : ℕ) (f : A → A) (xs : List A)
      → KeepsKey f
      → find_by_id scope j (update_by_id k f xs)
        ≡ (if k == j then Option.map f (find_by_id scope j xs) else find_by_id scope j xs)
  find_by_id-update scope j k f [] keep = ground arith
  find_by_id-update none j k f (x ∷ xs) keep =
      ground (arith, keep x, find_by_id-update none j k f xs keep)
  find_by_id-update (some t) j k f (x ∷ xs) keep =
      ground (arith, keep x, find_by_id-update (some t) j k f xs keep)

  -- Of two versions of a row: only one with the key `k` changes, and it does as `R` says.
  abbrev pub ChangesOnly : ℕ → (A → A → Type 0) → A → A → Type 0
  ChangesOnly k R old new = (row.id old ≢ k → new ≡ old) × (row.id old ≡ k → R old new)

  pub update_by_id-Rowwise :
      (k : ℕ) (f : A → A) (R : A → A → Type 0) (xs : List A)
      → ((r : A) → R r (f r))
      → Rowwise (ChangesOnly k R) xs (update_by_id k f xs)
  update_by_id-Rowwise k f R [] h = tt
  update_by_id-Rowwise k f R (x ∷ xs) h =
      let tail = update_by_id-Rowwise k f R xs h in
      elim (Bool-cases (row.id x == k)) [
        | inl this ↦ rw this ((λ other. absurd (ground (arith, other)), λ key. h x), tail)
        | inr other ↦ rw other ((λ n. refl, λ key. absurd (ground arith)), tail)
      ]

  pub update_by_id-absent :
      (k : ℕ) (f : A → A) (xs : List A) → find_by_id none k xs ≡ none → update_by_id k f xs ≡ xs
  update_by_id-absent k f [] h = refl
  update_by_id-absent k f (x ∷ xs) h = ground (arith, update_by_id-absent k f xs)

  -- A tenant's session that loads a row and writes it back changes no other tenant's rows.
  pub of_others-update :
      (t k : ℕ) (f : A → A) (xs : List A) (r : A)
      → IsKeyed xs
      → KeepsKey f
      → find_by_id (some t) k xs ≡ some r
      → of_others t (update_by_id k f xs) ≡ of_others t xs
  of_others-update t k f [] r keyed keep h = refl
  of_others-update t k f (x ∷ xs) r keyed keep h = ground (
    arith,
    keep x,
    update_by_id-absent k f xs,
    find_by_id-none_of_none (some t) k xs,
    of_others-update t k f xs r keyed.1 keep,
  )

  find_by_id-update_absent :
      (j k : ℕ) (f : A → A) (xs : List A)
      → KeepsKey f
      → find_by_id none j xs ≡ none
      → find_by_id none j (update_by_id k f xs) ≡ none
  find_by_id-update_absent j k f [] keep h = refl
  find_by_id-update_absent j k f (x ∷ xs) keep h =
      ground (arith, keep x, find_by_id-update_absent j k f xs keep)

  pub IsKeyed-update :
      (k : ℕ) (f : A → A) (xs : List A) → KeepsKey f → IsKeyed xs → IsKeyed (update_by_id k f xs)
  IsKeyed-update k f [] keep h = tt
  IsKeyed-update k f (x ∷ xs) keep h = ground (
    arith,
    keep x,
    find_by_id-update_absent (row.id x) k f xs keep,
    IsKeyed-update k f xs keep h.1,
  )

  -- A new row of the tenant's own.
  pub of_others-append :
      (t : ℕ) (xs : List A) (r : A)
      → row.tenant_id r ≡ t
      → of_others t (xs ++ r ∷ []) ≡ of_others t xs
  of_others-append t [] r h = ground arith
  of_others-append t (x ∷ xs) r h = ground (arith, of_others-append t xs r h)

  find_by_id-append_none :
      (k : ℕ) (xs : List A) (r : A)
      → find_by_id none k xs ≡ none
      → (row.id r == k) ≡ false
      → find_by_id none k (xs ++ r ∷ []) ≡ none
  find_by_id-append_none k [] r h e = ground arith
  find_by_id-append_none k (x ∷ xs) r h e = ground (arith, find_by_id-append_none k xs r)

  -- A new row with a new key.
  pub IsKeyed-append :
      (xs : List A) (r : A)
      → IsKeyed xs
      → find_by_id none (row.id r) xs ≡ none
      → IsKeyed (xs ++ r ∷ [])
  IsKeyed-append [] r keyed fresh = (refl, tt)
  IsKeyed-append (x ∷ xs) r keyed fresh = (
    find_by_id-append_none (row.id x) xs r keyed.0 (ground arith),
    IsKeyed-append xs r keyed.1 (ground arith),
  )

  pub find_by_id-filter-none :
      (k : ℕ) (p : A → Bool) (xs : List A)
      → find_by_id none k xs ≡ none
      → find_by_id none k (filter p xs) ≡ none
  find_by_id-filter-none k p [] h = refl
  find_by_id-filter-none k p (x ∷ xs) h = ground (arith, find_by_id-filter-none k p xs)

  -- Rows that are left out.
  pub IsKeyed-filter : (p : A → Bool) (xs : List A) → IsKeyed xs → IsKeyed (filter p xs)
  IsKeyed-filter p [] keyed = tt
  IsKeyed-filter p (x ∷ xs) keyed = elim (Bool-cases (p x)) [
    | inl kept ↦
        rw kept (find_by_id-filter-none (row.id x) p xs keyed.0, IsKeyed-filter p xs keyed.1)
    | inr dropped ↦ rw dropped (IsKeyed-filter p xs keyed.1)
  ]

  -- Every identifier lies below the supply's next one.
  abbrev pub AreBelow : ℕ → List A → Type 0
  AreBelow n xs = All (λ r. row.id r < n) xs

  pub find_by_id-AreBelow :
      (n k : ℕ) (xs : List A) → AreBelow n xs → n ≤ k → find_by_id none k xs ≡ none
  find_by_id-AreBelow n k [] below le = refl
  find_by_id-AreBelow n k (x ∷ xs) below le =
      let first = below.0 in ground (arith, first, find_by_id-AreBelow n k xs below.1)

  pub AreBelow-weaken : (n m : ℕ) (xs : List A) → n ≤ m → AreBelow n xs → AreBelow m xs
  AreBelow-weaken n m [] le below = tt
  AreBelow-weaken n m (x ∷ xs) le below =
      let first = below.0 in (omega (arith, first), AreBelow-weaken n m xs le below.1)

  pub AreBelow-filter :
      (n : ℕ) (p : A → Bool) (xs : List A) → AreBelow n xs → AreBelow n (filter p xs)
  AreBelow-filter n p [] below = tt
  AreBelow-filter n p (x ∷ xs) below = elim (Bool-cases (p x)) [
    | inl kept ↦ rw kept (below.0, AreBelow-filter n p xs below.1)
    | inr dropped ↦ rw dropped (AreBelow-filter n p xs below.1)
  ]

  pub AreBelow-update :
      (n k : ℕ) (f : A → A) (xs : List A)
      → KeepsKey f
      → AreBelow n xs
      → AreBelow n (update_by_id k f xs)
  AreBelow-update n k f [] keep below = tt
  AreBelow-update n k f (x ∷ xs) keep below =
      let first = below.0 in
      let kept = (keep x).0 in (ground (arith, first, kept), AreBelow-update n k f xs keep below.1)

  -- A row that is found is found still, beside a new one and when another one goes.
  pub found_append :
      (scope : Option ℕ) (k : ℕ) (xs : List A) (r : A)
      → is_some (find_by_id scope k xs) ≡ true
      → is_some (find_by_id scope k (xs ++ r ∷ [])) ≡ true
  found_append scope k [] r h = cc
  found_append none k (x ∷ xs) r h = ground (arith, found_append none k xs r)
  found_append (some t) k (x ∷ xs) r h = ground (arith, found_append (some t) k xs r)

  pub found_delete :
      (scope : Option ℕ) (j k : ℕ) (xs : List A)
      → is_some (find_by_id scope j xs) ≡ true
      → (j == k) ≡ false
      → is_some (find_by_id scope j (delete_by_id k xs)) ≡ true
  found_delete scope j k [] h other = h
  found_delete none j k (x ∷ xs) h other = ground (arith, found_delete none j k xs)
  found_delete (some t) j k (x ∷ xs) h other = ground (arith, found_delete (some t) j k xs)

  -- A row that is found stays the one that is found.
  pub find_by_id-append :
      (scope : Option ℕ) (k : ℕ) (xs : List A) (r a : A)
      → find_by_id scope k xs ≡ some a
      → find_by_id scope k (xs ++ r ∷ []) ≡ some a
  find_by_id-append scope k [] r a h = cc
  find_by_id-append none k (x ∷ xs) r a h = ground (arith, find_by_id-append none k xs r a)
  find_by_id-append (some t) k (x ∷ xs) r a h = ground (arith, find_by_id-append (some t) k xs r a)
