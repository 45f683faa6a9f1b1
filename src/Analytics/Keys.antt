-- ===== src/Analytics/Keys.antt =====
-- Which keys of Redis are the same (metrics/redis_keys.py): a tenant's identifier without a colon can
-- be told from a product's.
use aurapro.Prelude.{
  ◌≡◌, refl, ◌∙◌, ap, sym, String, false, ◌&&◌, arith, str_eq, eq_iff, inl, inr, Bool-cases,
}
use aurapro.Prelude.Joining.{
  join, IsColonFree, join_injective, colon_injective, branches_apart, join-colon,
}
use aurapro.Analytics.{velocity_hash_key, daily_hash_key, dedup_key}

str_eq-false : (a b : String) → (a ≡ b → ⊥) → str_eq a b ≡ false
str_eq-false a b apart = elim (Bool-cases (str_eq a b)) [
  | inr other ↦ other
  | inl same ↦ absurd (apart ((eq_iff a b).0 same))
]

-- Which keys are the same.
pub velocity-velocity :
    (t p u q : String)
    → IsColonFree t
    → IsColonFree u
    → str_eq (velocity_hash_key t p) (velocity_hash_key u q) ≡ (str_eq t u && str_eq p q)
unfolding velocity_hash_key
velocity-velocity t p u q ft fu =
    elim (Bool-cases (str_eq (velocity_hash_key t p) (velocity_hash_key u q))) [
      | inl same ↦
          let tails =
            join_injective "sales:velocity:" (join t (join ":" p)) (join u (join ":" q))
              ((eq_iff (velocity_hash_key t p) (velocity_hash_key u q)).0 same) in
          let (tenant, product) =
            colon_injective t u p q ft fu
              (ap (join t) (sym (join-colon p)) ∙ tails ∙ ap (join u) (join-colon q)) in
          same ∙ ground (arith, tenant, product, eq_iff t u, eq_iff p q)
      | inr differ ↦ elim (Bool-cases (str_eq t u && str_eq p q)) [
        | inr apart ↦ differ ∙ sym apart
        | inl both ↦
            let tenant : t ≡ u = ground (arith, both, eq_iff t u) in
            let product : p ≡ q = ground (arith, both, eq_iff p q) in
            let whole : velocity_hash_key t p ≡ velocity_hash_key u q =
              ap (λ z. velocity_hash_key z p) tenant ∙ ap (velocity_hash_key u) product in
            absurd (
              ground
                (arith, differ, (eq_iff (velocity_hash_key t p) (velocity_hash_key u q)).1 whole))
      ]
    ]

pub velocity-daily :
    (t p u q : String) → str_eq (velocity_hash_key t p) (daily_hash_key u q) ≡ false
unfolding velocity_hash_key daily_hash_key
velocity-daily t p u q = str_eq-false (velocity_hash_key t p) (daily_hash_key u q) (
    branches_apart "sales:velocity:" "sales:daily:" (join t (join ":" p)) (join u (join ":" q))
      refl)

pub dedup-velocity : (k u q : String) → str_eq (dedup_key k) (velocity_hash_key u q) ≡ false
unfolding dedup_key velocity_hash_key
dedup-velocity k u q =
    str_eq-false (dedup_key k) (velocity_hash_key u q)
      (branches_apart "sales:processed:" "sales:velocity:" k (join u (join ":" q)) refl)

pub dedup-daily : (k u q : String) → str_eq (dedup_key k) (daily_hash_key u q) ≡ false
unfolding dedup_key daily_hash_key
dedup-daily k u q =
    str_eq-false (dedup_key k) (daily_hash_key u q)
      (branches_apart "sales:processed:" "sales:daily:" k (join u (join ":" q)) refl)

pub dedup-dedup : (k e : String) → str_eq (dedup_key k) (dedup_key e) ≡ str_eq k e
unfolding dedup_key
dedup-dedup k e = elim (Bool-cases (str_eq (dedup_key k) (dedup_key e))) [
  | inl same ↦
      let ids =
        join_injective "sales:processed:" k e ((eq_iff (dedup_key k) (dedup_key e)).0 same) in
      same ∙ sym ((eq_iff k e).1 ids)
  | inr differ ↦
      differ
      ∙ sym (
          str_eq-false k e (λ ids.
            ground (arith, differ, (eq_iff (dedup_key k) (dedup_key e)).1 (ap dedup_key ids))))
]
