-- ===== src/Analytics/Effects.antt =====
-- What a message does to what is observed of the store.
use aurapro.Prelude.{
  ℕ, ◌+◌, ◌≡◌, refl, ◌∙◌, ap, Bool, true, false, not, ◌&&◌, ◌||◌, Option, none, some, List, [], ◌∷◌,
  arith, ◌==◌, if◌then◌else◌, sum_by, String, str_eq, eq_iff,
}
use aurapro.Prelude.Joining.{IsColonFree}
use aurapro.Analytics.Keys.{
  velocity-velocity, velocity-daily, dedup-velocity, dedup-daily, dedup-dedup,
}
use aurapro.Analytics.{
  ProductDetail, SalesEvent, velocity_hash_key, daily_hash_key, dedup_key, or_zero, Redis, IsLawful,
  minute_bucket, dedup_ttl_seconds, daily_retention_seconds, velocity_ttl_seconds, day_field,
  record_sale, record_items, process,
}

-- What an event adds to a minute of a tenant's product.
abbrev pub item_units : String → ProductDetail → ℕ
item_units p i = if str_eq p i.product_id then i.quantity else 0

abbrev pub event_units : String → String → ℕ → SalesEvent → ℕ
event_units t p b e =
    if str_eq t e.tenant_id && b == minute_bucket e.timestamp
    then sum_by (item_units p) e.product_details
    else 0

abbrev pub is_seen : String → List String → Bool
is_seen k [] = false
is_seen k (j ∷ seen) = str_eq k j || is_seen k seen

added :
    (o : Option ℕ) (x y z : Bool) (n : ℕ)
    → or_zero (if (x && y) && z then some (or_zero o + n) else o)
      ≡ or_zero o + (if x && z then (if y then n else 0) else 0)
added none x y z n = ground arith
added (some m) x y z n = ground arith

module _ {S : Type 0} (redis : Redis S) (lawful : IsLawful redis) where
  -- What a minute of a tenant's product holds.
  abbrev pub units : String → String → ℕ → S → ℕ
  units t p b s = or_zero (lawful.hget (velocity_hash_key t p) b s)

  -- The keys of the processed events.
  abbrev pub Marks : List String → S → Type 0
  Marks seen s = (k : String) → lawful.has (dedup_key k) s ≡ is_seen k seen

  record_sale-units :
      (t p u q : String) (b n ts : ℕ) (s : S)
      → IsColonFree t
      → IsColonFree u
      → units t p b (record_sale redis u q n ts s)
        ≡ units t p b s
          + (if str_eq t u && b == minute_bucket ts then (if str_eq p q then n else 0) else 0)
  unfolding record_sale
  record_sale-units t p u q b n ts s ft fu =
      let key = velocity_hash_key u q in
      let daily = daily_hash_key u q in
      let mine = velocity_hash_key t p in
      let s1 = redis.hincrby key (minute_bucket ts) n s in
      let s2 = redis.expire key velocity_ttl_seconds s1 in
      let s3 = redis.hincrby daily (day_field ts) n s2 in
      let last = lawful.hget-expire mine daily b daily_retention_seconds s3 in
      let third =
        lawful.hget-hincrby mine daily b (day_field ts) n s2
        ∙ ap
            (λ w.
              if w && b == day_field ts
              then some (or_zero (lawful.hget mine b s2) + n)
              else lawful.hget mine b s2)
            (velocity-daily t p u q) in
      let second = lawful.hget-expire mine key b velocity_ttl_seconds s1 in
      let first =
        lawful.hget-hincrby mine key b (minute_bucket ts) n s
        ∙ ap
            (λ w.
              if w && b == minute_bucket ts
              then some (or_zero (lawful.hget mine b s) + n)
              else lawful.hget mine b s)
            (velocity-velocity t p u q ft fu) in
      ap or_zero (last ∙ third ∙ second ∙ first)
      ∙ added (lawful.hget mine b s) (str_eq t u) (str_eq p q) (b == minute_bucket ts) n

  record_items-units :
      (t p u : String) (b ts : ℕ) (items : List ProductDetail) (s : S)
      → IsColonFree t
      → IsColonFree u
      → units t p b (record_items redis u ts items s)
        ≡ units t p b s
          + (if str_eq t u && b == minute_bucket ts then sum_by (item_units p) items else 0)
  unfolding record_items
  record_items-units t p u b ts [] s ft fu = ground arith
  record_items-units t p u b ts (item ∷ rest) s ft fu =
      let ih =
        record_items-units t p u b ts rest (record_sale redis u item.product_id item.quantity ts s)
          ft fu in
      let here = record_sale-units t p u item.product_id b item.quantity ts s ft fu in
      ih ∙ ground (arith, here)

  record_sale-has :
      (k u q : String) (n ts : ℕ) (s : S)
      → lawful.has (dedup_key k) (record_sale redis u q n ts s) ≡ lawful.has (dedup_key k) s
  unfolding record_sale
  record_sale-has k u q n ts s =
      let key = velocity_hash_key u q in
      let daily = daily_hash_key u q in
      let mine = dedup_key k in
      let s1 = redis.hincrby key (minute_bucket ts) n s in
      let s2 = redis.expire key velocity_ttl_seconds s1 in
      let s3 = redis.hincrby daily (day_field ts) n s2 in
      lawful.has-expire mine daily daily_retention_seconds s3
      ∙ lawful.has-hincrby mine daily (day_field ts) n s2
      ∙ ap (λ w. w || lawful.has mine s2) (dedup-daily k u q)
      ∙ lawful.has-expire mine key velocity_ttl_seconds s1
      ∙ lawful.has-hincrby mine key (minute_bucket ts) n s
      ∙ ap (λ w. w || lawful.has mine s) (dedup-velocity k u q)

  record_items-has :
      (k u : String) (ts : ℕ) (items : List ProductDetail) (s : S)
      → lawful.has (dedup_key k) (record_items redis u ts items s) ≡ lawful.has (dedup_key k) s
  unfolding record_items
  record_items-has k u ts [] s = refl
  record_items-has k u ts (item ∷ rest) s =
      record_items-has k u ts rest (record_sale redis u item.product_id item.quantity ts s)
      ∙ record_sale-has k u item.product_id item.quantity ts s

  -- A message of an event that was seen changes nothing that is observed, and another one counts.
  pub process-seen :
      (seen : List String) (e : SalesEvent) (s : S)
      → Marks seen s
      → is_seen e.event_id seen ≡ true
      → Marks seen (process redis e s)
        × ((t p : String) (b : ℕ) → units t p b (process redis e s) ≡ units t p b s)
  unfolding process
  process-seen seen e s marks old =
      let mark = dedup_key e.event_id in
      let answer : (redis.set_nx mark dedup_ttl_seconds s).0 ≡ false =
        lawful.set_nx-new mark dedup_ttl_seconds s ∙ ap not (marks e.event_id ∙ old) in
      let still : (k : String)
          → lawful.has (dedup_key k) s ≡ is_seen k seen
          → (str_eq k e.event_id || lawful.has (dedup_key k) s) ≡ is_seen k seen =
        λ k here. ground (arith, here, old, eq_iff k e.event_id) in
      rw answer (
        (λ k.
            lawful.has-set_nx (dedup_key k) mark dedup_ttl_seconds s
            ∙ ap (λ w. w || lawful.has (dedup_key k) s) (dedup-dedup k e.event_id)
            ∙ still k (marks k)),
        λ t p b. ap or_zero (lawful.hget-set_nx (velocity_hash_key t p) mark b dedup_ttl_seconds s),
      )

  pub process-new :
      (seen : List String) (e : SalesEvent) (s : S)
      → Marks seen s
      → is_seen e.event_id seen ≡ false
      → IsColonFree e.tenant_id
      → Marks (e.event_id ∷ seen) (process redis e s)
        × ((t p : String) (b : ℕ)
            → IsColonFree t
            → units t p b (process redis e s) ≡ units t p b s + event_units t p b e)
  unfolding process
  process-new seen e s marks new colon_free =
      let mark = dedup_key e.event_id in
      let s' = (redis.set_nx mark dedup_ttl_seconds s).1 in
      let answer : (redis.set_nx mark dedup_ttl_seconds s).0 ≡ true =
        lawful.set_nx-new mark dedup_ttl_seconds s ∙ ap not (marks e.event_id ∙ new) in
      rw answer (
        (λ k.
            record_items-has k e.tenant_id e.timestamp e.product_details s'
            ∙ lawful.has-set_nx (dedup_key k) mark dedup_ttl_seconds s
            ∙ ap (λ w. w || lawful.has (dedup_key k) s) (dedup-dedup k e.event_id)
            ∙ ap (λ z. str_eq k e.event_id || z) (marks k)),
        λ t p b free.
            record_items-units t p e.tenant_id b e.timestamp e.product_details s' free colon_free
            ∙ ap (λ n. or_zero n + event_units t p b e)
                (lawful.hget-set_nx (velocity_hash_key t p) mark b dedup_ttl_seconds s),
      )
