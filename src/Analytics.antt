-- ===== src/Analytics.antt =====
-- The sales metrics of analytics-engine/app: the consumer of the sale events (consumer.py) and the
-- windows that it keeps in Redis (metrics/rolling_window.py, metrics/redis_keys.py). Redis is an
-- interface: its commands, and what they do while no key has reached its expiry. Times are in
-- microseconds, and an event's day is that of UTC, which its producer writes.
pub mod Keys
pub mod Effects
pub mod Windows
use aurapro.Prelude.{
  suc, zero, ℕ, ◌+◌, ◌-◌, ◌*◌, ◌/◌, ◌≡◌, Bool, true, false, not, ◌&&◌, ◌||◌, Option, none, some,
  List, [], ◌∷◌, ◌==◌, if◌then◌else◌, map, sum_by, String, str_eq,
}
use aurapro.Prelude.Joining.{join}

-- app/schemas/sales_event.py, which is not the backend's class: the identifiers are texts, that of
-- the event the text of its UUID.
pub record ProductDetail : Type 0 where
  pub product_id : String
  pub name : String
  pub quantity : ℕ
  pub unit_price : ℕ

pub record SalesEvent : Type 0 where
  pub event_id : String
  pub timestamp : ℕ
  pub tenant_id : String
  pub product_details : List ProductDetail
  pub amount : ℕ
  pub currency : String

unfoldable pub velocity_hash_key : String → String → String
velocity_hash_key tenant_id product_id =
    join "sales:velocity:" (join tenant_id (join ":" product_id))

unfoldable pub daily_hash_key : String → String → String
daily_hash_key tenant_id product_id = join "sales:daily:" (join tenant_id (join ":" product_id))

unfoldable pub dedup_key : String → String
dedup_key event_id = join "sales:processed:" event_id

abbrev pub or_zero : Option ℕ → ℕ
or_zero none = 0
or_zero (some n) = n

-- What becomes of a message: an event, an error that `handle_message` catches (`JSONDecodeError` and
-- `ValidationError`), or another one, such as the `UnicodeDecodeError` of bytes that are no text.
pub data Decoded : Type 0 where
  valid : SalesEvent → Decoded
  invalid failing : Decoded

-- The commands that the source sends to a store `S`, which says whether it has set the key or not
-- (`SET ... NX EX`), and what a field of a hash holds.
pub record Redis (S : Type 0) : Type 0 where
  pub set_nx : String → ℕ → S → Bool × S
  pub hincrby : String → ℕ → ℕ → S → S
  pub expire : String → ℕ → S → S
  pub hmget : String → List ℕ → S → List (Option ℕ)

-- The documented effect of the commands on which keys are there and on the fields of hashes.
pub record IsLawful {S : Type 0} (redis : Redis S) : Type 0 where
  pub has : String → S → Bool
  pub hget : String → ℕ → S → Option ℕ
  pub set_nx-new : (k : String) (ttl : ℕ) (s : S) → (redis.set_nx k ttl s).0 ≡ not (has k s)
  pub has-set_nx :
      (j k : String) (ttl : ℕ) (s : S) → has j (redis.set_nx k ttl s).1 ≡ (str_eq j k || has j s)
  pub hget-set_nx :
      (j k : String) (f ttl : ℕ) (s : S) → hget j f (redis.set_nx k ttl s).1 ≡ hget j f s
  pub has-hincrby :
      (j k : String) (f n : ℕ) (s : S) → has j (redis.hincrby k f n s) ≡ (str_eq j k || has j s)
  pub hget-hincrby :
      (j k : String) (g f n : ℕ) (s : S)
      → hget j g (redis.hincrby k f n s)
        ≡ (if str_eq j k && g == f then some (or_zero (hget j g s) + n) else hget j g s)
  pub has-expire : (j k : String) (ttl : ℕ) (s : S) → has j (redis.expire k ttl s) ≡ has j s
  pub hget-expire :
      (j k : String) (f ttl : ℕ) (s : S) → hget j f (redis.expire k ttl s) ≡ hget j f s
  pub hmget-eq :
      (k : String) (fields : List ℕ) (s : S) → redis.hmget k fields s ≡ map (λ f. hget k f s) fields

abbrev pub velocity_bucket_seconds : ℕ
velocity_bucket_seconds = 60

abbrev pub velocity_window_seconds : ℕ
velocity_window_seconds = 15 * 60

abbrev pub velocity_ttl_seconds : ℕ
velocity_ttl_seconds = velocity_window_seconds + velocity_bucket_seconds * 5

abbrev pub daily_retention_seconds : ℕ
daily_retention_seconds = 180 * 24 * 3600

abbrev pub dedup_ttl_seconds : ℕ
dedup_ttl_seconds = 24 * 3600

abbrev pub buckets_per_window : ℕ
buckets_per_window = velocity_window_seconds / velocity_bucket_seconds

-- The minute and the day of a time.
unfoldable pub minute_bucket : ℕ → ℕ
minute_bucket ts = ts / 1000000 / velocity_bucket_seconds

unfoldable pub day_field : ℕ → ℕ
day_field ts = ts / 1000000 / 86400

-- `[str(current_bucket - i) for i in range(n)]`; in the first minutes of 1970 the source's fields
-- are negative where these are 0.
unfoldable pub fields_before : ℕ → ℕ → List ℕ
fields_before current zero = []
fields_before current (suc n) = current ∷ fields_before (current - 1) n

module _ {S : Type 0} (redis : Redis S) where
  unfoldable pub record_sale : String → String → ℕ → ℕ → S → S
  record_sale tenant_id product_id quantity event_ts s =
      let velocity_key = velocity_hash_key tenant_id product_id in
      let daily_key = daily_hash_key tenant_id product_id in
      let s1 = redis.hincrby velocity_key (minute_bucket event_ts) quantity s in
      let s2 = redis.expire velocity_key velocity_ttl_seconds s1 in
      let s3 = redis.hincrby daily_key (day_field event_ts) quantity s2 in
      redis.expire daily_key daily_retention_seconds s3

  unfoldable pub sales_velocity : String → String → ℕ → S → ℕ
  sales_velocity tenant_id product_id now s = sum_by or_zero (
      redis.hmget (velocity_hash_key tenant_id product_id)
        (fields_before (minute_bucket now) buckets_per_window) s)

  -- `for item in event.product_details`
  unfoldable pub record_items : String → ℕ → List ProductDetail → S → S
  record_items tenant_id ts [] s = s
  record_items tenant_id ts (item ∷ rest) s =
      record_items tenant_id ts rest (record_sale tenant_id item.product_id item.quantity ts s)

  unfoldable pub process : SalesEvent → S → S
  process event s =
      let (is_new, s') = redis.set_nx (dedup_key event.event_id) dedup_ttl_seconds s in
      if is_new then record_items event.tenant_id event.timestamp event.product_details s' else s'

  -- `decode` is `json.loads` and the validation.
  module _ {R : Type 0} (decode : R → Decoded) where
    -- `none` is an exception, which leaves before any command is sent.
    unfoldable pub handle_message : R → S → Option S
    handle_message raw_value s = elim (decode raw_value) [
      | valid event ↦ some (process event s)
      | invalid ↦ some s
      | failing ↦ none
    ]

    -- The loop of `run` over the messages that are delivered. It ends with an exception; the messages
    -- whose offsets are not committed are then left.
    unfoldable pub consume : List R → S → List R × S
    consume [] s = ([], s)
    consume (raw_value ∷ rest) s = elim (handle_message raw_value s) [
      | none ↦ (raw_value ∷ rest, s)
      | some s' ↦ consume rest s'
    ]

    -- `run` started again and again, each time with the messages that are delivered then.
    unfoldable pub restarts : List (List R) → S → S
    restarts [] s = s
    restarts (messages ∷ later) s = restarts later (consume messages s).1
