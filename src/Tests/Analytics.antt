-- ===== src/Tests/Analytics.antt =====
-- A store that answers as Redis does, and an event that is delivered twice.
use aurapro.Prelude.{
  ℕ, ◌+◌, ◌≡◌, refl, Bool, false, not, ◌&&◌, ◌||◌, Option, none, some, List, [], ◌∷◌, ◌==◌,
  if◌then◌else◌, map, String, str_eq,
}
use aurapro.Analytics.{
  SalesEvent, Decoded, velocity_hash_key, daily_hash_key, dedup_key, restarts, or_zero, Redis,
  IsLawful, minute_bucket, day_field, fields_before, record_sale, sales_velocity, record_items,
  process, handle_message, consume,
}

analytics_code : ℕ
unfolding minute_bucket day_field fields_before record_sale sales_velocity record_items process
    handle_message consume restarts velocity_hash_key daily_hash_key dedup_key
analytics_code = 0

record Store : Type 0 where
  keys : String → Bool
  fields : String → ℕ → Option ℕ

abbrev redis : Redis Store
redis = record {
  set_nx = λ k ttl s. (not (s.keys k), record s { keys = λ j. str_eq j k || s.keys j });
  hincrby = λ k f n s. record {
    keys = λ j. str_eq j k || s.keys j;
    fields =
        λ j g. if str_eq j k && g == f then some (or_zero (s.fields j g) + n) else s.fields j g;
  };
  expire = λ k ttl s. s;
  hmget = λ k fs s. map (s.fields k) fs;
}

abbrev redis_laws : IsLawful redis
redis_laws = record {
  has = λ k s. s.keys k;
  hget = λ k f s. s.fields k f;
  set_nx-new = λ k ttl s. refl;
  has-set_nx = λ j k ttl s. refl;
  hget-set_nx = λ j k f ttl s. refl;
  has-hincrby = λ j k f n s. refl;
  hget-hincrby = λ j k g f n s. refl;
  has-expire = λ j k ttl s. refl;
  hget-expire = λ j k f ttl s. refl;
  hmget-eq = λ k fs s. refl;
}

abbrev blank : Store
blank = record { keys = λ k. false; fields = λ k f. none }

-- Three units of product 30, and one more of it in the next line, 20 minutes after the epoch.
abbrev event : SalesEvent
event = record {
  event_id = "7f-01";
  timestamp = 1200000000;
  tenant_id = "a1-02";
  product_details =
      record { product_id = "p30"; name = "Yerba"; quantity = 3; unit_price = 500 }
      ∷ record { product_id = "p30"; name = "Yerba"; quantity = 1; unit_price = 500 }
      ∷ [];
  amount = 2000;
  currency = "ARS";
}

abbrev decode : Decoded → Decoded
decode message = message

-- The first run ends with a message that is no text; the second is given the rest.
abbrev runs : List (List Decoded)
runs =
    (Decoded.valid event ∷ Decoded.invalid ∷ Decoded.failing ∷ Decoded.valid event ∷ [])
    ∷ (Decoded.valid event ∷ [])
    ∷ []

abbrev consumed : Store
consumed = restarts redis decode runs blank

four_units : sales_velocity redis "a1-02" "p30" 1300000000 consumed ≡ 4
unfolding analytics_code
four_units = refl

-- A quarter of an hour later the event is out of the window.
too_old : sales_velocity redis "a1-02" "p30" 2100000000 consumed ≡ 0
unfolding analytics_code
too_old = refl

-- At the message that fails the first run ends, and its event stays uncommitted with the rest.
stuck :
    (consume redis decode (Decoded.failing ∷ Decoded.valid event ∷ []) blank).0
    ≡ Decoded.failing ∷ Decoded.valid event ∷ []
unfolding analytics_code
stuck = refl
