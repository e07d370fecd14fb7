-- ===== src/Plugins/Fixtures.antt =====
-- The two canonical recordings of a checkout: infrareplay/plugins/mock_capture/fixtures.py.
-- `hex` is the n-th `uuid4().hex`. Gaps and durations are in tenths of a millisecond.
use infra_replay.Common.{
  ℕ, suc, ◌+◌, ◌*◌, String, Bool, true, false, Option, none, some, List, [], ◌∷◌, ◌++◌,
  if◌then◌else◌,
}
use infra_replay.Common.Text.{joined, first_chars}
use infra_replay.Schema.Value.{ℤ, Value, int, str, arr, obj, Items, nil, cons, Fields, end, field}
use infra_replay.Schema.Event.{Event, EventType, http_request, http_response, pg_query, pg_result}

abbrev base_ns : ℕ
base_ns = 1787047200000000000

abbrev service : String
service = "demo_shop"

abbrev order_id : Value
order_id = str "ord_9f2c1a7b3e00"

abbrev user_id : Value
user_id = str "usr_4a1c8e"

abbrev customer_email : Value
customer_email = str "dana.lang@example.com"

abbrev payment_ref : Value
payment_ref = str "pi_3Qx8Zk2eRfL0aQ"

abbrev payment_row_id : Value
payment_row_id = str "pay_2b9c07d1"

-- The dict and the list that hold these.
abbrev dict : List (String × Value) → Fields
dict [] = end
dict ((k, v) ∷ rest) = field k v (dict rest)

abbrev items : List Value → Items
items [] = nil
items (v ∷ rest) = cons v (items rest)

abbrev number : ℕ → Value
number n = int (ℤ.pos n)

pub record LineItem : Type 0 where
  pub sku : String
  pub name : String
  pub qty : ℕ
  pub unit_cents : ℕ

abbrev aeropress : LineItem
aeropress = record { sku = "AEROPRESS-GO"; name = "AeroPress Go"; qty = 1; unit_cents = 3999 }

abbrev filters : LineItem
filters = record {
  sku = "FILTER-350";
  name = "Micro-filters (350 pack)";
  qty = 2;
  unit_cents = 899;
}

abbrev subtotal_cents : ℕ
subtotal_cents = aeropress.qty * aeropress.unit_cents + filters.qty * filters.unit_cents

abbrev shipping_cents : ℕ
shipping_cents = 500

abbrev tax_cents : ℕ
tax_cents = 491

abbrev total_cents : ℕ
total_cents = subtotal_cents + shipping_cents + tax_cents

pub data Scenario : Type 0 where
  clean buggy : Scenario

pub record Stream : Type 0 where
  pub recording_id : String
  pub corr : String
  pub trace : String
  pub seq : ℕ
  pub now_ns : ℕ
  pub calls : ℕ
  pub events : List Event

abbrev cart_item : LineItem → Value
cart_item i = obj (dict (("sku", str i.sku) ∷ ("qty", number i.qty) ∷ []))

abbrev line_item : LineItem → Value
line_item i = obj (
    dict (
      ("sku", str i.sku)
      ∷ ("name", str i.name)
      ∷ ("qty", number i.qty)
      ∷ ("unit_cents", number i.unit_cents)
      ∷ []))

-- `_request_payload`
abbrev pub request_payload : Fields
request_payload = dict (
    ("method", str "POST")
    ∷ ("path", str "/api/v1/checkout")
    ∷ ("http_version", str "1.1")
    ∷ ("client_ip", str "203.0.113.42")
    ∷ (
      "headers",
      obj (
          dict (
            ("host", str "shop.demo.internal")
            ∷ ("content-type", str "application/json")
            ∷ ("accept", str "application/json")
            ∷ ("user-agent", str "DemoShop-Web/2.14.0 (+https://demo.shop)")
            ∷ ("x-request-id", str "req_a3f9c2b1e8d7")
            ∷ ("idempotency-key", str "chk_2026-08-29_dana_01")
            ∷ ("authorization", str "Bearer eyJhbGciOiJIUzI1NiJ9.checkout.redact-me")
            ∷ ("cookie", str "session=redact-me; ab_group=B")
            ∷ [])),
    )
    ∷ ("query", obj end)
    ∷ (
      "body",
      obj (
          dict (
            ("cart_id", str "cart_7b21f0")
            ∷ ("items", arr (items (cart_item aeropress ∷ cart_item filters ∷ [])))
            ∷ (
              "shipping_address",
              obj (
                  dict (
                    ("name", str "Dana Lang")
                    ∷ ("line1", str "18 Harbour View")
                    ∷ ("city", str "Bristol")
                    ∷ ("postcode", str "BS1 4RN")
                    ∷ ("country", str "GB")
                    ∷ [])),
            )
            ∷ (
              "payment_method",
              obj (
                  dict (
                    ("type", str "card")
                    ∷ ("token", str "tok_live_x2Kd9pQ")
                    ∷ ("brand", str "visa")
                    ∷ ("last4", str "4242")
                    ∷ [])),
            )
            ∷ [])),
    )
    ∷ [])

-- `_payment_result`
abbrev pub payment_result : Bool → Fields
payment_result ok = dict (
    ("rows_affected", number 1)
    ∷ (
      "rows",
      arr (
          items (
            obj (
              dict (
                ("id", payment_row_id)
                ∷ ("order_id", order_id)
                ∷ ("state", str (if ok then "authorized" else "declined"))
                ∷ ("provider", str "stripe")
                ∷ ("amount_cents", number total_cents)
                ∷ (if ok
                    then ("provider_ref", payment_ref)
                    else ("decline_code", str "insufficient_funds"))
                ∷ []))
            ∷ [])),
    )
    ∷ [])

-- `_response_payload`
abbrev pub response_payload : Bool → Fields
response_payload true = dict (
    ("status", number 201)
    ∷ (
      "headers",
      obj (
          dict (
            ("content-type", str "application/json")
            ∷ ("location", str "/api/v1/orders/ord_9f2c1a7b3e00")
            ∷ [])),
    )
    ∷ (
      "body",
      obj (
          dict (
            ("order_id", order_id)
            ∷ ("status", str "confirmed")
            ∷ ("currency", str "GBP")
            ∷ (
              "totals",
              obj (
                  dict (
                    ("subtotal_cents", number subtotal_cents)
                    ∷ ("shipping_cents", number shipping_cents)
                    ∷ ("tax_cents", number tax_cents)
                    ∷ ("grand_total_cents", number total_cents)
                    ∷ [])),
            )
            ∷ (
              "payment",
              obj (
                  dict (
                    ("state", str "authorized")
                    ∷ ("provider", str "stripe")
                    ∷ ("reference", payment_ref)
                    ∷ [])),
            )
            ∷ (
              "fulfilment",
              obj (dict (("carrier", str "royal-mail") ∷ ("eta_days", number 3) ∷ [])),
            )
            ∷ ("line_items", arr (items (line_item aeropress ∷ line_item filters ∷ [])))
            ∷ [])),
    )
    ∷ [])
response_payload false = dict (
    ("status", number 402)
    ∷ ("headers", obj (dict (("content-type", str "application/problem+json") ∷ [])))
    ∷ (
      "body",
      obj (
          dict (
            ("type", str "https://demo.shop/errors/payment-declined")
            ∷ ("title", str "Payment was declined")
            ∷ ("status", number 402)
            ∷ ("order_id", order_id)
            ∷ (
              "payment",
              obj (
                  dict (
                    ("state", str "declined")
                    ∷ ("provider", str "stripe")
                    ∷ ("decline_code", str "insufficient_funds")
                    ∷ [])),
            )
            ∷ ("hint", str "Ask the customer to try a different card.")
            ∷ [])),
    )
    ∷ [])

abbrev query_payload : String → List Value → Fields
query_payload sql params = dict (("sql", str sql) ∷ ("params", arr (items params)) ∷ [])

abbrev result_payload : ℕ → List Fields → Fields
result_payload affected rows =
    dict (("rows_affected", number affected) ∷ ("rows", arr (items (objects rows))) ∷ [])
  where
    objects : List Fields → List Value
    objects [] = []
    objects (fs ∷ rest) = obj fs ∷ objects rest

module _ (hex : ℕ → String) where
  -- `_Stream.__init__`
  unfoldable pub new_stream : String → Stream
  new_stream recording_id = record {
    recording_id = recording_id;
    corr = joined "corr_" (first_chars 12 (hex 0));
    trace = hex 1;
    seq = 0;
    now_ns = base_ns;
    calls = 2;
    events = [];
  }

  -- `_Stream.add`
  unfoldable pub add : EventType → Fields → Option String → ℕ → ℕ → Stream → Event × Stream
  add event_type payload parent gap dur s = (
    event,
    record s {
      seq = suc s.seq;
      now_ns = s.now_ns + gap * 100000 + dur * 100000;
      calls = suc (suc s.calls);
      events = s.events ++ event ∷ [];
    },
  )
    where
      event : Event
      event = record {
        schema_version = 1;
        recording_id = s.recording_id;
        event_id = joined "evt_" (first_chars 12 (hex s.calls));
        parent_event_id = parent;
        sequence = s.seq;
        timestamp_ns = s.now_ns + gap * 100000;
        duration_ns = dur * 100000;
        event_type = event_type;
        service = service;
        correlation_id = s.corr;
        trace_id = some s.trace;
        span_id = some (first_chars 16 (hex (suc s.calls)));
        payload = payload;
      }

  -- `_pg_step`
  unfoldable pub pg_step : Event → String → List Value → Fields → ℕ → ℕ → Stream → Stream
  unfolding add
  pg_step request sql params result gap query s =
      let (asked, now) =
        add pg_query (query_payload sql params) (some request.event_id) gap query s in
      (add pg_result result (some asked.event_id) 0 4 now).1

  abbrev is_clean : Scenario → Bool
  is_clean clean = true
  is_clean buggy = false

  -- `build`
  unfoldable pub build : String → Scenario → List Event
  unfolding new_stream add pg_step
  build recording_id scenario =
      let ok = is_clean scenario in
      let (request, s0) = add http_request request_payload none 0 1410 (new_stream recording_id) in
      let s1 =
        pg_step request
          "SELECT s.user_id, u.email, u.loyalty_tier\n  FROM sessions s JOIN users u ON u.id = s.user_id\n WHERE s.token_hash = $1 AND s.expires_at > now()"
          (str "sha256:9c1f0b…a7" ∷ [])
          (result_payload 1 (
            dict
              (("user_id", user_id) ∷ ("email", customer_email) ∷ ("loyalty_tier", str "gold") ∷ [])
            ∷ []))
          30 40 s0 in
      let s2 = (add pg_query (query_payload "BEGIN" []) (some request.event_id) 10 3 s1).1 in
      let s3 =
        pg_step request
          "INSERT INTO orders (id, user_id, currency, subtotal_cents,\n                    shipping_cents, tax_cents, total_cents, status)\nVALUES ($1, $2, 'GBP', $3, $4, $5, $6, 'pending')"
          (order_id
            ∷ user_id
            ∷ number subtotal_cents
            ∷ number shipping_cents
            ∷ number tax_cents
            ∷ number total_cents
            ∷ [])
          (result_payload 1 (dict (("id", order_id) ∷ ("status", str "pending") ∷ []) ∷ [])) 10 80
          s2 in
      let s4 =
        pg_step request
          "INSERT INTO order_items (order_id, sku, qty, unit_cents)\nVALUES ($1, $2, $3, $4), ($1, $5, $6, $7)"
          (order_id
            ∷ str aeropress.sku
            ∷ number aeropress.qty
            ∷ number aeropress.unit_cents
            ∷ str filters.sku
            ∷ number filters.qty
            ∷ number filters.unit_cents
            ∷ [])
          (result_payload 2 []) 10 60 s3 in
      let s5 =
        pg_step request
          "UPDATE inventory SET available = available - c.qty\n  FROM (VALUES ($1::text, $2), ($3::text, $4)) AS c(sku, qty)\n WHERE inventory.sku = c.sku"
          (str aeropress.sku ∷ number aeropress.qty ∷ str filters.sku ∷ number filters.qty ∷ [])
          (result_payload 2 []) 10 70 s4 in
      let s6 =
        pg_step request
          "INSERT INTO payments (id, order_id, provider, amount_cents, state)\nVALUES ($1, $2, 'stripe', $3, $4)\nRETURNING id, order_id, state, provider, amount_cents"
          (payment_row_id
            ∷ order_id
            ∷ number total_cents
            ∷ str (if ok then "authorized" else "declined")
            ∷ [])
          (payment_result ok) 20 530 s5 in
      let s7 =
        (add pg_query (query_payload (if ok then "COMMIT" else "ROLLBACK") [])
          (some request.event_id) 10 (if ok then 25 else 6) s6).1 in
      (add http_response (response_payload ok) (some request.event_id) 20 10 s7).1.events
