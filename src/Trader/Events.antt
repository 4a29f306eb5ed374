-- ===== src/Trader/Events.antt =====
-- rust/corsair_trader/src/main.rs: `process_event` and `on_tick`. serde decodes a message into an
-- `Event` and encodes a `Command`; the ring carries the commands. The clocks' readings are
-- arguments, `now` of the monotonic clock, `recv_wall` and `wall` of the other. The two JSONL logs are left out.
use corsair.Base.{
  ℕ, ◌-◌, ◌/◌, Bool, false, ◌||◌, Option, none, some, List, [], ◌∷◌, ◌++◌, String, ◌==◌, string_eq,
  if◌then◌else◌, ltb, length,
}
use corsair.Base.Integers.{ℤ, wrap_i32, ℤ_eq}
use corsair.Base.Maps.{get, insert, remove}
use corsair.Float.{Float}
use corsair.Api.{Side, buy, sell}
use corsair.Codec.Fields.{Text}
use corsair.Trader.Pricing.{Analysis}
use corsair.Trader.State.{
  TraderState, DecisionCounters, TickMsg, VolSurfaceEntry, OurOrder, OrderKey, surface_key_eq,
  order_key_eq, option_key_eq, first_char, as_char, order_key,
}
use corsair.Trader.Decision.{Decision, skip, place, decide_on_tick, unwrap_or, or_else}

pub record PlaceAckMsg (F : Type 0) : Type 0 where
  pub order_id : ℤ
  pub strike : F
  pub expiry : Text
  pub right : Text
  pub side : String
  pub price : F

-- The entries of `config` in a hello that have the expected type.
pub record HelloConfig (F : Type 0) : Type 0 where
  pub min_edge_ticks : Option ℤ
  pub tick_size : Option F
  pub delta_ceiling : Option F
  pub delta_kill : Option F
  pub margin_ceiling_pct : Option F

-- A decoded message by its type; `ignored` has another type or did not decode. `vol_surface expiry
-- side entry`, `risk_state effective_delta margin_pct`, `order_ack order_id status` and `kill source
-- reason` hold those fields.
pub data Event (F : Type 0) : Type 0 where
  tick : TickMsg F → Event F
  underlying_tick : F → Event F
  vol_surface : Text → Text → VolSurfaceEntry F → Event F
  risk_state : F → F → Event F
  place_ack : PlaceAckMsg F → Event F
  order_ack : Option ℤ → Option String → Event F
  kill : Option String → Option String → Event F
  resume : Option String → Event F
  weekend_pause : Option Bool → Event F
  hello : HelloConfig F → Event F
  ignored : Event F

-- The constant `type` and `orderRef` are left out.
pub record PlaceOrder (F : Type 0) : Type 0 where
  pub ts_ns : ℕ
  pub strike : F
  pub expiry : Text
  pub right : Text
  pub side : Side
  pub qty : ℕ
  pub price : F

-- `cancel_order ts_ns order_id`
pub data Command (F : Type 0) : Type 0 where
  cancel_order : ℕ → ℤ → Command F
  place_order : PlaceOrder F → Command F

-- A latency below five seconds is kept, the oldest of more than `bound` dropped.
unfoldable pub push_sample : ℕ → ℕ → Option ℕ → List ℕ → List ℕ
push_sample bound wall none samples = samples
push_sample bound wall (some emit_ns) samples =
    let lat = (wall - emit_ns) / 1000 in
    let pushed = samples ++ (lat ∷ []) in
    if ltb lat 5_000_000
    then (if ltb bound (length pushed)
        then elim pushed [ [] ↦ [] | oldest ∷ rest ↦ rest ]
        else pushed)
    else samples

-- "Filled" | "Cancelled" | "ApiCancelled" | "Inactive"
unfoldable pub is_terminal_status : String → Bool
is_terminal_status status =
    status == "Filled" || status == "Cancelled" || status == "ApiCancelled" || status == "Inactive"

abbrev parse_side : String → Option Side
parse_side side = if side == "BUY" then some buy else if side == "SELL" then some sell else none

abbrev as_i32 : Option ℤ → ℤ → ℤ
as_i32 none old = old
as_i32 (some v) old = wrap_i32 v

module _ {F : Type 0} where
  -- The key of the order that a `place_ack` names, where its side is known.
  unfoldable pub ack_key : Analysis F → PlaceAckMsg F → Option OrderKey
  ack_key x p = elim (parse_side p.side) [
    | none ↦ none
    | some side ↦ some (record {
      strike_bits = x.to_bits p.strike;
      expiry = p.expiry;
      right_char = first_char p.right;
      side_char = as_char side;
    })
  ]

  abbrev acknowledged : PlaceAckMsg F → ℕ → ℕ → Option (OurOrder F) → OurOrder F
  acknowledged p now wall (some o) = record o { order_id = some p.order_id }
  acknowledged p now wall none = record {
    price = p.price;
    send_ns = wall;
    place_monotonic_ns = now;
    order_id = some p.order_id;
  }

  unfoldable pub on_place_ack : Analysis F → ℕ → ℕ → PlaceAckMsg F → TraderState F → TraderState F
  unfolding ack_key
  on_place_ack x now wall p s = elim (ack_key x p) [
    | none ↦ s
    | some key ↦ record s {
      our_orders = insert key (acknowledged p now wall (get key s.our_orders)) s.our_orders;
      orderid_to_key = insert p.order_id key s.orderid_to_key;
    }
  ]

  -- The orders left when the broker reports the end of an order.
  unfoldable pub forget : ℤ → TraderState F → TraderState F
  forget oid s = elim (get oid s.orderid_to_key) [
    | none ↦ s
    | some key ↦ record s {
      our_orders = remove key s.our_orders;
      orderid_to_key = remove oid s.orderid_to_key;
    }
  ]

  unfoldable pub on_order_ack : Option ℤ → Option String → TraderState F → TraderState F
  unfolding forget
  on_order_ack none status s = s
  on_order_ack (some oid) status s =
      if is_terminal_status (unwrap_or status "") then forget oid s else s

  unfoldable pub on_hello : HelloConfig F → TraderState F → TraderState F
  on_hello cfg s = record s {
    min_edge_ticks = as_i32 cfg.min_edge_ticks s.min_edge_ticks;
    tick_size = unwrap_or cfg.tick_size s.tick_size;
    delta_ceiling = unwrap_or cfg.delta_ceiling s.delta_ceiling;
    delta_kill = unwrap_or cfg.delta_kill s.delta_kill;
    margin_ceiling_pct = unwrap_or cfg.margin_ceiling_pct s.margin_ceiling_pct;
  }

  -- The commands of one decision, in the order in which they are sent.
  unfoldable pub commands_for : ℕ → TickMsg F → Decision F → List (Command F)
  commands_for wall t skip = []
  commands_for wall t (place side price old) =
      let order = place_order (record {
        ts_ns = wall;
        strike = t.strike;
        expiry = t.expiry;
        right = t.right;
        side = side;
        qty = 1;
        price = price;
      }) in
      elim old [ none ↦ order ∷ [] | some oid ↦ cancel_order wall oid ∷ order ∷ [] ]

  unfoldable pub commands : ℕ → TickMsg F → List (Decision F) → List (Command F)
  unfolding commands_for
  commands wall t [] = []
  commands wall t (d ∷ ds) = commands_for wall t d ++ commands wall t ds

  -- The bookkeeping of one order that was sent.
  unfoldable pub track : Analysis F → ℕ → ℕ → TickMsg F → Decision F → TraderState F → TraderState F
  unfolding order_key
  track x now wall t skip s = s
  track x now wall t (place side price old) s =
      let order : OurOrder F = record {
        price = price;
        send_ns = wall;
        place_monotonic_ns = now;
        order_id = none;
      } in
      record s {
        orderid_to_key = elim old [
          | none ↦ s.orderid_to_key
          | some oid ↦ remove oid s.orderid_to_key
        ];
        our_orders = insert (order_key x t side) order s.our_orders;
      }

  unfoldable pub track_all :
      Analysis F → ℕ → ℕ → TickMsg F → List (Decision F) → TraderState F → TraderState F
  unfolding track
  track_all x now wall t [] s = s
  track_all x now wall t (d ∷ ds) s = track_all x now wall t ds (track x now wall t d s)

  -- `options.insert` at the start of `on_tick`
  unfoldable pub store_option : Analysis F → TickMsg F → TraderState F → TraderState F
  store_option x t s = record s {
    options =
        insert
          (record {
            strike_bits = x.to_bits t.strike;
            expiry = t.expiry;
            right_char = first_char t.right;
          })
          (record {
            strike = t.strike;
            bid = t.bid;
            ask = t.ask;
            bid_size = t.bid_size;
            ask_size = t.ask_size;
            ts_ns = t.ts_ns;
          })
          s.options;
  }

  -- The end of `on_tick`, with the decisions that it sends.
  unfoldable pub send :
      Analysis F
      → ℕ
      → ℕ
      → TickMsg F
      → List (Decision F)
      → TraderState F
      → TraderState F × List (Command F)
  unfolding track_all commands
  send x now wall t [] s = (s, [])
  send x now wall t (d ∷ ds) s =
      let timed = record s { ttt_us = push_sample 500 wall t.ts_ns s.ttt_us } in
      (track_all x now wall t (d ∷ ds) timed, commands wall t (d ∷ ds))

  abbrev pub stamp : Option ℕ → Event F → Event F
  stamp ts_ns (tick t) = tick (record t { ts_ns = or_else t.ts_ns ts_ns })
  stamp ts_ns event = event

  -- The latency of a message
  abbrev pub timed : ℕ → Option ℕ → TraderState F → TraderState F
  timed wall ts_ns s = record s { ipc_us = push_sample 2000 wall ts_ns s.ipc_us }

module _ {F : Type 0} ⦃f : Float F⦄ where
  -- `on_tick`; `places_orders` is the process's setting of that name. The result is the state, the
  -- counters and the commands that are written to the ring.
  unfoldable pub on_tick :
      Analysis F
      → (Text → Option F)
      → Bool
      → ℕ
      → ℕ
      → TickMsg F
      → TraderState F
      → DecisionCounters
      → TraderState F × DecisionCounters × List (Command F)
  unfolding store_option send
  on_tick x tte places_orders now wall t s c =
      let stored = store_option x t s in
      let (counted, decisions) = decide_on_tick x tte stored c t now in
      let (sent, written) = send x now wall t decisions stored in
      if places_orders then (sent, counted, written) else (stored, counted, [])

  -- The match on the message's type.
  unfoldable pub handle :
      Analysis F
      → (Text → Option F)
      → Bool
      → ℕ
      → ℕ
      → Event F
      → TraderState F
      → DecisionCounters
      → TraderState F × DecisionCounters × List (Command F)
  unfolding on_tick on_place_ack on_order_ack on_hello
  handle x tte places now wall (tick t) s c = on_tick x tte places now wall t s c
  handle x tte places now wall (underlying_tick price) s c =
      (record s { underlying_price = price }, c, [])
  handle x tte places now wall (vol_surface expiry side entry) s c = (
    record s {
      vol_surfaces =
          insert (record { expiry = expiry; right_char = first_char side }) entry s.vol_surfaces;
    },
    c,
    [],
  )
  handle x tte places now wall (risk_state effective_delta margin_pct) s c = (
    record s {
      risk_effective_delta = some effective_delta;
      risk_margin_pct = some margin_pct;
      risk_state_age_monotonic_ns = now;
    },
    c,
    [],
  )
  handle x tte places now wall (place_ack p) s c = (on_place_ack x now wall p s, c, [])
  handle x tte places now wall (order_ack oid status) s c = (on_order_ack oid status s, c, [])
  handle x tte places now wall (kill source reason) s c =
      (record s { kills = insert (unwrap_or source "?") (unwrap_or reason "?") s.kills }, c, [])
  handle x tte places now wall (resume source) s c =
      (record s { kills = remove (unwrap_or source "?") s.kills }, c, [])
  handle x tte places now wall (weekend_pause paused) s c =
      (record s { weekend_paused = unwrap_or paused false }, c, [])
  handle x tte places now wall (hello cfg) s c = (on_hello cfg s, c, [])
  handle x tte places now wall ignored s c = (s, c, [])

  -- `process_event`; a tick without its own time takes the message's `ts_ns`. `recv_wall` is the
  -- clock's reading on receipt, `wall` the later one of the handler.
  unfoldable pub process_event :
      Analysis F
      → (Text → Option F)
      → Bool
      → ℕ
      → ℕ
      → ℕ
      → Option ℕ
      → Event F
      → TraderState F
      → DecisionCounters
      → TraderState F × DecisionCounters × List (Command F)
  unfolding handle
  process_event x tte places recv_wall now wall ts_ns event s c =
      handle x tte places now wall (stamp ts_ns event) (timed recv_wall ts_ns s) c
