-- ===== src/Lib.antt =====
-- Corsair quotes options and hedges them: a trader process decides on quotes, a broker process
-- places the orders, keeps the positions and watches the risk, and the two talk over frames in
-- shared memory. This library models the pure core of both processes, and the framing of both wires.
--
-- Parts, under rust/ of the repository:
--   Oms         corsair_oms/src/{key,book}.rs, the index of our own orders. `OrderBook` has the
--               source's two maps and its counters; each method is the function of its name, with
--               the book as its last argument and its new value in the result (`get` is
--               `get_record`, `OurKey::new` is `our_key`).
--   Position    corsair_position/src, the portfolio. Position holds the types, the registry of
--               products and the keys, Position/Portfolio the fills, Position/Totals the sums of
--               Greeks, the marks and the refreshing.
--   Constraint  corsair_constraint/src, the gates before a fill and the calibration of the margin.
--               It reads the portfolio's delta and theta.
--   Risk        corsair_risk/src, the kill switch. It reads the portfolio's P&L and the induced
--               sentinel files; fills run `check_daily_pnl_only`, the timer `check`, a reconnect
--               `clear_disconnect_kill`, a session rollover `clear_daily_halt`.
--   Hedge       corsair_hedge/src. Hedge is state.rs, Hedge/Manager manager.rs with its execution ids
--               in Hedge/ExecIds, Hedge/Fanout fanout.rs; Hedge/Calls has sequences of its calls. A
--               method that takes the manager by `&mut` and returns an action gives both. It reads
--               the portfolio's delta; its own quantity goes into the constraint checker's
--               `hedge_qty`.
--   Market      corsair_market_data/src, the quotes; `market_view` is the interface by which Position
--               reads them. Market/Routed has sequences of its calls.
--   Span        corsair_pricing/src/span.rs, the margin of a portfolio over 16 scenarios.
--   Greeks      corsair_pricing/src/greeks.rs, the Greeks of an option.
--   Trader      corsair_trader/src. Trader/Pricing is pricing.rs with `compute_theo`, Trader/State
--               state.rs and messages.rs, Trader/Decision `decide_on_tick` of decision.rs,
--               Trader/Events `process_event` and `on_tick` of main.rs, Trader/Staleness its
--               `staleness_check`, Trader/Expiry tte_cache.rs. A handler takes the state and the
--               counters and gives both with the commands for the ring.
--   Ipc         corsair_ipc/src/protocol.rs, the frames between trader and broker. Ipc/Ring is
--               ring.rs, the bytes in shared memory that carry them.
--   Codec       corsair_broker_ibkr_native/src/codec.rs, the frames to the gateway; Codec/Fields has
--               the texts of single fields.
--   Native      corsair_broker_ibkr_native/src. Native/Requests is requests.rs, Native/Template
--               place_template.rs, Native/Messages types.rs, Native/Decoder decoder.rs with its
--               parsers in Native/Ticks, Native/Orders and Native/Accounts.
-- Shared: Base has the lemmas on lists, maps and integers, Float the interface of the floating
-- numbers, Api the types of corsair_broker_api, Framing the length prefix of both wires.
--
-- Conventions. A `HashMap` is an association list in which an insertion replaces. An `f64` is a
-- type with the class `Float`, whose laws (`IsOrdered`) are those of IEEE 754 comparisons and say
-- nothing of NaN but that no comparison with it holds; the instance `Fixed` is exact arithmetic in
-- units of 1/10000 with NaN, on which the examples run. An `i32` wraps, as in the release profile,
-- which has no overflow checks; a `u32` counter wraps at 2^32. The clock and the directory of sentinel
-- files are arguments. `String::from_utf8_lossy` is an argument of the decoder, and the
-- option pricing one of `refresh_greeks`. `Formats` has the formats and parsers of numbers, `Analysis`
-- the elementary functions and the normal distribution, `Calendar` the dates of chrono. A panic of the
-- source is a case of the result where a function has one (an index in Native/Decoder and Position, a
-- slice inside a character in Trader/Expiry); the decision takes the time to expiry of a call that
-- returns. serde's
-- encoding is left out, and a message is the value that it encodes.
--
-- Fuel. The loops that unpack a buffer run on the buffer's length plus one, and each turn takes at
-- least the four bytes of a prefix; that this is enough is a theorem for each.
--
-- Not modelled: log lines, message texts, the recording market views, threads, sockets, the order in
-- which two processes see the ring's stores, the telemetry and the remaining crates. The counters of
-- the trader are unbounded numbers.

pub mod Base
pub mod Float
pub mod Api
pub mod Oms
pub mod Position
pub mod Constraint
pub mod Risk
pub mod Market
pub mod Span
pub mod Greeks
pub mod Trader
pub mod Framing
pub mod Ipc
pub mod Codec
pub mod Native
pub mod Hedge
