-- ===== src/Native/Decoded.antt =====
-- rust/corsair_broker_ibkr_native/src/decoder.rs: the layouts of order statuses and executions, as
-- the comments there document them, and that the decoder reads them.
use corsair.Base.{◌^◌, ◌<◌, ◌≡◌, ◌≢◌, sym, ap, false, some, List, [], ◌∷◌, arith, ltb, length}
use corsair.Base.Integers.{ℤ, pos, pos_part, neg_part, IsI32}
use corsair.Float.{Float}
use corsair.Codec.Fields.{Text, Formats, text_beq, infinite_text}
use corsair.Native.Parsed.{ok, field, parsed, get_text, parse_int, parse_int64, parse_f64}
use corsair.Native.Messages.{OrderStatusMsg, ExecutionMsg, order_status, execution}
use corsair.Native.Orders.{parse_order_status, parse_execution}
use corsair.Native.Decoder.{dispatch, parse_inbound}

-- The range of an `i64`, less its least value.
abbrev pub IsI64 : ℤ → Type 0
IsI64 v = (pos_part v < 2 ^ 63) × (neg_part v < 2 ^ 63)

-- What the crates' formatters and the standard library's `parse` promise: a number that is printed
-- is read back, and a finite float is printed as neither the empty text nor "Infinite".
pub record IsReadBack {F : Type 0} (fmt : Formats F) : Type 0 where
  pub int : (v : ℤ) → IsI32 v → fmt.parse_i32 (fmt.itoa v) ≡ some v
  pub int64 : (v : ℤ) → IsI64 v → fmt.parse_i64 (fmt.itoa v) ≡ some v
  pub float : (v : F) → fmt.is_infinite v ≡ false → fmt.parse_decimal (fmt.ryu v) ≡ some v
  pub not_empty : (v : F) → fmt.is_infinite v ≡ false → fmt.ryu v ≢ []
  pub not_infinite :
      (v : F) → fmt.is_infinite v ≡ false → text_beq (fmt.ryu v) infinite_text ≡ false

module _ {F : Type 0} ⦃n : Float F⦄ (fmt : Formats F) where
  -- The numbers of a message that fit the fields of its type, and are finite.
  pub record IsStatus (m : OrderStatusMsg F) : Type 0 where
    pub order_id : IsI32 m.order_id
    pub perm_id : IsI32 m.perm_id
    pub parent_id : IsI32 m.parent_id
    pub client_id : IsI32 m.client_id
    pub filled : fmt.is_infinite m.filled ≡ false
    pub remaining : fmt.is_infinite m.remaining ≡ false
    pub avg_fill_price : fmt.is_infinite m.avg_fill_price ≡ false
    pub last_fill_price : fmt.is_infinite m.last_fill_price ≡ false
    pub mkt_cap_price : fmt.is_infinite m.mkt_cap_price ≡ false

  -- `[3, orderId, status, filled, remaining, avgFillPrice, permId, parentId, lastFillPrice, clientId,
  -- whyHeld, mktCapPrice]`
  unfoldable pub order_status_fields : OrderStatusMsg F → List Text
  order_status_fields m =
      fmt.itoa (pos 3)
      ∷ fmt.itoa m.order_id
      ∷ m.status
      ∷ fmt.ryu m.filled
      ∷ fmt.ryu m.remaining
      ∷ fmt.ryu m.avg_fill_price
      ∷ fmt.itoa m.perm_id
      ∷ fmt.itoa m.parent_id
      ∷ fmt.ryu m.last_fill_price
      ∷ fmt.itoa m.client_id
      ∷ m.why_held
      ∷ fmt.ryu m.mkt_cap_price
      ∷ []

  pub record IsExecution (m : ExecutionMsg F) : Type 0 where
    pub req_id : IsI32 m.req_id
    pub order_id : IsI32 m.order_id
    pub con_id : IsI64 m.contract.con_id
    pub perm_id : IsI32 m.perm_id
    pub client_id : IsI32 m.client_id
    pub liquidation : IsI32 m.liquidation
    pub strike : fmt.is_infinite m.contract.strike ≡ false
    pub shares : fmt.is_infinite m.shares ≡ false
    pub price : fmt.is_infinite m.price ≡ false
    pub cum_qty : fmt.is_infinite m.cum_qty ≡ false
    pub avg_price : fmt.is_infinite m.avg_price ≡ false
    -- The layout has no primary exchange.
    pub primary_exchange : m.contract.primary_exchange ≡ []

  -- `[11, version, reqId, orderId, conId, symbol, secType, expiry, strike, right, multiplier,
  -- exchange, currency, localSymbol, tradingClass, execId, time, acctNumber, exchange, side, shares,
  -- price, permId, clientId, liquidation, cumQty, avgPrice, orderRef]`, and what may follow
  unfoldable pub execution_fields : Text → ExecutionMsg F → List Text → List Text
  execution_fields version m more =
      fmt.itoa (pos 11)
      ∷ version
      ∷ fmt.itoa m.req_id
      ∷ fmt.itoa m.order_id
      ∷ fmt.itoa m.contract.con_id
      ∷ m.contract.symbol
      ∷ m.contract.sec_type
      ∷ m.contract.last_trade_date
      ∷ fmt.ryu m.contract.strike
      ∷ m.contract.right
      ∷ m.contract.multiplier
      ∷ m.contract.exchange
      ∷ m.contract.currency
      ∷ m.contract.local_symbol
      ∷ m.contract.trading_class
      ∷ m.exec_id
      ∷ m.time
      ∷ m.account
      ∷ m.exchange
      ∷ m.side
      ∷ fmt.ryu m.shares
      ∷ fmt.ryu m.price
      ∷ fmt.itoa m.perm_id
      ∷ fmt.itoa m.client_id
      ∷ fmt.itoa m.liquidation
      ∷ fmt.ryu m.cum_qty
      ∷ fmt.ryu m.avg_price
      ∷ m.order_ref
      ∷ more

  module _ (laws : IsReadBack fmt) where
    parse_int-itoa : (v : ℤ) → IsI32 v → parse_int fmt (fmt.itoa v) ≡ ok v
    unfolding parse_int
    parse_int-itoa v h = ap parsed (laws.int v h)

    parse_f64-ryu : (v : F) → fmt.is_infinite v ≡ false → parse_f64 fmt (fmt.ryu v) ≡ ok v
    unfolding parse_f64
    parse_f64-ryu v h = ground (arith, laws.float v h, laws.not_empty v h, laws.not_infinite v h)

    parse_order_status-fields :
        (m : OrderStatusMsg F)
        → IsStatus m
        → parse_order_status fmt (order_status_fields m) ≡ ok (order_status m)
    unfolding parse_order_status order_status_fields field
    parse_order_status-fields m v = rw (
      parse_int-itoa m.order_id v.order_id,
      parse_f64-ryu m.filled v.filled,
      parse_f64-ryu m.remaining v.remaining,
      parse_f64-ryu m.avg_fill_price v.avg_fill_price,
      parse_int-itoa m.perm_id v.perm_id,
      parse_int-itoa m.parent_id v.parent_id,
      parse_f64-ryu m.last_fill_price v.last_fill_price,
      parse_int-itoa m.client_id v.client_id,
      parse_f64-ryu m.mkt_cap_price v.mkt_cap_price,
    )

    parse_execution-fields :
        (version : Text) (m : ExecutionMsg F) (more : List Text)
        → IsExecution m
        → parse_execution fmt (execution_fields version m more) ≡ ok (execution m)
    unfolding parse_execution execution_fields field get_text parse_int64
    parse_execution-fields version m more v =
        let long_enough : ltb (length (execution_fields version m more)) 24 ≡ false =
          ground arith in
        rw (
          parse_int-itoa m.req_id v.req_id,
          parse_int-itoa m.order_id v.order_id,
          laws.int64 m.contract.con_id v.con_id,
          parse_f64-ryu m.contract.strike v.strike,
          parse_f64-ryu m.shares v.shares,
          parse_f64-ryu m.price v.price,
          parse_int-itoa m.perm_id v.perm_id,
          parse_int-itoa m.client_id v.client_id,
          parse_int-itoa m.liquidation v.liquidation,
          parse_f64-ryu m.cum_qty v.cum_qty,
          parse_f64-ryu m.avg_price v.avg_price,
          long_enough,
          sym v.primary_exchange,
        )

    -- An order status and an execution that the gateway spells in their documented layouts are read
    -- back field by field, where each number fits its field and each price and quantity is finite;
    -- fields behind an execution's are ignored, and it leaves the primary exchange empty.
    pub parse_inbound-fields :
        (s : OrderStatusMsg F) (x : ExecutionMsg F) (version : Text) (more : List Text)
        → IsStatus s
        → IsExecution x
        → (parse_inbound fmt (order_status_fields s) ≡ ok (order_status s))
          × (parse_inbound fmt (execution_fields version x more) ≡ ok (execution x))
    unfolding parse_inbound dispatch order_status_fields execution_fields
    parse_inbound-fields s x version more hs hx = (
      rw (parse_int-itoa (pos 3) (ground arith, ground arith)) (parse_order_status-fields s hs),
      rw (parse_int-itoa (pos 11) (ground arith, ground arith))
          (parse_execution-fields version x more hx),
    )
