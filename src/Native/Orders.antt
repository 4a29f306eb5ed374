-- ===== src/Native/Orders.antt =====
-- rust/corsair_broker_ibkr_native/src/decoder.rs: the messages on orders and executions.
use corsair.Base.{List, [], length, ltb, if◌then◌else◌}
use corsair.Base.Integers.{ℤ_eq}
use corsair.Float.{Float}
use corsair.Codec.Fields.{Text, Formats}
use corsair.Native.Parsed.{
  Parsed, ok, malformed, ◌>>=◌, field, get_text, zero_text, parse_int, parse_f64, int_at, int64_at,
  float_at,
}
use corsair.Native.Messages.{InboundMsg, commission_report, execution, open_order, order_status}

module _ {F : Type 0} ⦃n : Float F⦄ (fmt : Formats F) where
  open n use {decimal}

  unfoldable pub parse_order_status : List Text → Parsed (InboundMsg F)
  parse_order_status fs = if ltb (length fs) 12 then malformed else do
    order_id ← int_at fmt fs 1
    status ← field fs 2
    filled ← float_at fmt fs 3
    remaining ← float_at fmt fs 4
    avg_fill_price ← float_at fmt fs 5
    perm_id ← int_at fmt fs 6
    parent_id ← int_at fmt fs 7
    last_fill_price ← float_at fmt fs 8
    client_id ← int_at fmt fs 9
    why_held ← field fs 10
    mkt_cap_price ← float_at fmt fs 11
    ok (
        order_status (record {
          order_id = order_id;
          status = status;
          filled = filled;
          remaining = remaining;
          avg_fill_price = avg_fill_price;
          perm_id = perm_id;
          parent_id = parent_id;
          last_fill_price = last_fill_price;
          client_id = client_id;
          why_held = why_held;
          mkt_cap_price = mkt_cap_price;
        }))

  unfoldable pub parse_execution : List Text → Parsed (InboundMsg F)
  parse_execution fs = if ltb (length fs) 24 then malformed else do
    req_id ← int_at fmt fs 2
    order_id ← int_at fmt fs 3
    con_id ← int64_at fmt fs 4
    symbol ← field fs 5
    sec_type ← field fs 6
    last_trade_date ← field fs 7
    strike ← float_at fmt fs 8
    right ← field fs 9
    multiplier ← field fs 10
    contract_exchange ← field fs 11
    currency ← field fs 12
    local_symbol ← field fs 13
    trading_class ← field fs 14
    exec_id ← field fs 15
    time ← field fs 16
    account ← field fs 17
    exchange ← field fs 18
    side ← field fs 19
    shares ← float_at fmt fs 20
    price ← float_at fmt fs 21
    perm_id ← int_at fmt fs 22
    client_id ← int_at fmt fs 23
    liquidation ← parse_int fmt (get_text fs 24 zero_text)
    cum_qty ← parse_f64 fmt (get_text fs 25 zero_text)
    avg_price ← parse_f64 fmt (get_text fs 26 zero_text)
    ok (
        execution (record {
          req_id = req_id;
          order_id = order_id;
          contract = record {
            con_id = con_id;
            symbol = symbol;
            sec_type = sec_type;
            last_trade_date = last_trade_date;
            strike = strike;
            right = right;
            multiplier = multiplier;
            exchange = contract_exchange;
            currency = currency;
            local_symbol = local_symbol;
            trading_class = trading_class;
            primary_exchange = [];
          };
          exec_id = exec_id;
          time = time;
          account = account;
          exchange = exchange;
          side = side;
          shares = shares;
          price = price;
          perm_id = perm_id;
          client_id = client_id;
          liquidation = liquidation;
          cum_qty = cum_qty;
          avg_price = avg_price;
          order_ref = get_text fs 27 [];
        }))

  unfoldable pub parse_commission : List Text → Parsed (InboundMsg F)
  parse_commission fs = if ltb (length fs) 6 then malformed else do
    exec_id ← field fs 2
    commission ← float_at fmt fs 3
    currency ← field fs 4
    realized_pnl ← float_at fmt fs 5
    ok (
        commission_report (record {
          exec_id = exec_id;
          commission = commission;
          currency = currency;
          realized_pnl = realized_pnl;
        }))

  unfoldable pub parse_open_order : List Text → Parsed (InboundMsg F)
  parse_open_order fs = if ltb (length fs) 17 then malformed else do
    order_id ← int_at fmt fs 1
    con_id ← int64_at fmt fs 2
    symbol ← field fs 3
    sec_type ← field fs 4
    last_trade_date ← field fs 5
    strike ← float_at fmt fs 6
    right ← field fs 7
    multiplier ← field fs 8
    exchange ← field fs 9
    currency ← field fs 10
    local_symbol ← field fs 11
    trading_class ← field fs 12
    action ← field fs 13
    total_quantity ← float_at fmt fs 14
    order_type ← field fs 15
    lmt_price ← float_at fmt fs 16
    ok (
        open_order (record {
          order_id = order_id;
          contract = record {
            con_id = con_id;
            symbol = symbol;
            sec_type = sec_type;
            last_trade_date = last_trade_date;
            strike = strike;
            right = right;
            multiplier = multiplier;
            exchange = exchange;
            currency = currency;
            local_symbol = local_symbol;
            trading_class = trading_class;
            primary_exchange = [];
          };
          action = action;
          total_quantity = total_quantity;
          order_type = order_type;
          lmt_price = lmt_price;
          tif = get_text fs 18 [];
          account = get_text fs 20 [];
          order_ref = get_text fs 23 [];
          status = [];
          filled = decimal 0 1;
          remaining = decimal 0 1;
        }))
