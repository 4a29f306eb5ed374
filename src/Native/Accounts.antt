-- ===== src/Native/Accounts.antt =====
-- rust/corsair_broker_ibkr_native/src/decoder.rs: the messages on accounts, positions and contracts.
use corsair.Base.{List, [], length, ltb, if◌then◌else◌}
use corsair.Base.Integers.{ℤ_eq}
use corsair.Float.{Float}
use corsair.Codec.Fields.{Text, Formats}
use corsair.Native.Parsed.{
  Parsed, ok, malformed, ◌>>=◌, field, get_text, int_at, int64_at, float_at,
}
use corsair.Native.Messages.{InboundMsg, account_value, contract_details, position}

module _ {F : Type 0} ⦃n : Float F⦄ (fmt : Formats F) where
  open n use {decimal}

  unfoldable pub parse_account_value : List Text → Parsed (InboundMsg F)
  parse_account_value fs = if ltb (length fs) 6 then malformed else do
    key ← field fs 2
    value ← field fs 3
    currency ← field fs 4
    account ← field fs 5
    ok (account_value (record { key = key; value = value; currency = currency; account = account }))

  unfoldable pub parse_position : List Text → Parsed (InboundMsg F)
  parse_position fs = if ltb (length fs) 16 then malformed else do
    account ← field fs 2
    con_id ← int64_at fmt fs 3
    symbol ← field fs 4
    sec_type ← field fs 5
    last_trade_date ← field fs 6
    strike ← float_at fmt fs 7
    right ← field fs 8
    multiplier ← field fs 9
    exchange ← field fs 10
    currency ← field fs 11
    local_symbol ← field fs 12
    trading_class ← field fs 13
    held ← float_at fmt fs 14
    avg_cost ← float_at fmt fs 15
    ok (
        position (record {
          account = account;
          contract = record {
            con_id = con_id;
            symbol = symbol;
            sec_type = sec_type;
            last_trade_date = last_trade_date;
            strike = strike;
            right = right;
            multiplier = multiplier;
            exchange = exchange;
            primary_exchange = [];
            currency = currency;
            local_symbol = local_symbol;
            trading_class = trading_class;
          };
          position = held;
          avg_cost = avg_cost;
        }))

  unfoldable pub parse_contract_details : List Text → Parsed (InboundMsg F)
  parse_contract_details fs = if ltb (length fs) 13 then malformed else do
    req_id ← int_at fmt fs 1
    symbol ← field fs 2
    sec_type ← field fs 3
    last_trade_date ← field fs 4
    strike ← float_at fmt fs 5
    right ← field fs 6
    exchange ← field fs 7
    currency ← field fs 8
    local_symbol ← field fs 9
    trading_class ← field fs 11
    con_id ← int64_at fmt fs 12
    ok (
        contract_details (record {
          req_id = req_id;
          contract = record {
            symbol = symbol;
            sec_type = sec_type;
            last_trade_date = last_trade_date;
            strike = strike;
            right = right;
            exchange = exchange;
            currency = currency;
            local_symbol = local_symbol;
            trading_class = trading_class;
            con_id = con_id;
            multiplier = get_text fs 15 [];
            primary_exchange = [];
          };
        }))
