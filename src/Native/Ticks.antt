-- ===== src/Native/Ticks.antt =====
-- rust/corsair_broker_ibkr_native/src/decoder.rs: the messages on prices and errors.
use corsair.Base.{List, [], length, ltb, if◌then◌else◌}
use corsair.Base.Integers.{ℤ_eq}
use corsair.Float.{Float}
use corsair.Codec.Fields.{Text, Formats}
use corsair.Native.Parsed.{
  Parsed, ok, malformed, ◌>>=◌, field, get_text, zero_text, parse_int, int_at, float_at,
}
use corsair.Native.Messages.{InboundMsg, error, tick_option_computation, tick_price, tick_size}

module _ {F : Type 0} ⦃n : Float F⦄ (fmt : Formats F) where
  open n use {decimal}

  unfoldable pub parse_tick_price : List Text → Parsed (InboundMsg F)
  parse_tick_price fs = if ltb (length fs) 6 then malformed else do
    req_id ← int_at fmt fs 2
    tick_type ← int_at fmt fs 3
    price ← float_at fmt fs 4
    attribs ← parse_int fmt (get_text fs 6 zero_text)
    ok (
        tick_price
          (record { req_id = req_id; tick_type = tick_type; price = price; attribs = attribs }))

  unfoldable pub parse_tick_size : List Text → Parsed (InboundMsg F)
  parse_tick_size fs = if ltb (length fs) 5 then malformed else do
    req_id ← int_at fmt fs 2
    tick_type ← int_at fmt fs 3
    size ← float_at fmt fs 4
    ok (tick_size (record { req_id = req_id; tick_type = tick_type; size = size }))

  unfoldable pub parse_tick_option_computation : List Text → Parsed (InboundMsg F)
  parse_tick_option_computation fs = if ltb (length fs) 12 then malformed else do
    req_id ← int_at fmt fs 1
    tick_type ← int_at fmt fs 2
    tick_attrib ← int_at fmt fs 3
    implied_vol ← float_at fmt fs 4
    delta ← float_at fmt fs 5
    opt_price ← float_at fmt fs 6
    pv_dividend ← float_at fmt fs 7
    gamma ← float_at fmt fs 8
    vega ← float_at fmt fs 9
    theta ← float_at fmt fs 10
    und_price ← float_at fmt fs 11
    ok (
        tick_option_computation (record {
          req_id = req_id;
          tick_type = tick_type;
          tick_attrib = tick_attrib;
          implied_vol = implied_vol;
          delta = delta;
          opt_price = opt_price;
          pv_dividend = pv_dividend;
          gamma = gamma;
          vega = vega;
          theta = theta;
          und_price = und_price;
        }))

  unfoldable pub parse_error : List Text → Parsed (InboundMsg F)
  parse_error fs = if ltb (length fs) 5 then malformed else do
    req_id ← int_at fmt fs 2
    error_code ← int_at fmt fs 3
    error_string ← field fs 4
    ok (
        error (record {
          req_id = req_id;
          error_code = error_code;
          error_string = error_string;
          advanced_order_reject_json = get_text fs 5 [];
        }))
