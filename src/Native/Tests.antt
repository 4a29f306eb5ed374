-- ===== src/Native/Tests.antt =====
-- A concrete printer, and the theorems about requests and messages at concrete ones.
use corsair.Base.{
  ◌+◌, ◌-◌, ◌≡◌, ◌≢◌, refl, true, false, Option, none, some, [], ◌∷◌, arith, if◌then◌else◌, leb,
}
use corsair.Base.Integers.{ℤ, pos, negsuc}
use corsair.Float.{Fixed, fixed_float}
use corsair.Codec.Fields.{Text, Formats, text_beq}
use corsair.Native.Requests.{ContractRequest, PlaceOrderParams, place_order}
use corsair.Native.Template.{from_contract, place_order_fast}
use corsair.Native.SameFrame.{place_order_fast-place_order}
use corsair.Native.Parsed.{ok}
use corsair.Native.Messages.{OrderStatusMsg, ExecutionMsg, ContractDecoded, order_status, execution}
use corsair.Native.Decoder.{parse_inbound}
use corsair.Native.ContractEnd.{IsNoEnd, parse_inbound-IsNoEnd}
use corsair.Native.NoPanic.{NoPanic, parse_inbound-NoPanic}
use corsair.Native.Decoded.{
  IsReadBack, IsStatus, IsExecution, order_status_fields, execution_fields, parse_inbound-fields,
}

-- One symbol for each number: the digit's code for a number up to nine.
abbrev print_int : ℤ → Text
print_int (pos k) = (48 + k) ∷ []
print_int (negsuc k) = b'-' ∷ k ∷ []

abbrev read_int : Text → Option ℤ
read_int (c ∷ []) = if leb 48 c then some (pos (c - 48)) else none
read_int (c ∷ k ∷ []) = some (negsuc k)
read_int _ = none

abbrev print_fixed : Fixed → Text
print_fixed none = b'N' ∷ []
print_fixed (some a) = b'.' ∷ print_int a

abbrev read_fixed : Text → Option Fixed
read_fixed [] = none
read_fixed (c ∷ []) = some none
read_fixed (c ∷ d ∷ s) = elim (read_int (d ∷ s)) [ none ↦ none | some a ↦ some (some a) ]

abbrev formats : Formats Fixed
formats = record {
  itoa = print_int;
  i64_to_string = print_int;
  ryu = print_fixed;
  is_infinite = λ v. false;
  parse_i32 = read_int;
  parse_i64 = read_int;
  parse_decimal = read_fixed;
}

read_int-print_int : (v : ℤ) → read_int (print_int v) ≡ some v
read_int-print_int (pos k) = ground arith
read_int-print_int (negsuc k) = refl

read_fixed-print_fixed : (v : Fixed) → read_fixed (print_fixed v) ≡ some v
read_fixed-print_fixed none = refl
read_fixed-print_fixed (some (pos k)) = ground arith
read_fixed-print_fixed (some (negsuc k)) = refl

not_empty : (v : Fixed) → print_fixed v ≢ []
not_empty none e = cc e
not_empty (some a) e = cc e

not_infinite :
    (v : Fixed)
    → text_beq (print_fixed v) (b'I' ∷ 110 ∷ 102 ∷ 105 ∷ 110 ∷ 105 ∷ 116 ∷ 101 ∷ []) ≡ false
not_infinite none = refl
not_infinite (some a) = refl

formats-IsReadBack : IsReadBack formats
formats-IsReadBack = record {
  int = λ v h. read_int-print_int v;
  int64 = λ v h. read_int-print_int v;
  float = λ v h. read_fixed-print_fixed v;
  not_empty = λ v h. not_empty v;
  not_infinite = λ v h. not_infinite v;
}

abbrev contract : ContractRequest Fixed
contract = record {
  con_id = pos 5;
  symbol = b'H' ∷ b'G' ∷ [];
  sec_type = b'F' ∷ b'O' ∷ b'P' ∷ [];
  last_trade_date = [];
  strike = some (pos 60_500);
  right = b'C' ∷ [];
  multiplier = [];
  exchange = [];
  primary_exchange = [];
  currency = [];
  local_symbol = [];
  trading_class = [];
}

abbrev order : PlaceOrderParams Fixed
order = record {
  action = b'B' ∷ [];
  total_quantity = some (pos 10_000);
  order_type = b'L' ∷ [];
  lmt_price = some (pos 250);
  aux_price = some (pos 0);
  tif = b'G' ∷ [];
  good_till_date = [];
  account = b'A' ∷ [];
  order_ref = [];
  outside_rth = true;
}

place_order_fast-place_order_example :
    place_order_fast formats (pos 7) (from_contract formats contract) order
    ≡ place_order formats (pos 7) contract order
place_order_fast-place_order_example =
    place_order_fast-place_order formats (pos 7) contract order refl refl

-- An execution of two fields only is refused.
parse_inbound-NoPanic_example : NoPanic (parse_inbound formats ((59 ∷ []) ∷ (49 ∷ []) ∷ []))
parse_inbound-NoPanic_example = parse_inbound-NoPanic formats ((59 ∷ []) ∷ (49 ∷ []) ∷ [])

-- The message 52, which ends the contract details, is left unparsed.
parse_inbound-IsNoEnd_example : IsNoEnd (parse_inbound formats ((53 ∷ 50 ∷ []) ∷ (49 ∷ []) ∷ []))
parse_inbound-IsNoEnd_example = parse_inbound-IsNoEnd formats ((53 ∷ 50 ∷ []) ∷ (49 ∷ []) ∷ [])

abbrev status : OrderStatusMsg Fixed
status = record {
  order_id = pos 7;
  status = b'F' ∷ [];
  filled = some (pos 10_000);
  remaining = some (pos 0);
  avg_fill_price = some (pos 250);
  perm_id = pos 9;
  parent_id = pos 0;
  last_fill_price = some (pos 250);
  client_id = pos 1;
  why_held = [];
  mkt_cap_price = some (pos 0);
}

abbrev decoded : ContractDecoded Fixed
decoded = record {
  con_id = pos 5;
  symbol = b'H' ∷ b'G' ∷ [];
  sec_type = [];
  last_trade_date = [];
  strike = some (pos 60_500);
  right = b'C' ∷ [];
  multiplier = [];
  exchange = [];
  primary_exchange = [];
  currency = [];
  local_symbol = [];
  trading_class = [];
}

abbrev fill : ExecutionMsg Fixed
fill = record {
  req_id = pos 0;
  order_id = pos 7;
  contract = decoded;
  exec_id = b'x' ∷ [];
  time = [];
  account = [];
  exchange = [];
  side = b'B' ∷ [];
  shares = some (pos 10_000);
  price = some (pos 250);
  perm_id = pos 9;
  client_id = pos 1;
  liquidation = pos 0;
  cum_qty = some (pos 10_000);
  avg_price = some (pos 250);
  order_ref = [];
}

status-IsStatus : IsStatus formats status
status-IsStatus = ground arith

fill-IsExecution : IsExecution formats fill
fill-IsExecution = ground arith

parse_inbound-fields_example :
    (parse_inbound formats (order_status_fields formats status) ≡ ok (order_status status))
    × (parse_inbound formats (execution_fields formats [] fill []) ≡ ok (execution fill))
parse_inbound-fields_example =
    parse_inbound-fields formats formats-IsReadBack status fill [] [] status-IsStatus
      fill-IsExecution
