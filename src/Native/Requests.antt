-- ===== src/Native/Requests.antt =====
-- rust/corsair_broker_ibkr_native/src/requests.rs: the requests to the gateway, with the message ids
-- of messages.rs.
use corsair.Base.{ℕ, Bool, true, false, List, [], ◌∷◌}
use corsair.Base.Integers.{ℤ, pos, negsuc}
use corsair.Float.{Float}
use corsair.Codec.{encode_fields}
use corsair.Codec.Fields.{
  Text, Formats, encode_int, encode_int64, encode_f64, encode_bool, encode_unset,
}

abbrev pub out_req_mkt_data : ℤ
out_req_mkt_data = pos 1

abbrev pub out_cancel_mkt_data : ℤ
out_cancel_mkt_data = pos 2

abbrev pub out_place_order : ℤ
out_place_order = pos 3

abbrev pub out_cancel_order : ℤ
out_cancel_order = pos 4

abbrev pub out_req_open_orders : ℤ
out_req_open_orders = pos 5

abbrev pub out_req_acct_data : ℤ
out_req_acct_data = pos 6

abbrev pub out_req_executions : ℤ
out_req_executions = pos 7

abbrev pub out_req_ids : ℤ
out_req_ids = pos 8

abbrev pub out_req_contract_data : ℤ
out_req_contract_data = pos 9

abbrev pub out_req_auto_open_orders : ℤ
out_req_auto_open_orders = pos 15

abbrev pub out_req_all_open_orders : ℤ
out_req_all_open_orders = pos 16

abbrev pub out_req_managed_accts : ℤ
out_req_managed_accts = pos 17

abbrev pub out_req_positions : ℤ
out_req_positions = pos 61

abbrev pub out_cancel_positions : ℤ
out_cancel_positions = pos 64

pub record ContractRequest (F : Type 0) : Type 0 where
  pub con_id : ℤ
  pub symbol : Text
  pub sec_type : Text
  pub last_trade_date : Text
  pub strike : F
  pub right : Text
  pub multiplier : Text
  pub exchange : Text
  pub primary_exchange : Text
  pub currency : Text
  pub local_symbol : Text
  pub trading_class : Text

pub record PlaceOrderParams (F : Type 0) : Type 0 where
  pub action : Text
  pub total_quantity : F
  pub order_type : Text
  pub lmt_price : F
  pub aux_price : F
  pub tif : Text
  pub good_till_date : Text
  pub account : Text
  pub order_ref : Text
  pub outside_rth : Bool

pub record ExecutionFilter : Type 0 where
  pub client_id : ℤ
  pub account : Text
  pub time : Text
  pub symbol : Text
  pub sec_type : Text
  pub exchange : Text
  pub side : Text

unfoldable pub encode_owned : List Text → List ℕ
unfolding encode_fields
encode_owned fields = encode_fields fields

unfoldable pub frame : List Text → List ℕ
unfolding encode_owned
frame fields = encode_owned fields

module _ {F : Type 0} ⦃n : Float F⦄ (fmt : Formats F) where
  open n use {decimal}

  unfoldable pub req_account_updates : Bool → Text → List ℕ
  req_account_updates subscribe account =
      frame (encode_int fmt out_req_acct_data ∷ (b'2' ∷ []) ∷ encode_bool subscribe ∷ account ∷ [])

  unfoldable pub req_positions : List ℕ
  req_positions = frame (encode_int fmt out_req_positions ∷ (b'1' ∷ []) ∷ [])

  unfoldable pub cancel_positions : List ℕ
  cancel_positions = frame (encode_int fmt out_cancel_positions ∷ (b'1' ∷ []) ∷ [])

  unfoldable pub req_open_orders : List ℕ
  req_open_orders = frame (encode_int fmt out_req_open_orders ∷ (b'1' ∷ []) ∷ [])

  unfoldable pub req_all_open_orders : List ℕ
  req_all_open_orders = frame (encode_int fmt out_req_all_open_orders ∷ (b'1' ∷ []) ∷ [])

  unfoldable pub req_auto_open_orders : Bool → List ℕ
  req_auto_open_orders auto_bind =
      frame (encode_int fmt out_req_auto_open_orders ∷ (b'1' ∷ []) ∷ encode_bool auto_bind ∷ [])

  unfoldable pub req_managed_accounts : List ℕ
  req_managed_accounts = frame (encode_int fmt out_req_managed_accts ∷ (b'1' ∷ []) ∷ [])

  unfoldable pub req_ids : ℤ → List ℕ
  req_ids num = frame (encode_int fmt out_req_ids ∷ (b'1' ∷ []) ∷ encode_int fmt num ∷ [])

  unfoldable pub req_contract_details : ℤ → ContractRequest F → List ℕ
  req_contract_details req_id c = frame (
      encode_int fmt out_req_contract_data
      ∷ (b'8' ∷ [])
      ∷ encode_int fmt req_id
      ∷ encode_int64 fmt c.con_id
      ∷ c.symbol
      ∷ c.sec_type
      ∷ c.last_trade_date
      ∷ encode_f64 fmt c.strike
      ∷ c.right
      ∷ c.multiplier
      ∷ c.exchange
      ∷ c.primary_exchange
      ∷ c.currency
      ∷ c.local_symbol
      ∷ c.trading_class
      ∷ encode_bool false
      ∷ encode_unset
      ∷ encode_unset
      ∷ encode_unset
      ∷ [])

  unfoldable pub req_mkt_data : ℤ → ContractRequest F → Text → Bool → Bool → List ℕ
  req_mkt_data req_id c generic_tick_list snapshot regulatory_snapshot = frame (
      encode_int fmt out_req_mkt_data
      ∷ (b'1' ∷ b'1' ∷ [])
      ∷ encode_int fmt req_id
      ∷ encode_int64 fmt c.con_id
      ∷ c.symbol
      ∷ c.sec_type
      ∷ c.last_trade_date
      ∷ encode_f64 fmt c.strike
      ∷ c.right
      ∷ c.multiplier
      ∷ c.exchange
      ∷ c.primary_exchange
      ∷ c.currency
      ∷ c.local_symbol
      ∷ c.trading_class
      ∷ encode_unset
      ∷ generic_tick_list
      ∷ encode_bool snapshot
      ∷ encode_bool regulatory_snapshot
      ∷ encode_unset
      ∷ [])

  unfoldable pub cancel_mkt_data : ℤ → List ℕ
  cancel_mkt_data req_id =
      frame (encode_int fmt out_cancel_mkt_data ∷ (b'2' ∷ []) ∷ encode_int fmt req_id ∷ [])

  unfoldable pub cancel_order : ℤ → List ℕ
  cancel_order order_id =
      frame (
        encode_int fmt out_cancel_order ∷ (b'1' ∷ []) ∷ encode_int fmt order_id ∷ encode_unset ∷ [])

  unfoldable pub req_executions : ℤ → ExecutionFilter → List ℕ
  req_executions req_id f = frame (
      encode_int fmt out_req_executions
      ∷ (b'3' ∷ [])
      ∷ encode_int fmt req_id
      ∷ encode_int fmt f.client_id
      ∷ f.account
      ∷ f.time
      ∷ f.symbol
      ∷ f.sec_type
      ∷ f.exchange
      ∷ f.side
      ∷ [])

  -- The fields of `place_order`.
  unfoldable pub place_order_fields : ℤ → ContractRequest F → PlaceOrderParams F → List Text
  place_order_fields order_id c p =
      encode_int fmt out_place_order
      ∷ encode_int fmt order_id
      ∷ encode_int64 fmt c.con_id
      ∷ c.symbol
      ∷ c.sec_type
      ∷ c.last_trade_date
      ∷ encode_f64 fmt c.strike
      ∷ c.right
      ∷ c.multiplier
      ∷ c.exchange
      ∷ c.primary_exchange
      ∷ c.currency
      ∷ c.local_symbol
      ∷ c.trading_class
      ∷ encode_unset
      ∷ encode_unset
      ∷ p.action
      ∷ encode_f64 fmt p.total_quantity
      ∷ p.order_type
      ∷ encode_f64 fmt p.lmt_price
      ∷ encode_f64 fmt p.aux_price
      ∷ p.tif
      ∷ encode_unset
      ∷ p.account
      ∷ encode_unset
      ∷ encode_int fmt (pos 0)
      ∷ p.order_ref
      ∷ encode_bool true
      ∷ encode_int fmt (pos 0)
      ∷ encode_bool false
      ∷ encode_bool false
      ∷ encode_int fmt (pos 0)
      ∷ encode_int fmt (pos 0)
      ∷ encode_bool p.outside_rth
      ∷ encode_bool false
      ∷ encode_unset
      ∷ encode_f64 fmt (decimal 0 1)
      ∷ p.good_till_date
      ∷ encode_unset
      ∷ encode_unset
      ∷ encode_unset
      ∷ encode_unset
      ∷ encode_unset
      ∷ encode_unset
      ∷ encode_unset
      ∷ encode_unset
      ∷ encode_int fmt (negsuc 0)
      ∷ encode_int fmt (pos 0)
      ∷ encode_unset
      ∷ encode_unset
      ∷ encode_bool false
      ∷ encode_unset
      ∷ encode_unset
      ∷ encode_bool false
      ∷ encode_bool false
      ∷ encode_unset
      ∷ encode_int fmt (pos 0)
      ∷ encode_unset
      ∷ encode_unset
      ∷ encode_unset
      ∷ encode_unset
      ∷ encode_unset
      ∷ encode_bool false
      ∷ encode_unset
      ∷ encode_unset
      ∷ encode_unset
      ∷ encode_unset
      ∷ encode_unset
      ∷ encode_unset
      ∷ encode_unset
      ∷ encode_unset
      ∷ encode_unset
      ∷ encode_unset
      ∷ encode_unset
      ∷ encode_unset
      ∷ encode_unset
      ∷ encode_unset
      ∷ encode_unset
      ∷ encode_bool false
      ∷ encode_bool false
      ∷ encode_unset
      ∷ encode_bool false
      ∷ encode_unset
      ∷ encode_unset
      ∷ encode_bool false
      ∷ encode_bool false
      ∷ encode_unset
      ∷ encode_bool false
      ∷ encode_unset
      ∷ encode_unset
      ∷ encode_unset
      ∷ encode_int fmt (pos 0)
      ∷ encode_unset
      ∷ encode_unset
      ∷ encode_unset
      ∷ encode_unset
      ∷ encode_unset
      ∷ encode_unset
      ∷ encode_unset
      ∷ encode_unset
      ∷ encode_int fmt (pos 0)
      ∷ encode_unset
      ∷ encode_unset
      ∷ encode_unset
      ∷ encode_unset
      ∷ encode_unset
      ∷ encode_unset
      ∷ encode_unset
      ∷ encode_unset
      ∷ encode_bool false
      ∷ encode_bool false
      ∷ encode_bool false
      ∷ encode_unset
      ∷ encode_int fmt (pos 0)
      ∷ encode_int fmt (pos 0)
      ∷ encode_unset
      ∷ encode_unset
      ∷ encode_unset
      ∷ []

  unfoldable pub place_order : ℤ → ContractRequest F → PlaceOrderParams F → List ℕ
  unfolding place_order_fields
  place_order order_id c p = encode_owned (place_order_fields order_id c p)
