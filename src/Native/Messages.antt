-- ===== src/Native/Messages.antt =====
-- rust/corsair_broker_ibkr_native/src/types.rs: the messages from the gateway.
use corsair.Base.{List}
use corsair.Base.Integers.{ℤ}
use corsair.Codec.Fields.{Text}

pub record ContractDecoded (F : Type 0) : Type 0 where
  pub con_id : ℤ
  pub symbol : Text
  pub sec_type : Text
  pub last_trade_date : Text
  pub strike : F
  pub right : Text
  pub multiplier : Text
  pub exchange : Text
  pub primary_exchange : Text
  pub currency : Text
  pub local_symbol : Text
  pub trading_class : Text

pub record PositionMsg (F : Type 0) : Type 0 where
  pub account : Text
  pub contract : ContractDecoded F
  pub position : F
  pub avg_cost : F

pub record AccountValueMsg : Type 0 where
  pub key : Text
  pub value : Text
  pub currency : Text
  pub account : Text

pub record OpenOrderMsg (F : Type 0) : Type 0 where
  pub order_id : ℤ
  pub contract : ContractDecoded F
  pub action : Text
  pub total_quantity : F
  pub order_type : Text
  pub lmt_price : F
  pub tif : Text
  pub account : Text
  pub order_ref : Text
  pub status : Text
  pub filled : F
  pub remaining : F

pub record OrderStatusMsg (F : Type 0) : Type 0 where
  pub order_id : ℤ
  pub status : Text
  pub filled : F
  pub remaining : F
  pub avg_fill_price : F
  pub perm_id : ℤ
  pub parent_id : ℤ
  pub last_fill_price : F
  pub client_id : ℤ
  pub why_held : Text
  pub mkt_cap_price : F

pub record ExecutionMsg (F : Type 0) : Type 0 where
  pub req_id : ℤ
  pub order_id : ℤ
  pub contract : ContractDecoded F
  pub exec_id : Text
  pub time : Text
  pub account : Text
  pub exchange : Text
  pub side : Text
  pub shares : F
  pub price : F
  pub perm_id : ℤ
  pub client_id : ℤ
  pub liquidation : ℤ
  pub cum_qty : F
  pub avg_price : F
  pub order_ref : Text

pub record CommissionReportMsg (F : Type 0) : Type 0 where
  pub exec_id : Text
  pub commission : F
  pub currency : Text
  pub realized_pnl : F

pub record ContractDetailsMsg (F : Type 0) : Type 0 where
  pub req_id : ℤ
  pub contract : ContractDecoded F

pub record TickPriceMsg (F : Type 0) : Type 0 where
  pub req_id : ℤ
  pub tick_type : ℤ
  pub price : F
  pub attribs : ℤ

pub record TickSizeMsg (F : Type 0) : Type 0 where
  pub req_id : ℤ
  pub tick_type : ℤ
  pub size : F

pub record TickOptionComputationMsg (F : Type 0) : Type 0 where
  pub req_id : ℤ
  pub tick_type : ℤ
  pub tick_attrib : ℤ
  pub implied_vol : F
  pub delta : F
  pub opt_price : F
  pub pv_dividend : F
  pub gamma : F
  pub vega : F
  pub theta : F
  pub und_price : F

pub record ErrorMsg : Type 0 where
  pub req_id : ℤ
  pub error_code : ℤ
  pub error_string : Text
  pub advanced_order_reject_json : Text

pub data InboundMsg (F : Type 0) : Type 0 where
  position : PositionMsg F → InboundMsg F
  position_end : InboundMsg F
  account_value : AccountValueMsg → InboundMsg F
  account_update_time : Text → InboundMsg F
  account_download_end : Text → InboundMsg F
  open_order : OpenOrderMsg F → InboundMsg F
  open_order_end : InboundMsg F
  order_status : OrderStatusMsg F → InboundMsg F
  execution : ExecutionMsg F → InboundMsg F
  execution_end : ℤ → InboundMsg F
  commission_report : CommissionReportMsg F → InboundMsg F
  contract_details : ContractDetailsMsg F → InboundMsg F
  contract_details_end : ℤ → InboundMsg F
  tick_price : TickPriceMsg F → InboundMsg F
  tick_size : TickSizeMsg F → InboundMsg F
  tick_option_computation : TickOptionComputationMsg F → InboundMsg F
  error : ErrorMsg → InboundMsg F
  next_valid_id : ℤ → InboundMsg F
  managed_accounts : List Text → InboundMsg F
  unparsed : ℤ → List Text → InboundMsg F
