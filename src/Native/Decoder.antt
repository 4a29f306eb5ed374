-- ===== src/Native/Decoder.antt =====
-- rust/corsair_broker_ibkr_native/src/decoder.rs: one message from the fields of its frame, by its id.
use corsair.Base.{List, [], ◌∷◌, if◌then◌else◌, ◌==◌}
use corsair.Base.Integers.{ℤ, pos, ℤ_eq}
use corsair.Float.{Float}
use corsair.Codec.Fields.{Text, Formats}
use corsair.Native.Parsed.{Parsed, ok, malformed, ◌>>=◌, get_text, zero_text, parse_int, accounts}
use corsair.Native.Messages.{
  InboundMsg, account_download_end, account_update_time, execution_end, managed_accounts,
  next_valid_id, open_order_end, position_end, unparsed,
}
use corsair.Native.Ticks.{
  parse_tick_price, parse_tick_size, parse_tick_option_computation, parse_error,
}
use corsair.Native.Orders.{parse_order_status, parse_execution, parse_commission, parse_open_order}
use corsair.Native.Accounts.{parse_account_value, parse_position, parse_contract_details}

abbrev pub in_tick_price : ℤ
in_tick_price = pos 1

abbrev pub in_tick_size : ℤ
in_tick_size = pos 2

abbrev pub in_order_status : ℤ
in_order_status = pos 3

abbrev pub in_err_msg : ℤ
in_err_msg = pos 4

abbrev pub in_open_order : ℤ
in_open_order = pos 5

abbrev pub in_acct_value : ℤ
in_acct_value = pos 6

abbrev pub in_portfolio_value : ℤ
in_portfolio_value = pos 7

abbrev pub in_acct_update_time : ℤ
in_acct_update_time = pos 8

abbrev pub in_next_valid_id : ℤ
in_next_valid_id = pos 9

abbrev pub in_contract_data : ℤ
in_contract_data = pos 10

abbrev pub in_execution_data : ℤ
in_execution_data = pos 11

abbrev pub in_managed_accts : ℤ
in_managed_accts = pos 15

abbrev pub in_tick_option_computation : ℤ
in_tick_option_computation = pos 21

abbrev pub in_commission_report : ℤ
in_commission_report = pos 59

abbrev pub in_position_data : ℤ
in_position_data = pos 61

abbrev pub in_position_end : ℤ
in_position_end = pos 62

abbrev pub in_open_order_end : ℤ
in_open_order_end = pos 53

abbrev pub in_account_download_end : ℤ
in_account_download_end = pos 54

abbrev pub in_execution_data_end : ℤ
in_execution_data_end = pos 55

module _ {F : Type 0} ⦃n : Float F⦄ (fmt : Formats F) where
  -- The `match` of `parse_inbound`.
  unfoldable pub dispatch : ℤ → List Text → Parsed (InboundMsg F)
  dispatch ty fs =
      if ty == in_tick_price
      then parse_tick_price fmt fs
      else if ty == in_tick_size
      then parse_tick_size fmt fs
      else if ty == in_tick_option_computation
      then parse_tick_option_computation fmt fs
      else if ty == in_order_status
      then parse_order_status fmt fs
      else if ty == in_err_msg
      then parse_error fmt fs
      else if ty == in_open_order
      then parse_open_order fmt fs
      else if ty == in_acct_value
      then parse_account_value fmt fs
      else if ty == in_portfolio_value
      then ok (unparsed ty fs)
      else if ty == in_acct_update_time
      then ok (account_update_time (get_text fs 2 []))
      else if ty == in_next_valid_id
      then (do order_id ← parse_int fmt (get_text fs 2 zero_text); ok (next_valid_id order_id))
      else if ty == in_contract_data
      then parse_contract_details fmt fs
      else if ty == in_execution_data
      then parse_execution fmt fs
      else if ty == in_managed_accts
      then ok (managed_accounts (accounts (get_text fs 2 [])))
      else if ty == in_commission_report
      then parse_commission fmt fs
      else if ty == in_position_data
      then parse_position fmt fs
      else if ty == in_position_end
      then ok position_end
      else if ty == in_open_order_end
      then ok open_order_end
      else if ty == in_account_download_end
      then ok (account_download_end (get_text fs 2 []))
      else if ty == in_execution_data_end
      then (do req_id ← parse_int fmt (get_text fs 2 zero_text); ok (execution_end req_id))
      else ok (unparsed ty fs)

  unfoldable pub parse_inbound : List Text → Parsed (InboundMsg F)
  unfolding dispatch
  parse_inbound [] = malformed
  parse_inbound (f ∷ fs) = parse_int fmt f >>= λ ty. dispatch ty (f ∷ fs)
