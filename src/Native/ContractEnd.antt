-- ===== src/Native/ContractEnd.antt =====
-- rust/corsair_broker_ibkr_native/src/decoder.rs and messages.rs: the end of a list of contract
-- details has no message id.
use corsair.Base.{◌≡◌, ◌≢◌, refl, Bool, true, false, List, [], ◌∷◌, if◌then◌else◌}
use corsair.Base.Integers.{ℤ}
use corsair.Float.{Float}
use corsair.Codec.Fields.{Text, Formats}
use corsair.Native.Parsed.{Parsed, ok, malformed, panicked, ◌>>=◌, parse_int}
use corsair.Native.Messages.{InboundMsg, contract_details_end}
use corsair.Native.Ticks.{
  parse_tick_price, parse_tick_size, parse_tick_option_computation, parse_error,
}
use corsair.Native.Orders.{parse_order_status, parse_execution, parse_commission, parse_open_order}
use corsair.Native.Accounts.{parse_account_value, parse_position, parse_contract_details}
use corsair.Native.Decoder.{dispatch, parse_inbound}

module _ {F : Type 0} where
  abbrev is_end : InboundMsg F → Bool
  is_end (contract_details_end i) = true
  is_end m = false

  -- What is parsed is not the end of a list of contract details.
  pub record IsNoEnd (r : Parsed (InboundMsg F)) : Type 0 where
    pub apply : (i : ℤ) → r ≢ ok (contract_details_end i)

  ok-IsNoEnd : (m : InboundMsg F) → is_end m ≡ false → IsNoEnd (ok m)
  ok-IsNoEnd (contract_details_end i) h = absurd (cc h)
  ok-IsNoEnd m h = record { apply = λ i e. cc e }

  malformed-IsNoEnd : IsNoEnd malformed
  malformed-IsNoEnd = record { apply = λ i e. cc e }

  bind-IsNoEnd :
      {A : Type 0} (m : Parsed A) (g : A → Parsed (InboundMsg F))
      → ((a : A) → IsNoEnd (g a))
      → IsNoEnd (m >>= g)
  bind-IsNoEnd (ok a) g k = k a
  bind-IsNoEnd malformed g k = malformed-IsNoEnd
  bind-IsNoEnd panicked g k = record { apply = λ i e. cc e }

  if-IsNoEnd :
      (b : Bool) (r t : Parsed (InboundMsg F))
      → IsNoEnd r
      → IsNoEnd t
      → IsNoEnd (if b then r else t)
  if-IsNoEnd true r t hr ht = hr
  if-IsNoEnd false r t hr ht = ht

ruleset no_end_rules = (if-IsNoEnd, bind-IsNoEnd, ok-IsNoEnd, malformed-IsNoEnd, refl)

module _ {F : Type 0} ⦃n : Float F⦄ (fmt : Formats F) where
  parse_tick_price-IsNoEnd : (fs : List Text) → IsNoEnd (parse_tick_price fmt fs)
  unfolding parse_tick_price
  parse_tick_price-IsNoEnd fs = search no_end_rules depth 40

  parse_tick_size-IsNoEnd : (fs : List Text) → IsNoEnd (parse_tick_size fmt fs)
  unfolding parse_tick_size
  parse_tick_size-IsNoEnd fs = search no_end_rules depth 40

  parse_tick_option_computation-IsNoEnd :
      (fs : List Text) → IsNoEnd (parse_tick_option_computation fmt fs)
  unfolding parse_tick_option_computation
  parse_tick_option_computation-IsNoEnd fs = search no_end_rules depth 40

  parse_error-IsNoEnd : (fs : List Text) → IsNoEnd (parse_error fmt fs)
  unfolding parse_error
  parse_error-IsNoEnd fs = search no_end_rules depth 40

  parse_order_status-IsNoEnd : (fs : List Text) → IsNoEnd (parse_order_status fmt fs)
  unfolding parse_order_status
  parse_order_status-IsNoEnd fs = search no_end_rules depth 40

  parse_execution-IsNoEnd : (fs : List Text) → IsNoEnd (parse_execution fmt fs)
  unfolding parse_execution
  parse_execution-IsNoEnd fs = search no_end_rules depth 40

  parse_commission-IsNoEnd : (fs : List Text) → IsNoEnd (parse_commission fmt fs)
  unfolding parse_commission
  parse_commission-IsNoEnd fs = search no_end_rules depth 40

  parse_open_order-IsNoEnd : (fs : List Text) → IsNoEnd (parse_open_order fmt fs)
  unfolding parse_open_order
  parse_open_order-IsNoEnd fs = search no_end_rules depth 40

  parse_account_value-IsNoEnd : (fs : List Text) → IsNoEnd (parse_account_value fmt fs)
  unfolding parse_account_value
  parse_account_value-IsNoEnd fs = search no_end_rules depth 40

  parse_position-IsNoEnd : (fs : List Text) → IsNoEnd (parse_position fmt fs)
  unfolding parse_position
  parse_position-IsNoEnd fs = search no_end_rules depth 40

  parse_contract_details-IsNoEnd : (fs : List Text) → IsNoEnd (parse_contract_details fmt fs)
  unfolding parse_contract_details
  parse_contract_details-IsNoEnd fs = search no_end_rules depth 40

  dispatch-IsNoEnd : (ty : ℤ) (fs : List Text) → IsNoEnd (dispatch fmt ty fs)
  unfolding dispatch
  dispatch-IsNoEnd ty fs =
      search
        (
          no_end_rules, parse_tick_price-IsNoEnd, parse_tick_size-IsNoEnd,
          parse_tick_option_computation-IsNoEnd, parse_error-IsNoEnd, parse_order_status-IsNoEnd,
          parse_execution-IsNoEnd, parse_commission-IsNoEnd, parse_open_order-IsNoEnd,
          parse_account_value-IsNoEnd, parse_position-IsNoEnd, parse_contract_details-IsNoEnd,
        )
        depth 40

  -- The decoder gives no end of a list of contract details, whatever fields the gateway
  -- sends.
  pub parse_inbound-IsNoEnd : (fs : List Text) → IsNoEnd (parse_inbound fmt fs)
  unfolding parse_inbound
  parse_inbound-IsNoEnd [] = malformed-IsNoEnd
  parse_inbound-IsNoEnd (f ∷ fs) =
      bind-IsNoEnd (parse_int fmt f) _ (λ ty. dispatch-IsNoEnd ty (f ∷ fs))
