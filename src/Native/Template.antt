-- ===== src/Native/Template.antt =====
-- rust/corsair_broker_ibkr_native/src/place_template.rs: the order request spliced together from
-- parts that were encoded before.
use corsair.Base.{ℕ, ◌%◌, ◌^◌, false, List, [], ◌∷◌, ◌++◌, length, if◌then◌else◌}
use corsair.Base.Integers.{ℤ, pos, negsuc}
use corsair.Float.{Float}
use corsair.Framing.{to_be_bytes}
use corsair.Codec.Fields.{
  Text, Formats, encode_int, encode_f64, encode_bool, encode_unset, write_int, write_f64,
}
use corsair.Native.Requests.{ContractRequest, PlaceOrderParams, out_place_order}

pub record ContractTemplate : Type 0 where
  pub bytes : List ℕ

unfoldable pub push_field : List ℕ → List ℕ → List ℕ
push_field buf bytes = (buf ++ bytes) ++ (0 ∷ [])

-- Several calls of `push_field`, in order; also the loop of `from_contract` and `trailing_bytes`.
unfoldable pub push_fields : List ℕ → List (List ℕ) → List ℕ
unfolding push_field
push_fields buf [] = buf
push_fields buf (f ∷ fs) = push_fields (push_field buf f) fs

-- `write_f64` and the zero byte behind it
unfoldable pub push_float : {F : Type 0} → Formats F → List ℕ → F → List ℕ
push_float fmt buf v = write_f64 fmt buf v ++ (0 ∷ [])

unfoldable pub push_int : {F : Type 0} → Formats F → List ℕ → ℤ → List ℕ
push_int fmt buf v = write_int fmt buf v ++ (0 ∷ [])

unfoldable pub encode_int_long : {F : Type 0} → Formats F → ℤ → Text
encode_int_long fmt v = fmt.i64_to_string v

module _ {F : Type 0} ⦃n : Float F⦄ (fmt : Formats F) where
  open n use {decimal}

  unfoldable pub contract_fields : ContractRequest F → List Text
  contract_fields c =
      encode_int_long fmt c.con_id
      ∷ c.symbol
      ∷ c.sec_type
      ∷ c.last_trade_date
      ∷ encode_f64 fmt c.strike
      ∷ c.right
      ∷ c.multiplier
      ∷ c.exchange
      ∷ c.primary_exchange
      ∷ c.currency
      ∷ c.local_symbol
      ∷ c.trading_class
      ∷ encode_unset
      ∷ encode_unset
      ∷ []

  unfoldable pub from_contract : ContractRequest F → ContractTemplate
  from_contract c = record { bytes = push_fields [] (contract_fields c) }

  unfoldable pub trailing_fields : List Text
  trailing_fields =
      encode_int fmt (negsuc 0)
      ∷ encode_int fmt (pos 0)
      ∷ encode_unset
      ∷ encode_unset
      ∷ encode_bool false
      ∷ encode_unset
      ∷ encode_unset
      ∷ encode_bool false
      ∷ encode_bool false
      ∷ encode_unset
      ∷ encode_int fmt (pos 0)
      ∷ encode_unset
      ∷ encode_unset
      ∷ encode_unset
      ∷ encode_unset
      ∷ encode_unset
      ∷ encode_bool false
      ∷ encode_unset
      ∷ encode_unset
      ∷ encode_unset
      ∷ encode_unset
      ∷ encode_unset
      ∷ encode_unset
      ∷ encode_unset
      ∷ encode_unset
      ∷ encode_unset
      ∷ encode_unset
      ∷ encode_unset
      ∷ encode_unset
      ∷ encode_unset
      ∷ encode_unset
      ∷ encode_unset
      ∷ encode_bool false
      ∷ encode_bool false
      ∷ encode_unset
      ∷ encode_bool false
      ∷ encode_unset
      ∷ encode_unset
      ∷ encode_bool false
      ∷ encode_bool false
      ∷ encode_unset
      ∷ encode_bool false
      ∷ encode_unset
      ∷ encode_unset
      ∷ encode_unset
      ∷ encode_int fmt (pos 0)
      ∷ encode_unset
      ∷ encode_unset
      ∷ encode_unset
      ∷ encode_unset
      ∷ encode_unset
      ∷ encode_unset
      ∷ encode_unset
      ∷ encode_unset
      ∷ encode_int fmt (pos 0)
      ∷ encode_unset
      ∷ encode_unset
      ∷ encode_unset
      ∷ encode_unset
      ∷ encode_unset
      ∷ encode_unset
      ∷ encode_unset
      ∷ encode_unset
      ∷ encode_bool false
      ∷ encode_bool false
      ∷ encode_bool false
      ∷ encode_unset
      ∷ encode_int fmt (pos 0)
      ∷ encode_int fmt (pos 0)
      ∷ encode_unset
      ∷ encode_unset
      ∷ encode_unset
      ∷ []

  unfoldable pub trailing_bytes : List ℕ
  trailing_bytes = push_fields [] trailing_fields

  -- The payload of `place_order_fast`, statement by statement.
  unfoldable pub fast_payload : ℤ → ContractTemplate → PlaceOrderParams F → List ℕ
  fast_payload order_id template p =
      let b1 = push_int fmt (push_int fmt [] out_place_order) order_id in
      let b2 = b1 ++ template.bytes in
      let b3 = push_float fmt (push_field b2 p.action) p.total_quantity in
      let b4 = push_float fmt (push_field b3 p.order_type) p.lmt_price in
      let b5 = push_float fmt b4 p.aux_price in
      let b6 = push_fields b5 (
        p.tif
        ∷ []
        ∷ p.account
        ∷ []
        ∷ (b'0' ∷ [])
        ∷ p.order_ref
        ∷ (b'1' ∷ [])
        ∷ (b'0' ∷ [])
        ∷ (b'0' ∷ [])
        ∷ (b'0' ∷ [])
        ∷ (b'0' ∷ [])
        ∷ (b'0' ∷ [])
        ∷ []) in
      let b7 = push_field b6 (if p.outside_rth then b'1' ∷ [] else b'0' ∷ []) in
      let b8 = push_fields b7 ((b'0' ∷ []) ∷ [] ∷ []) in
      let b9 = push_float fmt b8 (decimal 0 1) in
      let b10 = push_fields b9 (p.good_till_date ∷ [] ∷ [] ∷ [] ∷ [] ∷ [] ∷ [] ∷ [] ∷ [] ∷ []) in
      b10 ++ trailing_bytes

  unfoldable pub place_order_fast : ℤ → ContractTemplate → PlaceOrderParams F → List ℕ
  place_order_fast order_id template p =
      let payload = fast_payload order_id template p in
      to_be_bytes (length payload % 2 ^ 32) ++ payload
