-- ===== src/Native/SameFrame.antt =====
-- rust/corsair_broker_ibkr_native/src: the fast order request is the plain one.
use corsair.Base.{
  ℕ, ◌%◌, ◌^◌, ◌≡◌, refl, sym, ap, ◌∙◌, List, [], ◌∷◌, ◌++◌, length, append_assoc, append-nil,
  arith,
}
use corsair.Base.Integers.{ℤ, pos}
use corsair.Float.{Float}
use corsair.Framing.{to_be_bytes}
use corsair.Codec.{payload, encode_fields}
use corsair.Codec.Fields.{
  Text, Formats, encode_int, encode_int64, encode_f64, encode_bool, write_int, write_f64,
}
use corsair.Native.Requests.{
  ContractRequest, PlaceOrderParams, out_place_order, place_order, place_order_fields, encode_owned,
}
use corsair.Native.Template.{
  push_field, push_fields, push_float, push_int, contract_fields, from_contract, trailing_fields,
  trailing_bytes, fast_payload, place_order_fast, encode_int_long,
}

push_fields-payload : (buf : List ℕ) (fs : List Text) → push_fields buf fs ≡ buf ++ payload fs
unfolding push_fields push_field
push_fields-payload buf [] = sym (append-nil buf)
push_fields-payload buf (f ∷ fs) =
    push_fields-payload ((buf ++ f) ++ (0 ∷ [])) fs ∙ simp append_assoc

payload-append : (fs gs : List Text) → payload (fs ++ gs) ≡ payload fs ++ payload gs
payload-append [] gs = refl
payload-append (f ∷ fs) gs =
    ap (◌++◌ (f ++ (0 ∷ []))) (payload-append fs gs)
    ∙ sym (append_assoc (f ++ (0 ∷ [])) (payload fs) (payload gs))

-- A buffer that is the encoding of some fields.
record Spells (buf : List ℕ) (fs : List Text) : Type 0 where
  text : buf ≡ payload fs

module _ {F : Type 0} ⦃n : Float F⦄ (fmt : Formats F) where
  write_f64_lem : (buf : List ℕ) (v : F) → write_f64 fmt buf v ≡ buf ++ encode_f64 fmt v
  unfolding write_f64 encode_f64
  write_f64_lem buf v = ground arith

  -- What each statement adds to a buffer that spells some fields.
  then_fields :
      {buf : List ℕ} {fs : List Text} (gs : List Text)
      → Spells buf fs
      → Spells (push_fields buf gs) (fs ++ gs)
  then_fields {buf} {fs} gs h = record {
    text =
        push_fields-payload buf gs ∙ ap (λ b. b ++ payload gs) h.text ∙ sym (payload-append fs gs);
  }

  then_field :
      {buf : List ℕ} {fs : List Text} (g : Text)
      → Spells buf fs
      → Spells (push_field buf g) (fs ++ (g ∷ []))
  unfolding push_fields
  then_field g h = then_fields (g ∷ []) h

  then_float :
      {buf : List ℕ} {fs : List Text} (v : F)
      → Spells buf fs
      → Spells (push_float fmt buf v) (fs ++ (encode_f64 fmt v ∷ []))
  unfolding push_float push_field
  then_float {buf} {fs} v h = record {
    text = ap (λ b. b ++ (0 ∷ [])) (write_f64_lem buf v) ∙ (then_field (encode_f64 fmt v) h).text;
  }

  then_bytes :
      {buf : List ℕ} {fs : List Text} (gs : List Text)
      → Spells buf fs
      → Spells (buf ++ push_fields [] gs) (fs ++ gs)
  then_bytes {buf} {fs} gs h = record {
    text =
        ap (◌++◌ buf) (push_fields-payload [] gs)
        ∙ ap (λ b. b ++ payload gs) h.text
        ∙ sym (payload-append fs gs);
  }

  ints :
      (order_id : ℤ)
      → Spells
          (push_int fmt (push_int fmt [] out_place_order) order_id)
          (encode_int fmt out_place_order ∷ encode_int fmt order_id ∷ [])
  unfolding push_int write_int encode_int
  ints order_id = record { text = simp (append_assoc, append-nil) }

  -- The fields of the fast request, where `z` is the text of zero.
  fast_fields : ℤ → ContractRequest F → PlaceOrderParams F → Text → List Text
  fast_fields order_id c p z =
      (((((((((encode_int fmt out_place_order ∷ encode_int fmt order_id ∷ [])
                      ++ contract_fields fmt c)
                    ++ (p.action ∷ encode_f64 fmt p.total_quantity ∷ []))
                  ++ (p.order_type ∷ encode_f64 fmt p.lmt_price ∷ encode_f64 fmt p.aux_price ∷ []))
                ++ (p.tif
                    ∷ []
                    ∷ p.account
                    ∷ []
                    ∷ z
                    ∷ p.order_ref
                    ∷ (b'1' ∷ [])
                    ∷ z
                    ∷ (b'0' ∷ [])
                    ∷ (b'0' ∷ [])
                    ∷ z
                    ∷ z
                    ∷ []))
              ++ (encode_bool p.outside_rth ∷ (b'0' ∷ []) ∷ [] ∷ []))
            ++ (encode_f64 fmt (n.decimal 0 1) ∷ []))
          ++ (p.good_till_date ∷ [] ∷ [] ∷ [] ∷ [] ∷ [] ∷ [] ∷ [] ∷ [] ∷ []))
        ++ trailing_fields fmt)

  fast_payload_lem :
      (order_id : ℤ) (c : ContractRequest F) (p : PlaceOrderParams F)
      → Spells
          (fast_payload fmt order_id (from_contract fmt c) p)
          (fast_fields order_id c p (b'0' ∷ []))
  unfolding fast_payload from_contract trailing_bytes encode_bool fast_fields contract_fields
  fast_payload_lem order_id c p =
      let h3 =
        then_float p.total_quantity
          (then_field p.action (then_bytes (contract_fields fmt c) (ints order_id))) in
      let h5 = then_float p.aux_price (then_float p.lmt_price (then_field p.order_type h3)) in
      let h6 =
        then_fields
          (p.tif
            ∷ []
            ∷ p.account
            ∷ []
            ∷ (b'0' ∷ [])
            ∷ p.order_ref
            ∷ (b'1' ∷ [])
            ∷ (b'0' ∷ [])
            ∷ (b'0' ∷ [])
            ∷ (b'0' ∷ [])
            ∷ (b'0' ∷ [])
            ∷ (b'0' ∷ [])
            ∷ [])
          h5 in
      let h7 = then_field (encode_bool p.outside_rth) h6 in
      let h8 = then_fields ((b'0' ∷ []) ∷ [] ∷ []) h7 in
      let h9 = then_float (n.decimal 0 1) h8 in
      let h10 = then_fields (p.good_till_date ∷ [] ∷ [] ∷ [] ∷ [] ∷ [] ∷ [] ∷ [] ∷ [] ∷ []) h9 in
      then_bytes (trailing_fields fmt) h10

  fast_fields_lem :
      (order_id : ℤ) (c : ContractRequest F) (p : PlaceOrderParams F)
      → fmt.i64_to_string c.con_id ≡ fmt.itoa c.con_id
      → fast_fields order_id c p (encode_int fmt (pos 0)) ≡ place_order_fields fmt order_id c p
  unfolding fast_fields place_order_fields contract_fields trailing_fields encode_bool encode_int
      encode_int64 encode_int_long
  fast_fields_lem order_id c p same_text = rw same_text refl

  -- The order request that is spliced from the cached template of a contract is, byte for byte, the
  -- one that is built field by field, where itoa prints zero as `0` and the contract's id as the
  -- standard library's `to_string` does.
  pub place_order_fast-place_order :
      (order_id : ℤ) (c : ContractRequest F) (p : PlaceOrderParams F)
      → fmt.itoa (pos 0) ≡ b'0' ∷ []
      → fmt.i64_to_string c.con_id ≡ fmt.itoa c.con_id
      → place_order_fast fmt order_id (from_contract fmt c) p ≡ place_order fmt order_id c p
  unfolding place_order_fast place_order encode_owned encode_fields encode_int
  place_order_fast-place_order order_id c p zero_text same_text =
      ap (λ (b : List ℕ). to_be_bytes (length b % 2 ^ 32) ++ b)
        ((fast_payload_lem order_id c p).text
          ∙ ap (λ z. payload (fast_fields order_id c p z)) (sym zero_text)
          ∙ ap payload (fast_fields_lem order_id c p same_text))
