-- ===== src/Native/NoPanic.antt =====
-- rust/corsair_broker_ibkr_native/src/decoder.rs: no index into the fields of a message is out of
-- range.
use corsair.Base.{
  ℕ, zero, suc, refl, ◌≤◌, ◌<◌, ◌≢◌, Bool, true, false, Option, none, some, List, [], ◌∷◌, length,
  get_elem?, ltb, if◌then◌else◌, arith, Bool-cases, inl, inr,
}
use corsair.Base.Integers.{ℤ, ℤ_eq}
use corsair.Float.{Float}
use corsair.Codec.Fields.{Text, Formats, text_beq, infinite_text}
use corsair.Native.Parsed.{
  Parsed, ok, malformed, panicked, ◌>>=◌, field, parsed, parse_int, parse_int64, parse_f64,
}
use corsair.Native.Ticks.{
  parse_tick_price, parse_tick_size, parse_tick_option_computation, parse_error,
}
use corsair.Native.Orders.{parse_order_status, parse_execution, parse_commission, parse_open_order}
use corsair.Native.Accounts.{parse_account_value, parse_position, parse_contract_details}
use corsair.Native.Decoder.{dispatch, parse_inbound}

pub record NoPanic {ℓ} {A : Type ℓ} (r : Parsed A) : Type ℓ where
  pub apply : r ≢ panicked

ok-NoPanic {ℓ} : {A : Type ℓ} (a : A) → NoPanic (ok a)
ok-NoPanic a = record { apply = λ e. cc e }

bind-NoPanic {ℓ κ} :
    {A : Type ℓ} {B : Type κ} (m : Parsed A) (g : A → Parsed B)
    → NoPanic m
    → ((a : A) → NoPanic (g a))
    → NoPanic (m >>= g)
bind-NoPanic (ok a) g h k = k a
bind-NoPanic malformed g h k = record { apply = λ e. cc e }
bind-NoPanic panicked g h k = record { apply = λ e. h.apply refl }

-- Behind a test of the length, the rest has that many fields.
guarded-NoPanic {ℓ} :
    {A : Type ℓ} (fs : List Text) (n : ℕ) (r : Parsed A)
    → (n ≤ length fs → NoPanic r)
    → NoPanic (if ltb (length fs) n then malformed else r)
guarded-NoPanic fs n r h = elim (Bool-cases (ltb (length fs) n)) [
  | inl short ↦ rw short (record { apply = λ e. cc e })
  | inr enough ↦ rw enough (h (ground arith))
]

parsed-NoPanic : {A : Type 0} (o : Option A) → NoPanic (parsed o)
parsed-NoPanic none = record { apply = λ e. cc e }
parsed-NoPanic (some a) = ok-NoPanic a

get_elem?_some {ℓ} : {A : Type ℓ} (xs : List A) (i : ℕ) → i < length xs → get_elem? xs i ≢ none
get_elem?_some [] i h e = absurd (omega arith)
get_elem?_some (x ∷ xs) zero h e = cc e
get_elem?_some (x ∷ xs) (suc i) h e = get_elem?_some xs i (omega arith) e

field-NoPanic : (fs : List Text) (i : ℕ) → i < length fs → NoPanic (field fs i)
unfolding field
field-NoPanic fs i h = record { apply = λ e. ground (arith, get_elem?_some fs i, e) }

module _ {F : Type 0} ⦃n : Float F⦄ (fmt : Formats F) where
  parse_int-NoPanic : (s : Text) → NoPanic (parse_int fmt s)
  unfolding parse_int
  parse_int-NoPanic s = parsed-NoPanic (fmt.parse_i32 s)

  parse_int64-NoPanic : (s : Text) → NoPanic (parse_int64 fmt s)
  unfolding parse_int64
  parse_int64-NoPanic s = parsed-NoPanic (fmt.parse_i64 s)

  parse_f64-NoPanic : (s : Text) → NoPanic (parse_f64 fmt s)
  unfolding parse_f64
  parse_f64-NoPanic [] = ok-NoPanic (n.decimal 0 1)
  parse_f64-NoPanic (b ∷ s) = elim (Bool-cases (text_beq (b ∷ s) infinite_text)) [
    | inl inf ↦ rw inf (ok-NoPanic n.infinity)
    | inr finite ↦ rw finite (parsed-NoPanic (fmt.parse_decimal (b ∷ s)))
  ]

  ruleset no_panic_rules = (
    bind-NoPanic, ok-NoPanic, field-NoPanic, parse_int-NoPanic, parse_int64-NoPanic,
    parse_f64-NoPanic,
  )

  parse_tick_price-NoPanic : (fs : List Text) → NoPanic (parse_tick_price fmt fs)
  unfolding parse_tick_price
  parse_tick_price-NoPanic fs = guarded-NoPanic fs 6 _ λ h. search (no_panic_rules, arith)

  parse_tick_size-NoPanic : (fs : List Text) → NoPanic (parse_tick_size fmt fs)
  unfolding parse_tick_size
  parse_tick_size-NoPanic fs = guarded-NoPanic fs 5 _ λ h. search (no_panic_rules, arith)

  parse_tick_option_computation-NoPanic :
      (fs : List Text) → NoPanic (parse_tick_option_computation fmt fs)
  unfolding parse_tick_option_computation
  parse_tick_option_computation-NoPanic fs =
      guarded-NoPanic fs 12 _ λ h. search (no_panic_rules, arith)

  parse_error-NoPanic : (fs : List Text) → NoPanic (parse_error fmt fs)
  unfolding parse_error
  parse_error-NoPanic fs = guarded-NoPanic fs 5 _ λ h. search (no_panic_rules, arith)

  parse_order_status-NoPanic : (fs : List Text) → NoPanic (parse_order_status fmt fs)
  unfolding parse_order_status
  parse_order_status-NoPanic fs = guarded-NoPanic fs 12 _ λ h. search (no_panic_rules, arith)

  parse_execution-NoPanic : (fs : List Text) → NoPanic (parse_execution fmt fs)
  unfolding parse_execution
  parse_execution-NoPanic fs = guarded-NoPanic fs 24 _ λ h. search (no_panic_rules, arith)

  parse_commission-NoPanic : (fs : List Text) → NoPanic (parse_commission fmt fs)
  unfolding parse_commission
  parse_commission-NoPanic fs = guarded-NoPanic fs 6 _ λ h. search (no_panic_rules, arith)

  parse_open_order-NoPanic : (fs : List Text) → NoPanic (parse_open_order fmt fs)
  unfolding parse_open_order
  parse_open_order-NoPanic fs = guarded-NoPanic fs 17 _ λ h. search (no_panic_rules, arith)

  parse_account_value-NoPanic : (fs : List Text) → NoPanic (parse_account_value fmt fs)
  unfolding parse_account_value
  parse_account_value-NoPanic fs = guarded-NoPanic fs 6 _ λ h. search (no_panic_rules, arith)

  parse_position-NoPanic : (fs : List Text) → NoPanic (parse_position fmt fs)
  unfolding parse_position
  parse_position-NoPanic fs = guarded-NoPanic fs 16 _ λ h. search (no_panic_rules, arith)

  parse_contract_details-NoPanic : (fs : List Text) → NoPanic (parse_contract_details fmt fs)
  unfolding parse_contract_details
  parse_contract_details-NoPanic fs = guarded-NoPanic fs 13 _ λ h. search (no_panic_rules, arith)

  if-NoPanic {ℓ} :
      {A : Type ℓ} (b : Bool) (r t : Parsed A)
      → NoPanic r
      → NoPanic t
      → NoPanic (if b then r else t)
  if-NoPanic true r t hr ht = hr
  if-NoPanic false r t hr ht = ht

  dispatch-NoPanic : (ty : ℤ) (fs : List Text) → NoPanic (dispatch fmt ty fs)
  unfolding dispatch
  dispatch-NoPanic ty fs =
      search
        (
          if-NoPanic, no_panic_rules, parse_tick_price-NoPanic, parse_tick_size-NoPanic,
          parse_tick_option_computation-NoPanic, parse_error-NoPanic, parse_order_status-NoPanic,
          parse_execution-NoPanic, parse_commission-NoPanic, parse_open_order-NoPanic,
          parse_account_value-NoPanic, parse_position-NoPanic, parse_contract_details-NoPanic,
        )
        depth 40

  -- No message of the gateway makes the decoder index out of range: whatever the fields and their
  -- number, it gives a message or an error.
  pub parse_inbound-NoPanic : (fs : List Text) → NoPanic (parse_inbound fmt fs)
  unfolding parse_inbound
  parse_inbound-NoPanic [] = record { apply = λ e. cc e }
  parse_inbound-NoPanic (f ∷ fs) =
      bind-NoPanic _ _ (parse_int-NoPanic f) (λ ty. dispatch-NoPanic ty (f ∷ fs))
