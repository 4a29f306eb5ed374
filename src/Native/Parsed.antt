-- ===== src/Native/Parsed.antt =====
-- rust/corsair_broker_ibkr_native/src/decoder.rs: the fields of a frame and their values. An index
-- into the fields that is out of range is a panic of the process, a case of its own.
use corsair.Base.{
  ℕ, Bool, true, false, Option, none, some, List, [], ◌∷◌, get_elem?, if◌then◌else◌, nat_beq,
}
use corsair.Base.Integers.{ℤ, ℤ_eq}
use corsair.Float.{Float}
use corsair.Codec.Fields.{Text, Formats, text_beq, infinite_text}

pub data Parsed {ℓ} (A : Type ℓ) : Type ℓ where
  ok : A → Parsed A
  malformed : Parsed A
  panicked : Parsed A

infixl 5 ◌>>=◌
abbrev pub ◌>>=◌ {ℓ κ} : {A : Type ℓ} {B : Type κ} → Parsed A → (A → Parsed B) → Parsed B
ok a >>= g = g a
malformed >>= g = malformed
panicked >>= g = panicked

-- `fields[i]`
unfoldable pub field : List Text → ℕ → Parsed Text
field fs i = elim (get_elem? fs i) [ none ↦ panicked | some s ↦ ok s ]

-- `fields.get(i)`, with a default
unfoldable pub get_text : List Text → ℕ → Text → Text
get_text fs i default = elim (get_elem? fs i) [ none ↦ default | some s ↦ s ]

abbrev pub zero_text : Text
zero_text = b'0' ∷ []

-- `map_err` to `Malformed`
abbrev pub parsed : {A : Type 0} → Option A → Parsed A
parsed none = malformed
parsed (some a) = ok a

-- `csv.split(',')`
unfoldable pub split_comma : Text → List Text
split_comma [] = [] ∷ []
split_comma (b ∷ s) =
    let rest = split_comma s in
    if nat_beq b 44 then [] ∷ rest else elim rest [ [] ↦ (b ∷ []) ∷ [] | t ∷ ts ↦ (b ∷ t) ∷ ts ]

abbrev is_empty : Text → Bool
is_empty [] = true
is_empty (b ∷ s) = false

abbrev non_empty : List Text → List Text
non_empty [] = []
non_empty (t ∷ ts) = if is_empty t then non_empty ts else t ∷ non_empty ts

unfoldable pub accounts : Text → List Text
unfolding split_comma
accounts csv = non_empty (split_comma csv)

module _ {F : Type 0} ⦃n : Float F⦄ (fmt : Formats F) where
  open n use {decimal, infinity}

  unfoldable pub parse_int : Text → Parsed ℤ
  parse_int s = parsed (fmt.parse_i32 s)

  unfoldable pub parse_int64 : Text → Parsed ℤ
  parse_int64 s = parsed (fmt.parse_i64 s)

  unfoldable pub parse_f64 : Text → Parsed F
  parse_f64 s =
      if is_empty s
      then ok (decimal 0 1)
      else if text_beq s infinite_text
      then ok infinity
      else parsed (fmt.parse_decimal s)

  abbrev pub int_at : List Text → ℕ → Parsed ℤ
  int_at fs i = field fs i >>= parse_int

  abbrev pub int64_at : List Text → ℕ → Parsed ℤ
  int64_at fs i = field fs i >>= parse_int64

  abbrev pub float_at : List Text → ℕ → Parsed F
  float_at fs i = field fs i >>= parse_f64
