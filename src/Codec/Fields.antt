-- ===== src/Codec/Fields.antt =====
-- rust/corsair_broker_ibkr_native/src/codec.rs: the texts of single fields. The crates itoa and ryu,
-- the standard library's `to_string`, `parse` and `is_infinite` are the record `Formats`.
use corsair.Base.{
  ℕ, ◌%◌, ◌^◌, Bool, true, false, ◌||◌, Option, List, [], ◌∷◌, ◌++◌, length, map, leb, ◌&&◌, ◌+◌,
  if◌then◌else◌, nat_beq,
}
use corsair.Base.Integers.{ℤ}
use corsair.Framing.{to_be_bytes}

abbrev pub Text : Type 0
Text = List ℕ

pub record Formats (F : Type 0) : Type 0 where
  pub itoa : ℤ → Text
  pub i64_to_string : ℤ → Text
  pub ryu : F → Text
  pub is_infinite : F → Bool
  pub parse_i32 : Text → Option ℤ
  pub parse_i64 : Text → Option ℤ
  pub parse_decimal : Text → Option F

abbrev pub text_beq : Text → Text → Bool
text_beq [] [] = true
text_beq (a ∷ s) (b ∷ t) = nat_beq a b && text_beq s t
text_beq _ _ = false

abbrev to_ascii_lowercase : ℕ → ℕ
to_ascii_lowercase c = if leb 65 c && leb c 90 then c + 32 else c

-- "Infinite"
abbrev pub infinite_text : Text
infinite_text = 73 ∷ 110 ∷ 102 ∷ 105 ∷ 110 ∷ 105 ∷ 116 ∷ 101 ∷ []

unfoldable pub encode_bool : Bool → Text
encode_bool v = if v then b'1' ∷ [] else b'0' ∷ []

abbrev pub encode_unset : Text
encode_unset = []

unfoldable pub parse_bool : Text → Bool
parse_bool s =
    text_beq s (b'1' ∷ []) || text_beq (map to_ascii_lowercase s) (116 ∷ 114 ∷ 117 ∷ 101 ∷ [])

module _ {F : Type 0} (fmt : Formats F) where
  unfoldable pub encode_int : ℤ → Text
  encode_int v = fmt.itoa v

  unfoldable pub encode_int64 : ℤ → Text
  encode_int64 v = fmt.itoa v

  unfoldable pub encode_f64 : F → Text
  encode_f64 v = if fmt.is_infinite v then infinite_text else fmt.ryu v

  -- The `write_*` functions return the buffer that they extend.
  unfoldable pub write_int : List ℕ → ℤ → List ℕ
  write_int buf v = buf ++ fmt.itoa v

  unfoldable pub write_f64 : List ℕ → F → List ℕ
  write_f64 buf v = if fmt.is_infinite v then buf ++ infinite_text else buf ++ fmt.ryu v

  -- `format!("v{min_version}..{max_version}")` behind "API\0" and its length
  unfoldable pub encode_handshake : ℤ → ℤ → List ℕ
  encode_handshake min_version max_version =
      let version = b'v' ∷ fmt.itoa min_version ++ (b'.' ∷ b'.' ∷ fmt.itoa max_version) in
      65 ∷ 80 ∷ 73 ∷ 0 ∷ to_be_bytes (length version % 2 ^ 32) ++ version
