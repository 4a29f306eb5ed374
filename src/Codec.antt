-- ===== src/Codec.antt =====
-- rust/corsair_broker_ibkr_native/src/codec.rs: messages on the gateway's socket, as lists of fields
-- that end in a zero byte, behind a 4-byte length. A text is its UTF-8 bytes, and
-- `String::from_utf8_lossy`, which is the standard library's, is an argument.
pub mod Fields
pub mod RoundTrip
mod Tests
use corsair.Base.{
  ℕ, zero, suc, ◌+◌, ◌*◌, ◌%◌, ◌^◌, Bool, true, false, Option, none, some, List, [], ◌∷◌, ◌++◌,
  length, take, drop, ltb, map, if◌then◌else◌, nat_beq,
}
use corsair.Framing.{to_be_bytes, from_be_bytes, Framed, ok, oversize}

abbrev pub max_message_bytes : ℕ
max_message_bytes = 16 * 1024 * 1024

-- The payload of `encode_fields`: each field with its terminator.
abbrev pub payload : List (List ℕ) → List ℕ
payload [] = []
payload (f ∷ fs) = (f ++ (0 ∷ [])) ++ payload fs

unfoldable pub encode_fields : List (List ℕ) → List ℕ
encode_fields fields = to_be_bytes (length (payload fields) % 2 ^ 32) ++ payload fields

abbrev onto_first : ℕ → List (List ℕ) → List (List ℕ)
onto_first b [] = (b ∷ []) ∷ []
onto_first b (f ∷ fs) = (b ∷ f) ∷ fs

-- `payload.split(|&b| b == 0)`
unfoldable pub split_zero : List ℕ → List (List ℕ)
split_zero [] = [] ∷ []
split_zero (b ∷ bs) =
    let rest = split_zero bs in if nat_beq b 0 then [] ∷ rest else onto_first b rest

-- `pop` of a last field that is empty
unfoldable pub pop_empty : List (List ℕ) → List (List ℕ)
pop_empty [] = []
pop_empty ([] ∷ []) = []
pop_empty (f ∷ fs) = f ∷ pop_empty fs

module _ (from_utf8_lossy : List ℕ → List ℕ) where
  unfoldable pub try_decode_frame : List ℕ → Framed (Option (List (List ℕ))) × List ℕ
  try_decode_frame (a ∷ b ∷ c ∷ d ∷ rest) =
      let size = from_be_bytes a b c d in
      let buf = a ∷ b ∷ c ∷ d ∷ rest in
      if ltb max_message_bytes size
      then (oversize size, buf)
      else if ltb (length buf) (4 + size)
      then (ok none, buf)
      else (
        ok (some (pop_empty (map from_utf8_lossy (split_zero (take size rest))))),
        drop size rest,
      )
  try_decode_frame buf = (ok none, buf)

  -- The loop of `try_decode_all`, with fuel; `none` means that the fuel ran out.
  unfoldable pub decode_loop : ℕ → List ℕ → Option (Framed (List (List (List ℕ))) × List ℕ)
  decode_loop zero buf = none
  decode_loop (suc fuel) buf =
      let (r, buf') = try_decode_frame buf in
      elim r [
        | oversize size ↦ some (oversize size, buf')
        | ok o ↦ elim o [
          | none ↦ some (ok [], buf')
          | some fields ↦ elim (decode_loop fuel buf') [
            | none ↦ none
            | some s ↦ elim s.0 [
              | oversize size ↦ some (oversize size, s.1)
              | ok messages ↦ some (ok (fields ∷ messages), s.1)
            ]
          ]
        ]
      ]

  unfoldable pub try_decode_all : List ℕ → Option (Framed (List (List (List ℕ))) × List ℕ)
  unfolding decode_loop
  try_decode_all buf = decode_loop (suc (length buf)) buf
