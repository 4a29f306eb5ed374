-- ===== src/Codec/Tests.antt =====
-- Concrete messages, and the theorems about them at concrete buffers.
use corsair.Base.{ℕ, ◌≡◌, ◌≢◌, refl, some, none, List, [], ◌∷◌, ◌++◌, arith}
use corsair.Framing.{ok, to_be_bytes, from_be_bytes}
use corsair.Codec.{encode_fields, split_zero, pop_empty, try_decode_frame, try_decode_all}
use corsair.Codec.RoundTrip.{try_decode_frame-encode_fields, try_decode_all_total}

-- The fields "1", "" and "23"
abbrev fields : List (List ℕ)
fields = (49 ∷ []) ∷ [] ∷ (50 ∷ 51 ∷ []) ∷ []

encodes : encode_fields fields ≡ 0 ∷ 0 ∷ 0 ∷ 6 ∷ 49 ∷ 0 ∷ 0 ∷ 50 ∷ 51 ∷ 0 ∷ []
unfolding encode_fields to_be_bytes
encodes = refl

decodes :
    try_decode_all (λ f. f) (0 ∷ 0 ∷ 0 ∷ 2 ∷ 49 ∷ 0 ∷ 0 ∷ [])
    ≡ some (ok (((49 ∷ []) ∷ []) ∷ []), 0 ∷ [])
unfolding try_decode_all try_decode_frame from_be_bytes split_zero pop_empty
decodes = refl

try_decode_frame-encode_fields_example :
    try_decode_frame (λ f. f) (encode_fields fields ++ (9 ∷ [])) ≡ (ok (some fields), 9 ∷ [])
try_decode_frame-encode_fields_example =
    try_decode_frame-encode_fields (λ f. f) refl fields (9 ∷ []) (ground arith) (ground arith)
      (omega arith)

try_decode_all_total_example : try_decode_all (λ f. f) (0 ∷ 0 ∷ 0 ∷ 2 ∷ 49 ∷ 0 ∷ []) ≢ none
try_decode_all_total_example = try_decode_all_total (λ f. f) (0 ∷ 0 ∷ 0 ∷ 2 ∷ 49 ∷ 0 ∷ [])
