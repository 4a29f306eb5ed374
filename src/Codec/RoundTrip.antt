-- ===== src/Codec/RoundTrip.antt =====
-- corsair_broker_ibkr_native/src/codec.rs: what is encoded is decoded, and decoding ends.
use corsair.Base.{
  ℕ, zero, suc, ◌+◌, ◌%◌, ◌^◌, ◌≤◌, ◌<◌, ◌≡◌, ◌≢◌, refl, Bool, true, false, Option, none, some,
  List, [], ◌∷◌, ◌++◌, arith, length, map, All, length-append, length-drop, take-append_self,
  drop-append_self, ap, ◌∙◌,
}
use corsair.Framing.{to_be_bytes, from_be_bytes, from-to_be_bytes, Framed, ok}
use corsair.Codec.{
  max_message_bytes, payload, encode_fields, split_zero, pop_empty, try_decode_frame, decode_loop,
  try_decode_all,
}

-- A field without zero bytes.
abbrev pub IsField : List ℕ → Type 0
IsField = All λ b. b ≢ 0

split_zero-append :
    (f bs : List ℕ) → IsField f → split_zero ((f ++ (0 ∷ [])) ++ bs) ≡ f ∷ split_zero bs
unfolding split_zero
split_zero-append [] bs v = refl
split_zero-append (b ∷ f) bs v = ground (arith, split_zero-append f bs v.1, v.0)

split_zero-payload :
    (fs : List (List ℕ)) → All IsField fs → split_zero (payload fs) ≡ fs ++ ([] ∷ [])
unfolding split_zero
split_zero-payload [] v = refl
split_zero-payload (f ∷ fs) v =
    split_zero-append f (payload fs) v.0 ∙ ap (◌∷◌ f) (split_zero-payload fs v.1)

pop_empty-append : (fs : List (List ℕ)) → pop_empty (fs ++ ([] ∷ [])) ≡ fs
unfolding pop_empty
pop_empty-append [] = refl
pop_empty-append ([] ∷ []) = refl
pop_empty-append ([] ∷ g ∷ fs) = ap (◌∷◌ []) (pop_empty-append (g ∷ fs))
pop_empty-append ((b ∷ f) ∷ fs) = ap (◌∷◌ (b ∷ f)) (pop_empty-append fs)

module _ (lossy : List ℕ → List ℕ) (lossy_empty : lossy [] ≡ []) where
  map-lossy :
      (fs : List (List ℕ))
      → All (λ f. lossy f ≡ f) fs
      → map lossy (fs ++ ([] ∷ [])) ≡ fs ++ ([] ∷ [])
  map-lossy [] v = ap (λ e. e ∷ []) lossy_empty
  map-lossy (f ∷ fs) v = ground (arith, map-lossy fs v.1, v.0)

  decoded :
      (fs : List (List ℕ))
      → All IsField fs
      → All (λ f. lossy f ≡ f) fs
      → pop_empty (map lossy (split_zero (payload fs))) ≡ fs
  decoded fs v u =
      ap (λ x. pop_empty (map lossy x)) (split_zero-payload fs v)
      ∙ ap pop_empty (map-lossy fs u)
      ∙ pop_empty-append fs

  -- A message at the front of a buffer is decoded into the fields that were encoded, for any bytes
  -- behind it, where no field holds a zero byte, the lossy conversion keeps each field and the empty
  -- text, and the payload is within the limit.
  pub try_decode_frame-encode_fields :
      (fs : List (List ℕ)) (rest : List ℕ)
      → All IsField fs
      → All (λ f. lossy f ≡ f) fs
      → length (payload fs) ≤ max_message_bytes
      → try_decode_frame lossy (encode_fields fs ++ rest) ≡ (ok (some fs), rest)
  unfolding encode_fields try_decode_frame to_be_bytes
  try_decode_frame-encode_fields fs rest v u h = ground (
    arith,
    from-to_be_bytes (length (payload fs) % 2 ^ 32),
    length-append (payload fs) rest,
    take-append_self (payload fs) rest,
    drop-append_self (payload fs) rest,
    decoded fs v u,
  )

module _ (lossy : List ℕ → List ℕ) where
  abbrev is_message : Framed (Option (List (List ℕ))) → Bool
  is_message (ok (some fields)) = true
  is_message _ = false

  try_decode_frame_shorter :
      (buf : List ℕ)
      → is_message (try_decode_frame lossy buf).0 ≡ true
      → length (try_decode_frame lossy buf).1 + 4 ≤ length buf
  unfolding try_decode_frame
  try_decode_frame_shorter [] h = cc
  try_decode_frame_shorter (a ∷ []) h = cc
  try_decode_frame_shorter (a ∷ b ∷ []) h = cc
  try_decode_frame_shorter (a ∷ b ∷ c ∷ []) h = cc
  try_decode_frame_shorter (a ∷ b ∷ c ∷ d ∷ tail) h =
      ground (arith, length-drop (from_be_bytes a b c d) tail)

  decode_loop_total :
      (fuel : ℕ) (buf : List ℕ) → length buf < fuel → decode_loop lossy fuel buf ≢ none
  unfolding decode_loop
  decode_loop_total zero buf h = elim h [ ]
  decode_loop_total (suc fuel) buf h =
      ground
        (arith, try_decode_frame_shorter buf, decode_loop_total fuel (try_decode_frame lossy buf).1)

  -- `try_decode_all` ends on every buffer: the fuel suffices.
  pub try_decode_all_total : (buf : List ℕ) → try_decode_all lossy buf ≢ none
  unfolding try_decode_all
  try_decode_all_total buf = decode_loop_total (suc (length buf)) buf (omega arith)
