-- ===== src/Ipc.antt =====
-- rust/corsair_ipc/src/protocol.rs: length-prefixed frames. A function that takes `&mut Vec<u8>`
-- returns the buffer that it leaves.
pub mod Ring
pub mod RoundTrip
mod Tests
use corsair.Base.{
  ℕ, zero, suc, ◌+◌, ◌*◌, ◌%◌, ◌^◌, Option, none, some, List, [], ◌∷◌, ◌++◌, length, take, drop,
  ltb, if◌then◌else◌,
}
use corsair.Framing.{to_be_bytes, from_be_bytes, Framed, ok, oversize}

abbrev pub max_frame_bytes : ℕ
max_frame_bytes = 4 * 1024 * 1024

unfoldable pub pack_frame : List ℕ → List ℕ
pack_frame body = to_be_bytes (length body % 2 ^ 32) ++ body

unfoldable pub try_unpack_frame : List ℕ → Framed (Option (List ℕ)) × List ℕ
try_unpack_frame (a ∷ b ∷ c ∷ d ∷ rest) =
    let size = from_be_bytes a b c d in
    let buf = a ∷ b ∷ c ∷ d ∷ rest in
    if ltb max_frame_bytes size
    then (oversize size, buf)
    else if ltb (length buf) (4 + size)
    then (ok none, buf)
    else (ok (some (take size rest)), drop size rest)
try_unpack_frame buf = (ok none, buf)

-- The loop of `unpack_all_frames`, with fuel; `none` means that the fuel ran out.
unfoldable pub unpack_loop : ℕ → List ℕ → Option (Framed (List (List ℕ)) × List ℕ)
unpack_loop zero buf = none
unpack_loop (suc fuel) buf =
    let (r, buf') = try_unpack_frame buf in
    elim r [
      | oversize size ↦ some (oversize size, buf')
      | ok o ↦ elim o [
        | none ↦ some (ok [], buf')
        | some body ↦ elim (unpack_loop fuel buf') [
          | none ↦ none
          | some s ↦ elim s.0 [
            | oversize size ↦ some (oversize size, s.1)
            | ok bodies ↦ some (ok (body ∷ bodies), s.1)
          ]
        ]
      ]
    ]

-- A frame takes at least four bytes, so the fuel is one round for each byte and one more.
unfoldable pub unpack_all_frames : List ℕ → Option (Framed (List (List ℕ)) × List ℕ)
unfolding unpack_loop
unpack_all_frames buf = unpack_loop (suc (length buf)) buf
