-- ===== src/Ipc/Tests.antt =====
-- Concrete frames, and the theorems about them at concrete buffers.
use corsair.Base.{true, false, ℕ, ◌≤◌, ◌≡◌, ◌≢◌, refl, some, none, List, [], ◌∷◌, ◌++◌, arith}
use corsair.Framing.{ok, oversize, from_be_bytes}
use corsair.Ipc.{max_frame_bytes, pack_frame, try_unpack_frame, unpack_all_frames}
use corsair.Ipc.Ring.{
  create_owner, write_frame, read_available, store, load, slice, copy_from_slice,
}
use corsair.Ipc.Ring.Calls.{
  Call, write, read, wrote, bytes, run, run_queue, written, run-create_owner,
}
use corsair.Ipc.RoundTrip.{
  pack_frame-try_unpack_frame, unpack_all_frames_total, pack_all, unpack_all_frames-pack_all,
}

-- The frames "a" and "bb", and the start of another.
abbrev buffer : List ℕ
buffer = 0 ∷ 0 ∷ 0 ∷ 1 ∷ 97 ∷ 0 ∷ 0 ∷ 0 ∷ 2 ∷ 98 ∷ 98 ∷ 0 ∷ 0 ∷ []

unpacks :
    (unpack_all_frames buffer ≡ some (ok ((97 ∷ []) ∷ (98 ∷ 98 ∷ []) ∷ []), 0 ∷ 0 ∷ []))
    × (try_unpack_frame (1 ∷ 0 ∷ 0 ∷ 0 ∷ []) ≡ (oversize 16_777_216, 1 ∷ 0 ∷ 0 ∷ 0 ∷ []))
unfolding unpack_all_frames try_unpack_frame from_be_bytes
unpacks = (refl, refl)

pack_frame-try_unpack_frame_example :
    (pack_frame (97 ∷ []) ++ (7 ∷ []) ≡ 0 ∷ 0 ∷ 0 ∷ 1 ∷ 97 ∷ 7 ∷ []) × (1 ≤ max_frame_bytes)
unfolding try_unpack_frame from_be_bytes
pack_frame-try_unpack_frame_example =
    pack_frame-try_unpack_frame (0 ∷ 0 ∷ 0 ∷ 1 ∷ 97 ∷ 7 ∷ []) (97 ∷ []) (7 ∷ []) (omega arith) refl

unpack_all_frames_total_example : unpack_all_frames buffer ≢ none
unpack_all_frames_total_example = unpack_all_frames_total buffer

unpack_all_frames-pack_all_example :
    unpack_all_frames (pack_all ((97 ∷ []) ∷ [] ∷ []) ++ (0 ∷ []))
    ≡ some (ok ((97 ∷ []) ∷ [] ∷ []), 0 ∷ [])
unfolding try_unpack_frame
unpack_all_frames-pack_all_example =
    unpack_all_frames-pack_all ((97 ∷ []) ∷ [] ∷ []) (0 ∷ []) (omega arith) refl

-- A ring of four bytes: the frame of three bytes is too long, and the third frame goes round.
abbrev calls : List Call
calls =
    write (1 ∷ 2 ∷ [])
    ∷ read
    ∷ write (3 ∷ 4 ∷ 5 ∷ [])
    ∷ write (3 ∷ [])
    ∷ write (4 ∷ 5 ∷ [])
    ∷ read
    ∷ []

replies :
    run calls (create_owner 4)
    ≡ wrote true
      ∷ bytes (1 ∷ 2 ∷ [])
      ∷ wrote false
      ∷ wrote true
      ∷ wrote true
      ∷ bytes (3 ∷ 4 ∷ 5 ∷ [])
      ∷ []
unfolding run create_owner write_frame read_available store load slice copy_from_slice
replies = refl

run-create_owner_example : run calls (create_owner 4) ≡ run_queue 4 calls []
unfolding written
run-create_owner_example = run-create_owner 4 calls (omega arith) (omega arith) (omega arith)
