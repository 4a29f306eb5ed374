-- ===== src/Ipc/RoundTrip.antt =====
-- corsair_ipc/src/protocol.rs: what is packed is unpacked, and unpacking ends.
use corsair.Base.{
  ℕ, zero, suc, ◌+◌, ◌%◌, ◌^◌, ◌≤◌, ◌<◌, ◌≡◌, Option, none, some, List, [], ◌∷◌, ◌++◌, arith,
  length, take, drop, All, length-append, length-take, length-drop, take-append-drop,
  take-append_self, drop-append_self, append_assoc, ap, ◌∙◌, ◌≢◌, Bool, true, false,
}
use mathlib.Core.Path.{ap₂}
use corsair.Framing.{
  to_be_bytes, from_be_bytes, IsByte, from-to_be_bytes, to-from_be_bytes, Framed, ok,
}
use corsair.Ipc.{max_frame_bytes, pack_frame, try_unpack_frame, unpack_loop, unpack_all_frames}

-- A frame at the front of a buffer is taken off it whole, for any body up to the limit and any bytes
-- behind it.
pub try_unpack_frame-pack_frame :
    (body rest : List ℕ)
    → length body ≤ max_frame_bytes
    → try_unpack_frame (pack_frame body ++ rest) ≡ (ok (some body), rest)
unfolding pack_frame try_unpack_frame to_be_bytes
try_unpack_frame-pack_frame body rest h = ground (
  arith,
  from-to_be_bytes (length body % 2 ^ 32),
  length-append body rest,
  take-append_self body rest,
  drop-append_self body rest,
)

-- A buffer that is taken apart holds its length and at least as many bytes behind it.
unpacked :
    (a b c d : ℕ) (tail body rest : List ℕ)
    → try_unpack_frame (a ∷ b ∷ c ∷ d ∷ tail) ≡ (ok (some body), rest)
    → let size = from_be_bytes a b c d in
      (body ≡ take size tail)
      × (rest ≡ drop size tail)
      × (size ≤ max_frame_bytes)
      × (size ≤ length tail)
unfolding try_unpack_frame
unpacked a b c d tail body rest h = ground arith

-- What unpacking takes off a buffer of bytes is the frame of the body that it returns: packed again,
-- before the bytes that are left, it gives the buffer; and the body is within the limit.
pub pack_frame-try_unpack_frame :
    (buf body rest : List ℕ)
    → All IsByte buf
    → try_unpack_frame buf ≡ (ok (some body), rest)
    → (pack_frame body ++ rest ≡ buf) × (length body ≤ max_frame_bytes)
unfolding pack_frame try_unpack_frame
pack_frame-try_unpack_frame [] body rest v h = cc
pack_frame-try_unpack_frame (a ∷ []) body rest v h = cc
pack_frame-try_unpack_frame (a ∷ b ∷ []) body rest v h = cc
pack_frame-try_unpack_frame (a ∷ b ∷ c ∷ []) body rest v h = cc
pack_frame-try_unpack_frame (a ∷ b ∷ c ∷ d ∷ tail) body rest v h =
    let size = from_be_bytes a b c d in
    let (front, back, small, fits) = unpacked a b c d tail body rest h in
    let len : length body ≡ size = ap length front ∙ omega (arith, length-take size tail) in
    let header : to_be_bytes (length body % 2 ^ 32) ≡ a ∷ b ∷ c ∷ d ∷ [] =
      ap to_be_bytes (omega (arith, len)) ∙ to-from_be_bytes a b c d v.0 v.1.0 v.1.1.0 v.1.1.1.0 in
    let joined : body ++ rest ≡ tail = ap₂ ◌++◌ front back ∙ take-append-drop size tail in
    (ap (λ x. (x ++ body) ++ rest) header ∙ ap (λ x. a ∷ b ∷ c ∷ d ∷ x) joined, omega (arith, len))

abbrev is_frame : Framed (Option (List ℕ)) → Bool
is_frame (ok (some body)) = true
is_frame _ = false

-- A frame that was taken off has shortened the buffer by at least its length bytes.
try_unpack_frame_shorter :
    (buf : List ℕ)
    → is_frame (try_unpack_frame buf).0 ≡ true
    → length (try_unpack_frame buf).1 + 4 ≤ length buf
unfolding try_unpack_frame
try_unpack_frame_shorter [] h = cc
try_unpack_frame_shorter (a ∷ []) h = cc
try_unpack_frame_shorter (a ∷ b ∷ []) h = cc
try_unpack_frame_shorter (a ∷ b ∷ c ∷ []) h = cc
try_unpack_frame_shorter (a ∷ b ∷ c ∷ d ∷ tail) h =
    ground (arith, length-drop (from_be_bytes a b c d) tail)

unpack_loop_total : (fuel : ℕ) (buf : List ℕ) → length buf < fuel → unpack_loop fuel buf ≢ none
unfolding unpack_loop
unpack_loop_total zero buf h = elim h [ ]
unpack_loop_total (suc fuel) buf h =
    ground (arith, try_unpack_frame_shorter buf, unpack_loop_total fuel (try_unpack_frame buf).1)

-- `unpack_all_frames` ends on every buffer: the fuel suffices.
pub unpack_all_frames_total : (buf : List ℕ) → unpack_all_frames buf ≢ none
unfolding unpack_all_frames
unpack_all_frames_total buf = unpack_loop_total (suc (length buf)) buf (omega arith)

-- The frames of a list of bodies, one behind the other.
abbrev pub pack_all : List (List ℕ) → List ℕ
pack_all [] = []
pack_all (body ∷ bodies) = pack_frame body ++ pack_all bodies

unpack_loop-pack_all :
    (fuel : ℕ) (bodies : List (List ℕ)) (rest : List ℕ)
    → length bodies < fuel
    → All (λ body. length body ≤ max_frame_bytes) bodies
    → try_unpack_frame rest ≡ (ok none, rest)
    → unpack_loop fuel (pack_all bodies ++ rest) ≡ some (ok bodies, rest)
unfolding unpack_loop
unpack_loop-pack_all zero bodies rest h v e = elim h [ ]
unpack_loop-pack_all (suc fuel) [] rest h v e = ground (arith, e)
unpack_loop-pack_all (suc fuel) (body ∷ bodies) rest h v e =
    let front : try_unpack_frame ((pack_frame body ++ pack_all bodies) ++ rest)
        ≡ (ok (some body), pack_all bodies ++ rest) =
      ap try_unpack_frame (append_assoc (pack_frame body) (pack_all bodies) rest)
      ∙ try_unpack_frame-pack_frame body (pack_all bodies ++ rest) v.0 in
    let later = unpack_loop-pack_all fuel bodies rest (omega arith) v.1 e in
    ground (arith, front, later)

length-pack_all :
    (bodies : List (List ℕ)) (rest : List ℕ) → length bodies ≤ length (pack_all bodies ++ rest)
unfolding pack_frame to_be_bytes
length-pack_all [] rest = omega arith
length-pack_all (body ∷ bodies) rest = omega (
  arith,
  length-pack_all bodies rest,
  length-append (body ++ pack_all bodies) rest,
  length-append body (pack_all bodies),
  length-append (pack_all bodies) rest,
)

-- A buffer of frames, each with a body within the limit, and behind them bytes that hold no whole
-- frame, is unpacked into just those bodies in order, with the bytes behind them left.
pub unpack_all_frames-pack_all :
    (bodies : List (List ℕ)) (rest : List ℕ)
    → All (λ body. length body ≤ max_frame_bytes) bodies
    → try_unpack_frame rest ≡ (ok none, rest)
    → unpack_all_frames (pack_all bodies ++ rest) ≡ some (ok bodies, rest)
unfolding unpack_all_frames
unpack_all_frames-pack_all bodies rest v e =
    unpack_loop-pack_all (suc (length (pack_all bodies ++ rest))) bodies rest
      (omega (arith, length-pack_all bodies rest)) v e
