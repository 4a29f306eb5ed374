-- ===== src/Ipc/Ring/Refine.antt =====
-- The ring as a bounded queue of bytes: what a writer and a reader of rust/corsair_ipc/src/ring.rs see.
use corsair.Base.{
  ℕ, zero, suc, ◌+◌, ◌-◌, ◌/◌, ◌%◌, ◌^◌, ◌≤◌, ◌<◌, ◌≡◌, refl, sym, ap, ◌∙◌, subst, Bool, true,
  false, ◌&&◌, List, [], ◌++◌, length, leb, if◌then◌else◌, arith, Bool-cases, inl, inr,
}
use native.Mathlib.Nat.{mod-add-mod, mod-lt, mod-eq_of_lt, mod-eq-sub-mod}
use corsair.Ipc.Ring.{Ring, write_frame, read_available, store, slice}
use corsair.Base.Integers.{sub_u64}
use corsair.Ipc.Ring.Contents.{window, round, window-store, load-window}

-- What the ring promises: a queue of bytes that takes a frame whole or not at all.
abbrev pub Queue : Type 0
Queue = List ℕ

unfoldable pub accepts : ℕ → List ℕ → Queue → Bool
accepts capacity frame q =
    leb (length frame) (capacity / 2) && leb (length q + length frame) capacity

unfoldable pub push : ℕ → List ℕ → Queue → Queue × Bool
unfolding accepts
push capacity frame q = if accepts capacity frame q then (q ++ frame, true) else (q, false)

-- The offsets count the bytes that were ever written and read, and do not wrap.
pub record IsValid (r : Ring) : Type 0 where
  pub positive : 0 < r.capacity
  pub addressable : r.capacity < 2 ^ 64
  pub ordered : r.read_offset ≤ r.write_offset
  pub within : r.write_offset ≤ r.read_offset + r.capacity
  pub counted : r.write_offset < 2 ^ 64

abbrev pub contents : Ring → Queue
contents r =
    window r.memory r.capacity (r.read_offset % r.capacity) (r.write_offset - r.read_offset)

length-slice : (m : ℕ → ℕ) (a n : ℕ) → length (slice m a n) ≡ n
unfolding slice
length-slice m a zero = refl
length-slice m a (suc n) = ap suc (length-slice m (a + 1) n)

pub length-contents : (r : Ring) → length (contents r) ≡ r.write_offset - r.read_offset
length-contents r = length-slice _ 0 (r.write_offset - r.read_offset)

-- The place of the write offset is the one behind the bytes that are held, going round.
place :
    (capacity r n : ℕ)
    → 0 < capacity
    → n ≤ capacity
    → (r + n) % capacity ≡ round capacity (r % capacity) n
place capacity r n hp h = ground (
  arith,
  mod-add-mod r capacity n,
  mod-lt r {m = capacity} hp,
  mod-eq_of_lt {n = r % capacity + n} {m = capacity},
  mod-eq-sub-mod {n = r % capacity + n} {m = capacity},
  mod-eq_of_lt {n = r % capacity + n - capacity} {m = capacity},
)

free_lem :
    (r : Ring)
    → IsValid r
    → sub_u64 r.capacity (sub_u64 r.write_offset r.read_offset)
      ≡ r.capacity - (r.write_offset - r.read_offset)
free_lem r v = omega arith

pub contents_of_le : (r : Ring) → r.write_offset ≤ r.read_offset → contents r ≡ []
unfolding slice
contents_of_le r h =
    let nothing : r.write_offset - r.read_offset ≡ 0 = omega arith in
    ap (slice (λ k. r.memory (round r.capacity (r.read_offset % r.capacity) k)) 0) nothing

-- `read_available` hands out all that the ring holds and leaves it empty.
pub read_available_refines :
    (r : Ring)
    → IsValid r
    → ((read_available r).1 ≡ contents r)
      × (contents (read_available r).0 ≡ [])
      × IsValid (read_available r).0
unfolding read_available slice
read_available_refines r v =
    let held = r.write_offset - r.read_offset in
    let p = r.read_offset % r.capacity in
    let loaded =
      load-window r.memory r.capacity p held (mod-lt r.read_offset v.positive) (omega arith) in
    elim (Bool-cases (leb held 0)) [
      | inl empty ↦ let nothing : held ≡ 0 = ground arith in rw empty (rw nothing (refl, refl, v))
      | inr some ↦ rw some (
        loaded,
        contents_of_le (record r { read_offset = (r.read_offset + held) % 2 ^ 64 }) (omega arith),
        ground arith,
      )
    ]

-- The ring after a frame that it took.
taken : List ℕ → Ring → Ring
taken frame r = record r {
  memory = store r.capacity (r.write_offset % r.capacity) frame r.memory;
  write_offset = (r.write_offset + length frame) % 2 ^ 64;
}

dropped : Ring → Ring
dropped r = record r { frames_dropped = (r.frames_dropped + 1) % 2 ^ 64 }

write_frame-taken :
    (frame : List ℕ) (r : Ring)
    → IsValid r
    → accepts r.capacity frame (contents r) ≡ true
    → write_frame frame r ≡ (taken frame r, true)
unfolding write_frame accepts taken
write_frame-taken frame r v h = ground (arith, free_lem r v, length-contents r)

write_frame-dropped :
    (frame : List ℕ) (r : Ring)
    → IsValid r
    → accepts r.capacity frame (contents r) ≡ false
    → write_frame frame r ≡ (dropped r, false)
unfolding write_frame accepts dropped
write_frame-dropped frame r v h = ground (arith, free_lem r v, length-contents r)

contents-taken :
    (frame : List ℕ) (r : Ring)
    → IsValid r
    → accepts r.capacity frame (contents r) ≡ true
    → r.write_offset + length frame < 2 ^ 64
    → contents (taken frame r) ≡ contents r ++ frame
unfolding taken accepts
contents-taken frame r v h below =
    let held = r.write_offset - r.read_offset in
    let p = r.read_offset % r.capacity in
    let at : r.write_offset % r.capacity ≡ round r.capacity p held =
      ap (λ w. w % r.capacity) (omega arith)
      ∙ place r.capacity r.read_offset held v.positive (omega arith) in
    let size : (r.write_offset + length frame) % 2 ^ 64 - r.read_offset ≡ held + length frame =
      omega arith in
    ap (window (store r.capacity (r.write_offset % r.capacity) frame r.memory) r.capacity p) size
    ∙ ap (λ i. window (store r.capacity i frame r.memory) r.capacity p (held + length frame)) at
    ∙ window-store r.memory r.capacity p held frame (mod-lt r.read_offset v.positive)
        (ground (arith, length-contents r, h))

taken-IsValid :
    (frame : List ℕ) (r : Ring)
    → IsValid r
    → accepts r.capacity frame (contents r) ≡ true
    → r.write_offset + length frame < 2 ^ 64
    → IsValid (taken frame r)
unfolding taken accepts
taken-IsValid frame r v h below = ground (arith, length-contents r, h)

-- `write_frame` answers as the queue does, appends the frame where it takes it, and changes nothing
-- but the count of dropped frames where it does not.
pub write_frame_refines :
    (frame : List ℕ) (r : Ring)
    → IsValid r
    → r.write_offset + length frame < 2 ^ 64
    → ((contents (write_frame frame r).0, (write_frame frame r).1)
        ≡ push r.capacity frame (contents r))
      × IsValid (write_frame frame r).0
unfolding push taken dropped
write_frame_refines frame r v h = elim (Bool-cases (accepts r.capacity frame (contents r))) [
  | inl takes ↦
      subst
        (λ (w : Ring × Bool).
          ((contents w.0, w.1) ≡ push r.capacity frame (contents r)) × IsValid w.0)
        (sym (write_frame-taken frame r v takes))
        (
          rw takes (ap (λ (q : Queue). (q, true)) (contents-taken frame r v takes h)),
          taken-IsValid frame r v takes h,
        )
  | inr drops ↦
      subst
        (λ (w : Ring × Bool).
          ((contents w.0, w.1) ≡ push r.capacity frame (contents r)) × IsValid w.0)
        (sym (write_frame-dropped frame r v drops)) (rw drops refl, ground arith)
]

pub write_offset_le :
    (frame : List ℕ) (r : Ring)
    → (write_frame frame r).0.write_offset ≤ r.write_offset + length frame
unfolding write_frame
write_offset_le frame r = ground arith

pub capacity-write_frame :
    (frame : List ℕ) (r : Ring) → (write_frame frame r).0.capacity ≡ r.capacity
unfolding write_frame
capacity-write_frame frame r = ground arith

pub read_available_keeps :
    (r : Ring)
    → ((read_available r).0.capacity ≡ r.capacity)
      × ((read_available r).0.write_offset ≡ r.write_offset)
unfolding read_available
read_available_keeps r = ground arith
