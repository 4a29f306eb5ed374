-- ===== src/Ipc/Ring/Contents.antt =====
-- The bytes that a ring holds, in the order in which they were written.
use corsair.Base.{
  ℕ, zero, suc, ◌+◌, ◌-◌, ◌≤◌, ◌<◌, ◌≡◌, refl, sym, ap, ◌∙◌, List, [], ◌∷◌, ◌++◌, length, take,
  drop, ltb, leb, if◌then◌else◌, arith, length-take, length-drop, Bool-cases, inl, inr,
}
use mathlib.Core.Path.{ap₂}
use corsair.Ipc.Ring.{Memory, byte_at, copy_from_slice, slice, store, load}

-- Two memories that agree from a place on give one slice.
slice_ext :
    (g h : Memory) (a n : ℕ) → ((k : ℕ) → a ≤ k → k < a + n → g k ≡ h k) → slice g a n ≡ slice h a n
unfolding slice
slice_ext g h a zero e = refl
slice_ext g h a (suc n) e =
    let here = e a (omega arith) (omega arith) in
    let rest = slice_ext g h (a + 1) n (λ k from below. e k (omega arith) (omega arith)) in
    ground (arith, here, rest)

suc-add : (n k : ℕ) → suc n + k ≡ suc (n + k)
suc-add n k = omega arith

slice-add : (g : Memory) (a n k : ℕ) → slice g a (n + k) ≡ slice g a n ++ slice g (a + n) k
unfolding slice
slice-add g a zero k = ground arith
slice-add g a (suc n) k = ap (slice g a) (suc-add n k) ∙ ground (arith, slice-add g (a + 1) n k)

sub_self : (a : ℕ) → a - a ≡ 0
sub_self a = omega arith

sub_suc : (a k : ℕ) → a + 1 ≤ k → k - a ≡ suc (k - (a + 1))
sub_suc a k h = omega arith

slice-byte_at : (bs : List ℕ) (a : ℕ) → slice (λ k. byte_at bs (k - a)) a (length bs) ≡ bs
unfolding slice
slice-byte_at [] a = refl
slice-byte_at (b ∷ bs) a =
    let rest = slice-byte_at bs (a + 1) in
    let shifted =
      slice_ext (λ k. byte_at (b ∷ bs) (k - a)) (λ k. byte_at bs (k - (a + 1))) (a + 1) (length bs)
        (λ k from below. ap (byte_at (b ∷ bs)) (sub_suc a k from)) in
    ap₂ ◌∷◌ (ap (byte_at (b ∷ bs)) (sub_self a)) (shifted ∙ rest)

-- The place `k` bytes behind `p`, going round.
abbrev pub round : ℕ → ℕ → ℕ → ℕ
round capacity p k = if ltb (p + k) capacity then p + k else p + k - capacity

-- The `n` bytes from the place `p` on, going round at the capacity.
abbrev pub window : Memory → ℕ → ℕ → ℕ → List ℕ
window m capacity p n = slice (λ k. m (round capacity p k)) 0 n

byte_at-take : (bs : List ℕ) (n i : ℕ) → i < n → byte_at (take n bs) i ≡ byte_at bs i
byte_at-take [] zero i h = refl
byte_at-take [] (suc n) i h = refl
byte_at-take (b ∷ bs) zero i h = absurd (omega arith)
byte_at-take (b ∷ bs) (suc n) zero h = refl
byte_at-take (b ∷ bs) (suc n) (suc i) h = byte_at-take bs n i (omega arith)

byte_at-drop : (bs : List ℕ) (n i : ℕ) → byte_at (drop n bs) i ≡ byte_at bs (n + i)
byte_at-drop bs zero i = ap (byte_at bs) (omega arith)
byte_at-drop [] (suc n) i = refl
byte_at-drop (b ∷ bs) (suc n) i = byte_at-drop bs n i ∙ ap (byte_at (b ∷ bs)) (sym (suc-add n i))

-- What stands in a memory after a frame of `n` bytes was stored `k` bytes behind `p`, for a frame
-- that leaves the `k` bytes alone.
store-round_old :
    (m : Memory) (capacity p n i : ℕ) (frame : List ℕ)
    → p < capacity
    → n + length frame ≤ capacity
    → i < n
    → store capacity (round capacity p n) frame m (round capacity p i) ≡ m (round capacity p i)
unfolding store copy_from_slice
store-round_old m capacity p n i frame hp fits h = ground (
  arith,
  length-take (capacity - round capacity p n) frame,
  length-drop (capacity - round capacity p n) frame,
)

store-round_new :
    (m : Memory) (capacity p n i : ℕ) (frame : List ℕ)
    → p < capacity
    → n + length frame ≤ capacity
    → n ≤ i
    → i < n + length frame
    → store capacity (round capacity p n) frame m (round capacity p i) ≡ byte_at frame (i - n)
unfolding store copy_from_slice
store-round_new m capacity p n i frame hp fits from below = ground (
  arith,
  length-take (capacity - round capacity p n) frame,
  length-drop (capacity - round capacity p n) frame,
  byte_at-take frame (capacity - round capacity p n) (i - n),
  byte_at-drop frame (capacity - round capacity p n) (round capacity p i),
)

slice_shift :
    (g h : Memory) (a b n : ℕ)
    → ((k : ℕ) → k < n → g (a + k) ≡ h (b + k))
    → slice g a n ≡ slice h b n
unfolding slice
slice_shift g h a b zero e = refl
slice_shift g h a b (suc n) e =
    let here = e 0 (omega arith) in
    let rest = slice_shift g h (a + 1) (b + 1) n (λ k below. next k (e (suc k) (omega arith))) in
    ground (arith, here, rest)
  where
    next : (k : ℕ) → g (a + suc k) ≡ h (b + suc k) → g (a + 1 + k) ≡ h (b + 1 + k)
    next k e = ground arith

-- A frame that is stored behind the window's bytes extends the window.
pub window-store :
    (m : Memory) (capacity p n : ℕ) (frame : List ℕ)
    → p < capacity
    → n + length frame ≤ capacity
    → window (store capacity (round capacity p n) frame m) capacity p (n + length frame)
      ≡ window m capacity p n ++ frame
window-store m capacity p n frame hp fits =
    let stored = store capacity (round capacity p n) frame m in
    let new =
      slice_ext (λ k. stored (round capacity p k)) (λ k. byte_at frame (k - n)) (0 + n)
        (length frame)
        (λ k from below.
          store-round_new m capacity p n k frame hp fits (omega arith) (omega arith)) in
    slice-add (λ k. stored (round capacity p k)) 0 n (length frame)
    ∙ ap₂ ◌++◌
        (slice_ext (λ k. stored (round capacity p k)) (λ k. m (round capacity p k)) 0 n
          (λ k from below. store-round_old m capacity p n k frame hp fits (omega arith)))
        (new
          ∙ ap (λ a. slice (λ k. byte_at frame (k - n)) a (length frame)) (zero-add' n)
          ∙ slice-byte_at frame n)
  where
    zero-add' : (n : ℕ) → 0 + n ≡ n
    zero-add' n = omega arith

pub load-window :
    (m : Memory) (capacity p n : ℕ)
    → p < capacity
    → n ≤ capacity
    → load capacity p n m ≡ window m capacity p n
unfolding load
load-window m capacity p n hp fits = elim (Bool-cases (leb (p + n) capacity)) [
  | inl whole ↦
      rw whole (slice_shift m (λ k. m (round capacity p k)) p 0 n (λ k below. ap m (ground arith)))
  | inr split ↦
      let tail = capacity - p in
      let g = λ (k : ℕ). m (round capacity p k) in
      rw split (
        ap₂ ◌++◌ (slice_shift m g p 0 tail (λ k below. ap m (ground arith)))
          (slice_shift m g 0 (0 + tail) (n - tail) (λ k below. ap m (ground arith)))
        ∙ sym (slice-add g 0 tail (n - tail))
        ∙ ap (slice g 0) (ground (arith, split)))
]
