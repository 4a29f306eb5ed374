-- ===== src/Ipc/Ring.antt =====
-- rust/corsair_ipc/src/ring.rs: the byte ring in shared memory between one writer and one reader. The
-- mapped bytes behind the header are a function from their place; the header is the two offsets. The
-- FIFO that wakes the reader, the files and the memory order of the release store are left out: each
-- call is one step.
pub mod Contents
pub mod Refine
pub mod Calls
use corsair.Base.Integers.{sub_u64}
use corsair.Base.{
  ℕ, zero, suc, ◌+◌, ◌-◌, ◌/◌, ◌%◌, ◌^◌, Bool, true, false, ◌&&◌, List, [], ◌∷◌, ◌++◌, length, take,
  drop, ltb, leb, if◌then◌else◌, get_elem?, none, some,
}

abbrev pub Memory : Type 0
Memory = ℕ → ℕ

pub record Ring : Type 0 where
  pub memory : Memory
  pub capacity : ℕ
  pub write_offset : ℕ
  pub read_offset : ℕ
  pub frames_dropped : ℕ

-- `create_owner`: the header is zeroed; the file is extended by zero bytes.
unfoldable pub create_owner : ℕ → Ring
create_owner capacity = record {
  memory = λ i. 0;
  capacity = capacity;
  write_offset = 0;
  read_offset = 0;
  frames_dropped = 0;
}

abbrev pub byte_at : List ℕ → ℕ → ℕ
byte_at [] i = 0
byte_at (b ∷ bs) zero = b
byte_at (b ∷ bs) (suc i) = byte_at bs i

-- `self.mmap[from..from + bytes.len()].copy_from_slice(bytes)`
unfoldable pub copy_from_slice : ℕ → List ℕ → Memory → Memory
copy_from_slice from bytes m i =
    if leb from i && ltb i (from + length bytes) then byte_at bytes (i - from) else m i

-- `&self.mmap[from..from + n]`
unfoldable pub slice : Memory → ℕ → ℕ → List ℕ
slice m from zero = []
slice m from (suc n) = m from ∷ slice m (from + 1) n

-- The two copies of `write_frame`.
unfoldable pub store : ℕ → ℕ → List ℕ → Memory → Memory
unfolding copy_from_slice
store capacity at frame m =
    if leb (at + length frame) capacity
    then copy_from_slice at frame m
    else copy_from_slice 0 (drop (capacity - at) frame)
        (copy_from_slice at (take (capacity - at) frame) m)

unfoldable pub write_frame : List ℕ → Ring → Ring × Bool
write_frame frame r =
    let n = length frame in
    let free = sub_u64 r.capacity (sub_u64 r.write_offset r.read_offset) in
    let dropped = record r { frames_dropped = (r.frames_dropped + 1) % 2 ^ 64 } in
    if ltb (r.capacity / 2) n then (dropped, false) else if ltb free n then (dropped, false) else (
      record r {
        memory = store r.capacity (r.write_offset % r.capacity) frame r.memory;
        write_offset = (r.write_offset + n) % 2 ^ 64;
      },
      true,
    )

-- The two slices of `read_available`.
unfoldable pub load : ℕ → ℕ → ℕ → Memory → List ℕ
load capacity at n m =
    if leb (at + n) capacity
    then slice m at n
    else slice m at (capacity - at) ++ slice m 0 (n - (capacity - at))

unfoldable pub read_available : Ring → Ring × List ℕ
read_available r =
    let avail = r.write_offset - r.read_offset in
    if leb avail 0 then (r, []) else (
      record r { read_offset = (r.read_offset + avail) % 2 ^ 64 },
      load r.capacity (r.read_offset % r.capacity) avail r.memory,
    )
