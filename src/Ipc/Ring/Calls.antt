-- ===== src/Ipc/Ring/Calls.antt =====
-- Sequences of calls on the ring of rust/corsair_ipc/src/ring.rs.
use corsair.Base.{ℕ, ◌+◌, ◌^◌, ◌<◌, ◌≡◌, refl, ap, ◌∙◌, Bool, List, [], ◌∷◌, length, arith}
use mathlib.Core.Path.{ap₂}
use corsair.Ipc.Ring.{Ring, create_owner, write_frame, read_available}
use corsair.Ipc.Ring.Refine.{
  Queue, push, IsValid, contents, contents_of_le, read_available_refines, write_frame_refines,
  write_offset_le, capacity-write_frame, read_available_keeps,
}

-- A call of the writer or of the reader, and what it returns.
pub data Call : Type 0 where
  write : List ℕ → Call
  read : Call

pub data Reply : Type 0 where
  wrote : Bool → Reply
  bytes : List ℕ → Reply

unfoldable pub run : List Call → Ring → List Reply
run [] r = []
run (write frame ∷ cs) r = wrote (write_frame frame r).1 ∷ run cs (write_frame frame r).0
run (read ∷ cs) r = bytes (read_available r).1 ∷ run cs (read_available r).0

-- The same calls on the queue that the ring promises: a read takes all there is.
unfoldable pub run_queue : ℕ → List Call → Queue → List Reply
run_queue capacity [] q = []
run_queue capacity (write frame ∷ cs) q =
    wrote (push capacity frame q).1 ∷ run_queue capacity cs (push capacity frame q).0
run_queue capacity (read ∷ cs) q = bytes q ∷ run_queue capacity cs []

-- The number of bytes that a sequence of calls wants to write.
unfoldable pub written : List Call → ℕ
written [] = 0
written (write frame ∷ cs) = length frame + written cs
written (read ∷ cs) = written cs

run_refines :
    (cs : List Call) (r : Ring)
    → IsValid r
    → r.write_offset + written cs < 2 ^ 64
    → run cs r ≡ run_queue r.capacity cs (contents r)
unfolding run run_queue written
run_refines [] r v h = refl
run_refines (write frame ∷ cs) r v h =
    let refined = write_frame_refines frame r v (omega arith) in
    let rest =
      run_refines cs (write_frame frame r).0 refined.1 (omega (arith, write_offset_le frame r)) in
    ap₂ (λ b (l : List Reply). wrote b ∷ l) (ap (λ (p : Queue × Bool). p.1) refined.0)
      (rest
        ∙ ap₂ (λ c q. run_queue c cs q) (capacity-write_frame frame r)
            (ap (λ (p : Queue × Bool). p.0) refined.0))
run_refines (read ∷ cs) r v h =
    let (out, empty, valid) = read_available_refines r v in
    let (capacity, offset) = read_available_keeps r in
    let rest = run_refines cs (read_available r).0 valid (omega arith) in
    ap₂ (λ b (l : List Reply). bytes b ∷ l) out
      (rest ∙ ap₂ (λ c q. run_queue c cs q) capacity empty)

-- No sequence of writes and reads tells a new ring from a bounded queue of bytes: each write takes its
-- frame whole, or refuses it where it is longer than half the capacity or does not fit, and each read
-- gives all bytes that were taken and not yet read, in order. The ring's offsets count up to 2^64
-- bytes in all.
pub run-create_owner :
    (capacity : ℕ) (cs : List Call)
    → 0 < capacity
    → capacity < 2 ^ 64
    → written cs < 2 ^ 64
    → run cs (create_owner capacity) ≡ run_queue capacity cs []
unfolding create_owner
run-create_owner capacity cs positive addressable h =
    run_refines cs (create_owner capacity) (ground arith) (omega arith)
    ∙ ap (run_queue capacity cs) (contents_of_le (create_owner capacity) (omega arith))
