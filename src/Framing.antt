-- ===== src/Framing.antt =====
-- The 4-byte big-endian length that precedes each frame, in rust/corsair_ipc/src/protocol.rs
-- (`to_be_bytes`, `from_be_bytes`) and rust/corsair_broker_ibkr_native/src/codec.rs. A byte is a
-- number below 256.
use corsair.Base.{ℕ, ◌+◌, ◌*◌, ◌/◌, ◌%◌, ◌^◌, ◌<◌, ◌≡◌, List, [], ◌∷◌, arith}

unfoldable pub to_be_bytes : ℕ → List ℕ
to_be_bytes n = (n / 2 ^ 24) % 256 ∷ (n / 2 ^ 16) % 256 ∷ (n / 2 ^ 8) % 256 ∷ n % 256 ∷ []

unfoldable pub from_be_bytes : ℕ → ℕ → ℕ → ℕ → ℕ
from_be_bytes a b c d = ((a * 256 + b) * 256 + c) * 256 + d

abbrev pub IsByte : ℕ → Type 0
IsByte b = b < 256

pub from-to_be_bytes :
    (n : ℕ)
    → n < 2 ^ 32
    → from_be_bytes ((n / 2 ^ 24) % 256) ((n / 2 ^ 16) % 256) ((n / 2 ^ 8) % 256) (n % 256) ≡ n
unfolding from_be_bytes
from-to_be_bytes n h = omega arith

pub to-from_be_bytes :
    (a b c d : ℕ)
    → IsByte a
    → IsByte b
    → IsByte c
    → IsByte d
    → to_be_bytes (from_be_bytes a b c d) ≡ a ∷ b ∷ c ∷ d ∷ []
unfolding to_be_bytes from_be_bytes
to-from_be_bytes a b c d ha hb hc hd = ground arith

-- `Result` with the errors that framing can give
pub data Framed {ℓ} (A : Type ℓ) : Type ℓ where
  ok : A → Framed A
  oversize : ℕ → Framed A
