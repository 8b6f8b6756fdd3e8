-- ===== src/Transport/Wt/Framing.antt =====
-- The length prefix of crates/cherenkov-transport-wt/src/lib.rs: what the writer puts before a frame,
-- and how the session loop reads a frame. The stream is the list of the bytes that are still to read.
use cherenkov.Prelude.{
  ℕ, zero, suc, ◌+◌, ◌*◌, ◌/◌, ◌%◌, ◌^◌, ◌<◌, ◌≡◌, refl, ◌∙◌, Option, none, some, [], ◌∷◌, ◌++◌,
  arith, ltb, length, if◌then◌else◌,
}
use cherenkov.Protocol.{Bytes}

-- `(n as u32).to_be_bytes()`
unfoldable pub to_be_bytes : ℕ → Bytes
to_be_bytes n = n / 16777216 % 256 ∷ n / 65536 % 256 ∷ n / 256 % 256 ∷ n % 256 ∷ []

abbrev pub from_be_bytes : ℕ → ℕ → ℕ → ℕ → ℕ
from_be_bytes a b c d = a * 16777216 + b * 65536 + c * 256 + d

unfoldable pub write_frame : Bytes → Bytes
unfolding to_be_bytes
write_frame bytes = to_be_bytes (length bytes % 2 ^ 32) ++ bytes

-- `read_exact` into a buffer of `n` bytes, and what is left
unfoldable pub read_exact : ℕ → Bytes → Option (Bytes × Bytes)
read_exact zero stream = some ([], stream)
read_exact (suc n) [] = none
read_exact (suc n) (b ∷ stream) = elim (read_exact n stream) [
  | none ↦ none
  | some (bytes, rest) ↦ some (b ∷ bytes, rest)
]

-- `none` is an `Err`: too few bytes, or a length over 16 MiB.
unfoldable pub read_frame : Bytes → Option (Bytes × Bytes)
unfolding read_exact
read_frame (a ∷ b ∷ c ∷ d ∷ stream) =
    let len = from_be_bytes a b c d in if ltb 16777216 len then none else read_exact len stream
read_frame _ = none

read_exact-append :
    (bytes rest : Bytes) → read_exact (length bytes) (bytes ++ rest) ≡ some (bytes, rest)
unfolding read_exact
read_exact-append [] rest = refl
read_exact-append (b ∷ bytes) rest = rw (read_exact-append bytes rest) refl

from_be_bytes-to_be_bytes :
    (n : ℕ)
    → n < 2 ^ 32
    → from_be_bytes (n / 16777216 % 256) (n / 65536 % 256) (n / 256 % 256) (n % 256) ≡ n
from_be_bytes-to_be_bytes n h = omega arith

-- A frame of fewer than 2^32 bytes that was written is read back, and leaves the bytes after it, if it
-- has at most 16 MiB; a longer one is refused.
pub read_frame-write_frame :
    (bytes rest : Bytes)
    → length bytes < 2 ^ 32
    → read_frame (write_frame bytes ++ rest)
      ≡ (if ltb 16777216 (length bytes) then none else some (bytes, rest))
unfolding read_frame write_frame to_be_bytes
read_frame-write_frame bytes rest h = rw same (rw (read_exact-append bytes rest) refl)
  where
    same :
        from_be_bytes
          (length bytes % 2 ^ 32 / 16777216 % 256)
          (length bytes % 2 ^ 32 / 65536 % 256)
          (length bytes % 2 ^ 32 / 256 % 256)
          (length bytes % 2 ^ 32 % 256)
        ≡ length bytes
    same = from_be_bytes-to_be_bytes (length bytes % 2 ^ 32) (omega arith) ∙ omega arith
