-- ===== src/PcapFile/Words.antt =====
-- Numbers in bytes, with the low byte first, and how they are read.
use wsn_test_platform.Shared.{
  ℕ, zero, suc, ◌+◌, ◌*◌, ◌/◌, ◌^◌, ◌≤◌, ◌<◌, Option, none, some, [], ◌∷◌, ◌++◌, ◌≡◌, refl, ap,
  length, take, drop, arith,
}
use wsn_test_platform.Protocol.{Bytes}
use wsn_test_platform.PcapFile.{le}

-- The number in the first `k` bytes, and the bytes after it
unfoldable pub read_le : ℕ → Bytes → Option (ℕ × Bytes)
read_le zero bs = some (0, bs)
read_le (suc k) [] = none
read_le (suc k) (b ∷ bs) = elim (read_le k bs) [
  | none ↦ none
  | some (n, rest) ↦ some (b + 256 * n, rest)
]

pub read_le-le :
    (k n : ℕ) (rest : Bytes) → n < 256 ^ k → read_le k (le k n ++ rest) ≡ some (n, rest)
unfolding read_le le
read_le-le zero n rest h = ap (λ t. some (t, rest)) (omega arith)
read_le-le (suc k) n rest h =
    rw (read_le-le k (n / 256) rest (omega arith)) (ap (λ t. some (t, rest)) (omega arith))

-- The next `n` bytes, and those after them
pub read_bytes : ℕ → Bytes → Option (Bytes × Bytes)
read_bytes zero bs = some ([], bs)
read_bytes (suc n) [] = none
read_bytes (suc n) (b ∷ bs) = elim (read_bytes n bs) [
  | none ↦ none
  | some (part, rest) ↦ some (b ∷ part, rest)
]

pub read_bytes-append : (bs rest : Bytes) → read_bytes (length bs) (bs ++ rest) ≡ some (bs, rest)
unfolding read_bytes
read_bytes-append [] rest = refl
read_bytes-append (b ∷ bs) rest = rw (read_bytes-append bs rest) refl

pub read_bytes_front :
    (n : ℕ) (bs rest : Bytes)
    → n ≤ length bs
    → read_bytes n (bs ++ rest) ≡ some (take n bs, drop n bs ++ rest)
unfolding read_bytes
read_bytes_front zero bs rest h = refl
read_bytes_front (suc n) [] rest h = absurd (omega arith)
read_bytes_front (suc n) (b ∷ bs) rest h = rw (read_bytes_front n bs rest (omega arith)) refl
