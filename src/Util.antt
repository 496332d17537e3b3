-- ===== src/Util.antt =====
-- app/util.c: the copy with escaped delimiters, the checksum that is still to be written, and the
-- parity check.
pub mod Escape
pub mod Xor
pub mod Parity
mod Tests
use wsn_test_platform.Shared.{
  ℕ, zero, suc, ◌+◌, ◌-◌, ◌%◌, Bool, true, false, ◌||◌, Option, none, some, [], ◌∷◌, ◌++◌, Run, ok,
  fault, out_of_fuel, Cmd, pure, ◌>>=◌, ◌>>◌, ◌==◌, ltb, if◌then◌else◌, get_elem?, bit_xor,
}
use wsn_test_platform.Protocol.{Bytes, node_delimiter, node_escape}

-- `(c) - 0x20`, stored in a byte
abbrev pub node_delimiter_transfer : ℕ → ℕ
node_delimiter_transfer c = (c + 256 - 0x20) % 256

-- `dest[index++] = …`: the state is what has been written from `dest[0]` on, of which `index` is the
-- length, so that a copy starts from the empty list. The end of `dest` is the caller's to check.
abbrev emit : Bytes → Cmd Bytes (Unit {0})
emit bs out = ok tt (out ++ bs)

-- The loop of `copy_with_process_delimiter`. Its counter `i` is a `uint8_t`.
unfoldable pub copy_loop : ℕ → Bytes → ℕ → ℕ → ℕ → Cmd Bytes ℕ
copy_loop zero src copy_len i index = λ _. out_of_fuel
copy_loop (suc k) src copy_len i index =
    if ltb i copy_len
    then (elim (get_elem? src i) [
      | none ↦ λ _. fault
      | some value ↦
          if value == node_delimiter || value == node_escape
          then (do
            emit (node_escape ∷ node_delimiter_transfer value ∷ [])
            copy_loop k src copy_len ((i + 1) % 256) (index + 2))
          else (do emit (value ∷ []); copy_loop k src copy_len ((i + 1) % 256) (index + 1))
    ])
    else pure index

-- The fuel bounds the rounds of the loop; 256 is enough for every copy that ends.
unfoldable pub copy_with_process_delimiter : ℕ → Bytes → ℕ → Cmd Bytes ℕ
unfolding copy_loop
copy_with_process_delimiter fuel src copy_len = copy_loop fuel src copy_len 0 0

unfoldable pub crc_16_width : Bytes → ℕ → ℕ
crc_16_width buf buf_size = 0

-- The loop of `even_check`, by the rounds left; a read past the buffer is `none`.
unfoldable pub even_loop : ℕ → Bytes → ℕ → ℕ → Option ℕ
even_loop zero buf i result = some result
even_loop (suc k) buf i result = elim (get_elem? buf i) [
  | none ↦ none
  | some b ↦ even_loop k buf (i + 1) (bit_xor result b)
]

-- `even_check`: the answer, TRUE if no bit is left over; `none` is a read past the buffer.
unfoldable pub even_check : Bytes → ℕ → Option Bool
unfolding even_loop
even_check buf buf_size = elim (get_elem? buf 0) [
  | none ↦ none
  | some b ↦ elim (even_loop (buf_size - 1) buf 1 b) [
    | none ↦ none
    | some result ↦ some (result == 0)
  ]
]
