-- ===== src/HexParser/Scan.antt =====
-- The conversion `%0Nx` of the C library's sscanf, as module/hex_parser/hex_parser.c uses it: white
-- space, then at most N characters of a sign, a prefix 0x and digits. A value has 32 bits.
use wsn_test_platform.Shared.{
  ℕ, zero, suc, ◌+◌, ◌-◌, ◌*◌, ◌%◌, ◌^◌, Bool, ◌&&◌, ◌||◌, Option, none, some, [], ◌∷◌, ◌==◌, leb,
  if◌then◌else◌,
}
use wsn_test_platform.Protocol.{Bytes}

unfoldable pub is_space : ℕ → Bool
is_space c = c == 32 || leb 9 c && leb c 13

unfoldable pub is_hex : ℕ → Bool
is_hex c = leb b'0' c && leb c b'9' || leb b'A' c && leb c b'F' || leb b'a' c && leb c b'f'

unfoldable pub hex_value : ℕ → ℕ
hex_value c = if leb c b'9' then c - b'0' else if leb c b'F' then c - b'A' + 10 else c - b'a' + 10

-- The digits of a field that has `width` characters left, with their value and their number so far
unfoldable pub hex_digits : ℕ → Bytes → ℕ → ℕ → Option (ℕ × Bytes)
unfolding is_hex hex_value
hex_digits zero s value count = if count == 0 then none else some (value, s)
hex_digits (suc width) [] value count = if count == 0 then none else some (value, [])
hex_digits (suc width) (c ∷ s) value count =
    let more = hex_digits width s (value * 16 + hex_value c) (count + 1) in
    if is_hex c then more else if count == 0 then none else some (value, c ∷ s)

-- A prefix 0x belongs to the field where it fits, and then digits have to follow.
unfoldable pub scan_prefix : ℕ → Bytes → Option (ℕ × Bytes)
unfolding hex_digits
scan_prefix (suc (suc width)) (c ∷ d ∷ s) =
    if c == b'0' && (d == b'x' || d == b'X')
    then hex_digits width s 0 0
    else hex_digits (suc (suc width)) (c ∷ d ∷ s) 0 0
scan_prefix width s = hex_digits width s 0 0

abbrev pub negate : Option (ℕ × Bytes) → Option (ℕ × Bytes)
negate none = none
negate (some (value, s)) = some ((2 ^ 32 - value) % 2 ^ 32, s)

-- A field that starts at its first character
unfoldable pub scan_sign : ℕ → Bytes → Option (ℕ × Bytes)
unfolding scan_prefix
scan_sign width [] = none
scan_sign width (c ∷ s) =
    if c == b'-'
    then negate (scan_prefix (width - 1) s)
    else if c == b'+'
    then scan_prefix (width - 1) s
    else scan_prefix width (c ∷ s)

unfoldable pub skip_space : Bytes → Bytes
unfolding is_space
skip_space [] = []
skip_space (c ∷ s) = if is_space c then skip_space s else c ∷ s

-- `%0Nx`: the value and what is left of the text, or no conversion
unfoldable pub scan_hex : ℕ → Bytes → Option (ℕ × Bytes)
unfolding scan_sign skip_space
scan_hex width s = scan_sign width (skip_space s)

-- The string that starts here; `none` if the buffer ends before a NUL.
unfoldable pub c_string : Bytes → Option Bytes
c_string [] = none
c_string (c ∷ s) = elim (c_string s) as (λ x. Option Bytes) [
  | none ↦ if c == 0 then some [] else none
  | some t ↦ if c == 0 then some [] else some (c ∷ t)
]
