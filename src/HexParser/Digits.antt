-- ===== src/HexParser/Digits.antt =====
-- Two hexadecimal digits for a byte, as a HEX file has them, and what the scans of
-- module/hex_parser/hex_parser.c read of them.
use wsn_test_platform.Shared.{
  ℕ, suc, ◌+◌, ◌*◌, ◌/◌, ◌%◌, ◌<◌, true, false, ◌||◌, some, [], ◌∷◌, ◌++◌, ◌==◌, ltb, if◌then◌else◌,
  ◌≡◌, and_false, ◌∙◌, ap, ap₂, arith, append_assoc,
}
use wsn_test_platform.Protocol.{Bytes}
use wsn_test_platform.HexParser.Scan.{
  is_space, is_hex, hex_value, hex_digits, scan_prefix, scan_sign, skip_space, scan_hex, c_string,
}

-- The digit of a number below 16, in upper case
unfoldable pub hex_char : ℕ → ℕ
hex_char n = if ltb n 10 then n + 48 else n + 55

unfoldable pub hex_byte : ℕ → Bytes
unfolding hex_char
hex_byte b = hex_char (b / 16) ∷ hex_char (b % 16) ∷ []

unfoldable pub hex_bytes : Bytes → Bytes
unfolding hex_byte
hex_bytes [] = []
hex_bytes (b ∷ bs) = hex_byte b ++ hex_bytes bs

hex_char-is_hex : (n : ℕ) → n < 16 → is_hex (hex_char n) ≡ true
unfolding is_hex hex_char
hex_char-is_hex n h = ground arith

hex_char-hex_value : (n : ℕ) → n < 16 → hex_value (hex_char n) ≡ n
unfolding hex_value hex_char
hex_char-hex_value n h = ground arith

hex_char-is_space : (n : ℕ) → is_space (hex_char n) ≡ false
unfolding is_space hex_char
hex_char-is_space n = ground arith

hex_char-minus : (n : ℕ) → (hex_char n == 45) ≡ false
unfolding hex_char
hex_char-minus n = ground arith

hex_char-plus : (n : ℕ) → (hex_char n == 43) ≡ false
unfolding hex_char
hex_char-plus n = ground arith

hex_char-nul : (n : ℕ) → (hex_char n == 0) ≡ false
unfolding hex_char
hex_char-nul n = ground arith

hex_char-prefix : (n : ℕ) → n < 16 → (hex_char n == 120 || hex_char n == 88) ≡ false
unfolding hex_char
hex_char-prefix n h = ground arith

hex_digits-hex_char :
    (width n value count : ℕ) (s : Bytes)
    → n < 16
    → hex_digits (suc width) (hex_char n ∷ s) value count
      ≡ hex_digits width s (value * 16 + n) (count + 1)
unfolding hex_digits
hex_digits-hex_char width n value count s h = rw (hex_char-is_hex n h, hex_char-hex_value n h)

scan_hex-hex_char :
    (width m n : ℕ) (s : Bytes)
    → n < 16
    → scan_hex (suc (suc width)) (hex_char m ∷ hex_char n ∷ s)
      ≡ hex_digits (suc (suc width)) (hex_char m ∷ hex_char n ∷ s) 0 0
unfolding scan_hex scan_sign scan_prefix skip_space
scan_hex-hex_char width m n s h = rw (
  hex_char-is_space m,
  hex_char-minus m,
  hex_char-plus m,
  hex_char-prefix n h,
  and_false (hex_char m == 48),
)

low : (b : ℕ) → b % 16 < 16
low b = omega arith

high : (b : ℕ) → b < 256 → b / 16 < 16
high b h = omega arith

-- The two digits of a byte within a field
hex_digits-hex_byte :
    (width b value count : ℕ) (s : Bytes)
    → b < 256
    → hex_digits (suc (suc width)) (hex_byte b ++ s) value count
      ≡ hex_digits width s (value * 256 + b) (count + 2)
unfolding hex_byte
hex_digits-hex_byte width b value count s h =
    hex_digits-hex_char (suc width) (b / 16) value count (hex_char (b % 16) ∷ s) (high b h)
    ∙ hex_digits-hex_char width (b % 16) (value * 16 + b / 16) (count + 1) s (low b)
    ∙ ap₂ (λ v n. hex_digits width s v n) (omega arith) (omega arith)

hex_digits_full : (value count : ℕ) (s : Bytes) → hex_digits 0 s value (suc count) ≡ some (value, s)
unfolding hex_digits
hex_digits_full value count s = ground arith

-- A field of two digits is the byte that they stand for.
pub scan_hex-hex_byte : (b : ℕ) (s : Bytes) → b < 256 → scan_hex 2 (hex_byte b ++ s) ≡ some (b, s)
unfolding hex_byte
scan_hex-hex_byte b s h =
    scan_hex-hex_char 0 (b / 16) (b % 16) s (low b)
    ∙ hex_digits-hex_byte 0 b 0 0 s h
    ∙ hex_digits_full (0 * 256 + b) 1 s
    ∙ ap (λ n. some (n, s)) (omega arith)

-- A field of four digits is the number of its two bytes.
pub scan_hex-two_bytes :
    (h l : ℕ) (s : Bytes)
    → h < 256
    → l < 256
    → scan_hex 4 (hex_byte h ++ (hex_byte l ++ s)) ≡ some (h * 256 + l, s)
unfolding hex_byte
scan_hex-two_bytes h l s hh hl =
    scan_hex-hex_char 2 (h / 16) (h % 16) (hex_byte l ++ s) (low h)
    ∙ hex_digits-hex_byte 2 h 0 0 (hex_byte l ++ s) hh
    ∙ hex_digits-hex_byte 0 l (0 * 256 + h) 2 s hl
    ∙ hex_digits_full ((0 * 256 + h) * 256 + l) 3 s
    ∙ ap (λ n. some (n, s)) (omega arith)

c_string-cons :
    (c : ℕ) (s t : Bytes) → (c == 0) ≡ false → c_string s ≡ some t → c_string (c ∷ s) ≡ some (c ∷ t)
unfolding c_string
c_string-cons c s t h e = rw (c_string, e, h)

pub c_string-hex_byte :
    (b : ℕ) (s t : Bytes)
    → c_string s ≡ some t
    → c_string (hex_byte b ++ s) ≡ some (hex_byte b ++ t)
unfolding hex_byte
c_string-hex_byte b s t e =
    c_string-cons (hex_char (b / 16)) (hex_char (b % 16) ∷ s) (hex_char (b % 16) ∷ t)
      (hex_char-nul (b / 16)) (c_string-cons (hex_char (b % 16)) s t (hex_char-nul (b % 16)) e)

pub c_string-hex_bytes :
    (bs s t : Bytes) → c_string s ≡ some t → c_string (hex_bytes bs ++ s) ≡ some (hex_bytes bs ++ t)
unfolding hex_bytes
c_string-hex_bytes [] s t e = e
c_string-hex_bytes (b ∷ bs) s t e =
    rw (append_assoc (hex_byte b) (hex_bytes bs) s, append_assoc (hex_byte b) (hex_bytes bs) t)
      (c_string-hex_byte b (hex_bytes bs ++ s) (hex_bytes bs ++ t) (c_string-hex_bytes bs s t e))
