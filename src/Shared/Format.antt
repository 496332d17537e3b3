-- ===== src/Shared/Format.antt =====
-- The texts that `printf` and its kin write: string literals, %d, %02x and %04x.
use Prim.Native.Nat.{ℕ, zero, suc, ◌+◌, ◌-◌, ◌/◌, ◌%◌}
use Prim.Native.Char.{code}
use Prim.Native.String.{String}
use mathlib.Core.Bool.{true, false}
use mathlib.Core.List.{List, [], ◌∷◌, ◌++◌}
use wsn_test_platform.Shared.Tests.{ltb, if◌then◌else◌}
use wsn_test_platform.Shared.Lists.{length, replicate}

abbrev pub codes : String → List ℕ
codes String.[] = []
codes (String.◌∷◌ c s) = code c ∷ codes s

-- The last digits of a number, at most as many as the fuel says: 20 hold every 64-bit number.
unfoldable pub decimal_digits : ℕ → ℕ → List ℕ
decimal_digits zero n = []
decimal_digits (suc k) n = elim (ltb n 10) [
  | true ↦ (b'0' + n) ∷ []
  | false ↦ decimal_digits k (n / 10) ++ ((b'0' + n % 10) ∷ [])
]

unfoldable pub decimal : ℕ → List ℕ
unfolding decimal_digits
decimal n = decimal_digits 20 n

unfoldable pub hex_digit : ℕ → ℕ
hex_digit d = if ltb d 10 then b'0' + d else b'a' + (d - 10)

-- "%02x" of a byte
unfoldable pub hex_byte : ℕ → List ℕ
unfolding hex_digit
hex_byte b = hex_digit (b / 16) ∷ hex_digit (b % 16) ∷ []

unfoldable pub hex_digits : ℕ → ℕ → List ℕ
unfolding hex_digit
hex_digits zero n = []
hex_digits (suc k) n = elim (ltb n 16) [
  | true ↦ hex_digit n ∷ []
  | false ↦ hex_digits k (n / 16) ++ (hex_digit (n % 16) ∷ [])
]

-- "%04x" of a 32-bit number: zeros in front up to four digits
unfoldable pub hex_four : ℕ → List ℕ
unfolding hex_digits
hex_four n = replicate (4 - length (hex_digits 8 n)) b'0' ++ hex_digits 8 n
