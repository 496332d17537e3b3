-- ===== src/PacketPrinter/Undump/Reader.antt =====
-- A reader of the dump that module/pcap/pcap_packet_process.c prints of a payload.
use wsn_test_platform.Shared.{
  ℕ, zero, suc, ◌+◌, ◌-◌, ◌*◌, ◌/◌, ◌%◌, ◌≤◌, ◌<◌, Bool, true, false, [], ◌∷◌, ◌++◌, ◌≡◌, refl, ltb,
  ◌==◌, if◌then◌else◌, length, drop, replicate, All, All-append, hex_byte, hex_digit, hex_digits,
  hex_four, arith,
}
use wsn_test_platform.Protocol.{Bytes}
use wsn_test_platform.PacketPrinter.Undump.Layout.{cells}

abbrev hex_value : ℕ → ℕ
hex_value c = if ltb c b'a' then c - b'0' else c - (b'a' - 10)

-- Columns of bytes up to the first blank one: how many there can be, and how many stand before them
unfoldable pub read_cells : ℕ → ℕ → Bytes → Bytes
read_cells zero i text = []
read_cells (suc k) i (h ∷ l ∷ s ∷ text) =
    let rest = read_cells k (i + 1) (if i == 7 then drop 1 text else text) in
    if h == 32 then [] else ((hex_value h * 16 + hex_value l) ∷ rest)
read_cells (suc k) i (h ∷ l ∷ []) = []
read_cells (suc k) i (h ∷ []) = []
read_cells (suc k) i [] = []

unfoldable pub skip_offset : Bytes → Bytes
skip_offset [] = []
skip_offset (c ∷ text) = if c == 32 then c ∷ text else skip_offset text

unfoldable pub skip_line : Bytes → Bytes
skip_line [] = []
skip_line (c ∷ text) = if c == b'\n' then text else skip_line text

-- The bytes of a line: sixteen columns, three places after the offset
unfoldable pub read_line : Bytes → Bytes
unfolding read_cells skip_offset
read_line text = read_cells 16 0 (drop 3 (skip_offset text))

-- The bytes of a dump of at most as many lines as the fuel says
unfoldable pub undump_lines : ℕ → Bytes → Bytes
unfolding read_line skip_line
undump_lines zero text = []
undump_lines (suc k) [] = []
undump_lines (suc k) (c ∷ text) = read_line (c ∷ text) ++ undump_lines k (skip_line (c ∷ text))

unfoldable pub undump : Bytes → Bytes
unfolding undump_lines
undump text = undump_lines (length text) text

abbrev pub Seen : Bytes → Type 0
Seen text = All (λ c. 33 ≤ c) text

abbrev pub OnLine : Bytes → Type 0
OnLine text = All (λ c. 32 ≤ c) text

pub digit_seen : (d : ℕ) → 33 ≤ hex_digit d
unfolding hex_digit
digit_seen d = ground arith

hex_digits-Seen : (k n : ℕ) → Seen (hex_digits k n)
unfolding hex_digits
hex_digits-Seen zero n = tt
hex_digits-Seen (suc k) n =
    elim (ltb n 16)
      as (λ b. Seen (elim b [
        | true ↦ hex_digit n ∷ []
        | false ↦ hex_digits k (n / 16) ++ (hex_digit (n % 16) ∷ [])
      ])) [
        | true ↦ (digit_seen n, tt)
        | false ↦
            All-append (λ c. 33 ≤ c) (hex_digits k (n / 16)) _ (hex_digits-Seen k (n / 16))
              (digit_seen (n % 16), tt)
      ]

zeros-Seen : (k : ℕ) → Seen (replicate k b'0')
zeros-Seen zero = tt
zeros-Seen (suc k) = (omega arith, zeros-Seen k)

pub hex_four-Seen : (n : ℕ) → Seen (hex_four n)
unfolding hex_four
hex_four-Seen n =
    All-append (λ c. 33 ≤ c) (replicate (4 - length (hex_digits 8 n)) b'0') _
      (zeros-Seen (4 - length (hex_digits 8 n))) (hex_digits-Seen 8 n)

pub skip_offset-Seen : (xs text : Bytes) → Seen xs → skip_offset (xs ++ (32 ∷ text)) ≡ 32 ∷ text
unfolding skip_offset
skip_offset-Seen [] text h = refl
skip_offset-Seen (c ∷ xs) text (h, hs) = ground (arith, skip_offset-Seen xs text hs)

pub skip_line-OnLine : (xs text : Bytes) → OnLine xs → skip_line (xs ++ text) ≡ skip_line text
unfolding skip_line
skip_line-OnLine [] text h = refl
skip_line-OnLine (c ∷ xs) text (h, hs) = ground (arith, skip_line-OnLine xs text hs)

after_gap :
    (b : Bool) (xs text : Bytes)
    → (if b
        then drop 1 (((if b then 32 ∷ [] else []) ++ xs) ++ text)
        else (((if b then 32 ∷ [] else []) ++ xs) ++ text))
      ≡ xs ++ text
after_gap true xs text = refl
after_gap false xs text = refl

hex_byte_lem :
    (b : ℕ)
    → b < 256
    → ((hex_digit (b / 16) == 32) ≡ false)
      × (hex_value (hex_digit (b / 16)) * 16 + hex_value (hex_digit (b % 16)) ≡ b)
unfolding hex_digit
hex_byte_lem b h = ground arith

pub read_cells-cells :
    (k i : ℕ) (bs text : Bytes)
    → length bs ≤ k
    → All (λ b. b < 256) bs
    → read_cells k i (cells i bs ++ (32 ∷ 32 ∷ 32 ∷ text)) ≡ bs
unfolding read_cells cells hex_byte
read_cells-cells zero i [] text h hs = refl
read_cells-cells zero i (b ∷ bs) text h hs = absurd (omega arith)
read_cells-cells (suc k) i [] text h hs = refl
read_cells-cells (suc k) i (b ∷ bs) text h (hb, hs) =
    rw
      (
        (hex_byte_lem b hb).0,
        (hex_byte_lem b hb).1,
        after_gap (i == 7) (cells (i + 1) bs) (32 ∷ 32 ∷ 32 ∷ text),
        read_cells-cells k (i + 1) bs text (omega arith) hs,
      )
      refl

pub skip_line_newline : (text : Bytes) → skip_line (10 ∷ text) ≡ text
unfolding skip_line
skip_line_newline text = refl

pub undump_lines_cons :
    (k c : ℕ) (text : Bytes)
    → undump_lines (suc k) (c ∷ text)
      ≡ read_line (c ∷ text) ++ undump_lines k (skip_line (c ∷ text))
unfolding undump_lines
undump_lines_cons k c text = refl
