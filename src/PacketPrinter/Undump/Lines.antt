-- ===== src/PacketPrinter/Undump/Lines.antt =====
-- A line of the dump, read by the reader of the dump.
use wsn_test_platform.Shared.{
  ℕ, zero, suc, ◌+◌, ◌-◌, ◌/◌, ◌%◌, ◌≤◌, ◌<◌, Bool, true, false, [], ◌∷◌, ◌++◌, ◌≡◌, refl, ap, ◌∙◌,
  append_assoc, ltb, ◌==◌, if◌then◌else◌, length, length-append, drop, map, All, codes, hex_byte,
  hex_four, arith,
}
use wsn_test_platform.Protocol.{Bytes}
use wsn_test_platform.PacketPrinter.Payload.{shown, line_width}
use wsn_test_platform.PacketPrinter.Undump.Layout.{cells, blanks, line, line_of}
use wsn_test_platform.PacketPrinter.Undump.Reader.{
  OnLine, read_line, read_cells, skip_offset, skip_line, digit_seen, hex_four-Seen,
  skip_offset-Seen, skip_line-OnLine, skip_line_newline, read_cells-cells,
}

blanks_first :
    (k : ℕ) (text : Bytes)
    → (rest : Bytes) × (blanks k ++ (32 ∷ 32 ∷ 32 ∷ text) ≡ 32 ∷ 32 ∷ 32 ∷ rest)
unfolding blanks
blanks_first zero text = (text, refl)
blanks_first (suc k) text = (blanks k ++ (32 ∷ 32 ∷ 32 ∷ text), refl)

gap_first :
    (b : Bool) (k : ℕ) (text : Bytes)
    → (rest : Bytes) × ((if b then 32 ∷ [] else []) ++ (blanks k ++ (32 ∷ 32 ∷ 32 ∷ text))
        ≡ 32 ∷ 32 ∷ 32 ∷ rest)
gap_first false k text = blanks_first k text
gap_first true k text = let (rest, e) = blanks_first k text in (32 ∷ rest, ap (λ t. 32 ∷ t) e)

line_assoc :
    (n offset : ℕ) (bs text : Bytes)
    → line_of n offset bs ++ text
      ≡ hex_four offset
        ++ (32
            ∷ 32
            ∷ 32
            ∷ (cells 0 bs
                ++ ((if ltb n 8 then 32 ∷ [] else [])
                    ++ (blanks (line_width - n)
                        ++ (32 ∷ 32 ∷ 32 ∷ (map shown bs ++ (10 ∷ text)))))))
unfolding line_of
line_assoc n offset bs text = simp append_assoc

pub read_line-line :
    (offset : ℕ) (bs text : Bytes)
    → length bs ≤ line_width
    → All (λ b. b < 256) bs
    → read_line (line offset bs ++ text) ≡ bs
unfolding read_line
read_line-line offset bs text h hs =
    let n = length bs in
    let after = map shown bs ++ (10 ∷ text) in
    let (rest, e) = gap_first (ltb n 8) (line_width - n) after in
    ap (λ t. read_cells 16 0 (drop 3 (skip_offset t))) (line_assoc n offset bs text)
    ∙ ap (λ t. read_cells 16 0 (drop 3 t))
        (skip_offset-Seen (hex_four offset) _ (hex_four-Seen offset))
    ∙ ap (λ t. read_cells 16 0 (cells 0 bs ++ t)) e
    ∙ read_cells-cells 16 0 bs rest h hs

Seen-OnLine : (xs : Bytes) → All (λ c. 33 ≤ c) xs → OnLine xs
Seen-OnLine [] h = tt
Seen-OnLine (c ∷ xs) (h, hs) = (omega arith, Seen-OnLine xs hs)

cells-OnLine : (i : ℕ) (bs : Bytes) → OnLine (cells i bs)
unfolding cells hex_byte
cells-OnLine i [] = tt
cells-OnLine i (b ∷ bs) =
    elim (i == 7)
      as (λ t. OnLine (hex_byte b ++ (32 ∷ ((if t then 32 ∷ [] else []) ++ cells (i + 1) bs)))) [
        | true ↦ (
          omega (arith, digit_seen (b / 16)),
          (
            omega (arith, digit_seen (b % 16)),
            (omega arith, (omega arith, cells-OnLine (i + 1) bs)),
          ),
        )
        | false ↦ (
          omega (arith, digit_seen (b / 16)),
          (omega (arith, digit_seen (b % 16)), (omega arith, cells-OnLine (i + 1) bs)),
        )
      ]

blanks-OnLine : (k : ℕ) → OnLine (blanks k)
unfolding blanks
blanks-OnLine zero = tt
blanks-OnLine (suc k) = (omega arith, (omega arith, (omega arith, blanks-OnLine k)))

shown-OnLine : (bs : Bytes) → OnLine (map shown bs)
shown-OnLine [] = tt
shown-OnLine (b ∷ bs) = (ground arith, shown-OnLine bs)

gap-OnLine : (b : Bool) → OnLine (if b then 32 ∷ [] else [])
gap-OnLine true = (omega arith, tt)
gap-OnLine false = tt

pub skip_line-line : (offset : ℕ) (bs text : Bytes) → skip_line (line offset bs ++ text) ≡ text
skip_line-line offset bs text =
    let n = length bs in
    ap skip_line (line_assoc n offset bs text)
    ∙ skip_line-OnLine (hex_four offset) _ (Seen-OnLine (hex_four offset) (hex_four-Seen offset))
    ∙ skip_line-OnLine (32 ∷ 32 ∷ 32 ∷ []) _ (omega arith, (omega arith, (omega arith, tt)))
    ∙ skip_line-OnLine (cells 0 bs) _ (cells-OnLine 0 bs)
    ∙ skip_line-OnLine (if ltb n 8 then 32 ∷ [] else []) _ (gap-OnLine (ltb n 8))
    ∙ skip_line-OnLine (blanks (line_width - n)) _ (blanks-OnLine (line_width - n))
    ∙ skip_line-OnLine (32 ∷ 32 ∷ 32 ∷ []) _ (omega arith, (omega arith, (omega arith, tt)))
    ∙ skip_line-OnLine (map shown bs) _ (shown-OnLine bs)
    ∙ skip_line_newline text

cons_first :
    (xs : Bytes) (d : ℕ) (text : Bytes) → (c : ℕ) × (rest : Bytes) × (xs ++ (d ∷ text) ≡ c ∷ rest)
cons_first [] d text = (d, text, refl)
cons_first (x ∷ xs) d text = (x, xs ++ (d ∷ text), refl)

pub line_first :
    (offset : ℕ) (bs text : Bytes) → (c : ℕ) × (rest : Bytes) × (line offset bs ++ text ≡ c ∷ rest)
line_first offset bs text =
    let (c, rest, e) = cons_first (hex_four offset) 32 _ in
    (c, rest, line_assoc (length bs) offset bs text ∙ e)

pub line_pos : (offset : ℕ) (bs : Bytes) → 0 < length (line offset bs)
unfolding line_of
line_pos offset bs = omega (
  arith,
  length-append (hex_four offset) (codes "   "),
  length-append (hex_four offset ++ codes "   ") (after),
)
  where
    after : Bytes
    after =
        cells 0 bs
        ++ ((if ltb (length bs) 8 then codes " " else [])
            ++ (blanks (line_width - length bs) ++ (codes "   " ++ (map shown bs ++ codes "\n"))))
