-- ===== src/PacketPrinter/Undump/Layout.antt =====
-- module/pcap/pcap_packet_process.c: the layout of a line of the dump.
use wsn_test_platform.Shared.{
  ℕ, zero, suc, ◌+◌, ◌-◌, ◌≤◌, ◌&&◌, [], ◌∷◌, ◌++◌, ◌≡◌, sym, ap, ◌∙◌, append_assoc, append-nil, ok,
  bind_ok, length-take_of_le, ltb, ◌==◌, if◌then◌else◌, length, take, map, codes, hex_byte,
  hex_four, arith,
}
use wsn_test_platform.Protocol.{Bytes}
use wsn_test_platform.PacketPrinter.Payload.{
  print_hex_ascii_line, hex_loop, gap_loop, ascii_loop, line_width, shown,
}

-- The columns of bytes that follow `i` others on their line
unfoldable pub cells : ℕ → Bytes → Bytes
cells i [] = []
cells i (b ∷ bs) = hex_byte b ++ (32 ∷ ((if i == 7 then 32 ∷ [] else []) ++ cells (i + 1) bs))

unfoldable pub blanks : ℕ → Bytes
blanks zero = []
blanks (suc k) = 32 ∷ 32 ∷ 32 ∷ blanks k

-- A line with `n` columns: the offset, the columns, the gap and the characters
unfoldable pub line_of : ℕ → ℕ → Bytes → Bytes
unfolding cells blanks
line_of n offset bs =
    (hex_four offset ++ codes "   ")
    ++ (cells 0 bs
        ++ ((if ltb n 8 then codes " " else [])
            ++ (blanks (line_width - n) ++ (codes "   " ++ (map shown bs ++ codes "\n")))))

abbrev pub line : ℕ → Bytes → Bytes
line offset bs = line_of (length bs) offset bs

hex_loop-cells :
    (k i : ℕ) (ch out : Bytes)
    → k ≤ length ch
    → hex_loop k i ch out ≡ ok tt (out ++ cells i (take k ch))
unfolding hex_loop cells
hex_loop-cells zero i ch out h = ap (ok tt) (sym (append-nil out))
hex_loop-cells (suc k) i [] out h = absurd (omega arith)
hex_loop-cells (suc k) i (b ∷ ch) out h =
    hex_loop-cells k (i + 1) ch
      ((out ++ (hex_byte b ++ codes " ")) ++ (if i == 7 then codes " " else [])) (omega arith)
    ∙ ap (ok tt) (simp append_assoc)

gap_loop-blanks : (k : ℕ) (out : Bytes) → gap_loop k out ≡ ok tt (out ++ blanks k)
unfolding gap_loop blanks
gap_loop-blanks zero out = ap (ok tt) (sym (append-nil out))
gap_loop-blanks (suc k) out =
    gap_loop-blanks k (out ++ codes "   ") ∙ ap (ok tt) (append_assoc out (codes "   ") (blanks k))

ascii_loop-shown :
    (k : ℕ) (ch out : Bytes)
    → k ≤ length ch
    → ascii_loop k ch out ≡ ok tt (out ++ map shown (take k ch))
unfolding ascii_loop
ascii_loop-shown zero ch out h = ap (ok tt) (sym (append-nil out))
ascii_loop-shown (suc k) [] out h = absurd (omega arith)
ascii_loop-shown (suc k) (b ∷ ch) out h =
    ascii_loop-shown k ch (out ++ (shown b ∷ [])) (omega arith)
    ∙ ap (ok tt) (append_assoc out (shown b ∷ []) (map shown (take k ch)))

one_test : (len : ℕ) → (ltb len line_width && ltb len 8) ≡ ltb len 8
one_test len = ground arith

print_hex_ascii_line-line_of :
    (payload : Bytes) (len offset : ℕ) (out : Bytes)
    → len ≤ length payload
    → print_hex_ascii_line payload len offset out
      ≡ ok tt (out ++ line_of len offset (take len payload))
unfolding print_hex_ascii_line line_of
print_hex_ascii_line-line_of payload len offset out h =
    bind_ok (hex_loop len 0 payload) _ (hex_loop-cells len 0 payload _ h)
    ∙ bind_ok (gap_loop (line_width - len)) _ (gap_loop-blanks (line_width - len) _)
    ∙ bind_ok (ascii_loop len payload) _ (ascii_loop-shown len payload _ h)
    ∙ ap (ok tt) (rw (one_test len) (simp append_assoc))

pub print_hex_ascii_line-line :
    (payload : Bytes) (len offset : ℕ) (out : Bytes)
    → len ≤ length payload
    → print_hex_ascii_line payload len offset out ≡ ok tt (out ++ line offset (take len payload))
print_hex_ascii_line-line payload len offset out h =
    print_hex_ascii_line-line_of payload len offset out h
    ∙ ap (λ n. ok tt (out ++ line_of n offset (take len payload)))
        (sym (length-take_of_le len payload h))
