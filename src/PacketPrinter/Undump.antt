-- ===== src/PacketPrinter/Undump.antt =====
-- module/pcap/pcap_packet_process.c: the printed payload can be read back.
pub mod Layout
pub mod Reader
mod Lines
use wsn_test_platform.Shared.{
  ℕ, zero, suc, ◌+◌, ◌-◌, ◌*◌, ◌^◌, ◌≤◌, ◌<◌, ◌||◌, [], ◌++◌, ◌≡◌, refl, sym, ap, ap₂, subst, ◌∙◌,
  append_assoc, append-nil, Returns, returns, Returns-mono, Returns-if, ltb, leb, ◌==◌, length,
  take, drop, length-drop, length-take_of_le, length-append, take_add, All, All-take, All-left,
  All-right, codes, arith,
}
use wsn_test_platform.Protocol.{Bytes}
use wsn_test_platform.PacketPrinter.Payload.{print_payload, payload_loop, line_width}
use wsn_test_platform.PacketPrinter.Undump.Layout.{line, print_hex_ascii_line-line}
use wsn_test_platform.PacketPrinter.Undump.Reader.{
  undump, undump_lines, undump_lines_cons, read_line, skip_line,
}
use wsn_test_platform.PacketPrinter.Undump.Lines.{
  read_line-line, skip_line-line, line_first, line_pos,
}

-- The text of a dump of some bytes from an offset on: full lines, and a last one
pub data IsDump : ℕ → Bytes → Bytes → Type 0 where
  last : {offset : ℕ} (bs : Bytes) → length bs ≤ line_width → IsDump offset bs (line offset bs)
  more :
      {offset : ℕ} (bs rest text : Bytes)
      → length bs ≤ line_width
      → IsDump (offset + line_width) rest text
      → IsDump offset (bs ++ rest) (line offset bs ++ text)

undump_next :
    (k offset : ℕ) (bs text : Bytes)
    → length bs ≤ line_width
    → All (λ b. b < 256) bs
    → undump_lines (suc k) (line offset bs ++ text) ≡ bs ++ undump_lines k text
undump_next k offset bs text h hs =
    let (c, t, e) = line_first offset bs text in
    ap (undump_lines (suc k)) e
    ∙ undump_lines_cons k c t
    ∙ ap (λ s. read_line s ++ undump_lines k (skip_line s)) (sym e)
    ∙ ap₂ (λ xs s. xs ++ undump_lines k s) (read_line-line offset bs text h hs)
        (skip_line-line offset bs text)

undump_lines-nil : (k : ℕ) → undump_lines k [] ≡ []
unfolding undump_lines
undump_lines-nil zero = refl
undump_lines-nil (suc k) = refl

undump_lines-IsDump :
    (k : ℕ) {offset : ℕ} {bs text : Bytes}
    → IsDump offset bs text
    → All (λ b. b < 256) bs
    → length text ≤ k
    → undump_lines k text ≡ bs
undump_lines-IsDump zero (last {offset} bs h) hs f = absurd (omega (arith, line_pos offset bs))
undump_lines-IsDump zero (more {offset} bs rest text h d) hs f =
    absurd (omega (arith, line_pos offset bs, length-append (line offset bs) text))
undump_lines-IsDump (suc k) (last {offset} bs h) hs f =
    ap (undump_lines (suc k)) (sym (append-nil (line offset bs)))
    ∙ undump_next k offset bs [] h hs
    ∙ ap (λ xs. bs ++ xs) (undump_lines-nil k)
    ∙ append-nil bs
undump_lines-IsDump (suc k) (more {offset} bs rest text h d) hs f =
    undump_next k offset bs text h (All-left (λ b. b < 256) bs rest hs)
    ∙ ap (λ xs. bs ++ xs)
        (undump_lines-IsDump k d (All-right (λ b. b < 256) bs rest hs)
          (omega (arith, line_pos offset bs, length-append (line offset bs) text)))

-- What is taken of a list, in two parts
take_parts : (m n : ℕ) (p : Bytes) → m ≤ n → take n p ≡ take m p ++ take (n - m) (drop m p)
take_parts m n p h = ap (λ k. take k p) (omega arith) ∙ take_add m (n - m) p

pub payload_loop-IsDump :
    (k : ℕ) (p : Bytes) (len offset : ℕ) (out : Bytes)
    → len ≤ line_width * k
    → 0 < k
    → len ≤ length p
    → Returns
        (λ _ t. (text : Bytes) × IsDump offset (take len p) text × (t ≡ out ++ text))
        (payload_loop k p len offset out)
unfolding payload_loop
payload_loop-IsDump zero p len offset out f pos h = absurd (omega arith)
payload_loop-IsDump (suc k) p len offset out f pos h =
    Returns-if (ltb line_width len) _ _ out
      (λ e. rw (print_hex_ascii_line-line p line_width offset out (ground arith)) (
        Returns-mono
          (payload_loop-IsDump k (drop line_width p) (len - line_width) (offset + line_width) _
            (ground arith) (ground arith) (ground (arith, length-drop line_width p)))
          (λ u t (text, d, g). (
            line offset (take line_width p) ++ text,
            subst (λ bs. IsDump offset bs (line offset (take line_width p) ++ text))
                (sym (take_parts line_width len p (ground arith)))
                (more _ _ _ (ground (arith, length-take_of_le line_width p)) d),
            g ∙ append_assoc out (line offset (take line_width p)) text,
          ))))
      (λ e. rw (print_hex_ascii_line-line p len offset out h) (
        returns (line offset (take len p), last _ (ground (arith, length-take_of_le len p)), refl)))

-- Where a payload of 1 to 2 ^ 31 - 1 bytes, each below 256, has been captured, `print_payload` ends and
-- prints, after the title, a text from which a reader of the dump gets exactly these bytes.
pub print_payload-undump :
    (payload : Bytes) (len : ℕ) (out : Bytes)
    → 0 < len
    → len < 2 ^ 31
    → len ≤ length payload
    → All (λ b. b < 256) payload
    → Returns
        (λ _ t.
          (text : Bytes) × (t
            ≡ out ++ (codes "---------------------- Payload ------------------------\n" ++ text))
          × (undump text ≡ take len payload))
        (print_payload payload len out)
unfolding print_payload undump
print_payload-undump payload len out pos small h hs =
    Returns-if (len == 0 || leb (2 ^ 31) len) _ _ out (λ e. absurd (ground arith))
      (λ e.
        Returns-mono (payload_loop-IsDump len payload len 0 _ (omega arith) pos h)
          (λ u t (text, d, g). (
            text,
            g ∙ append_assoc out _ text,
            undump_lines-IsDump (length text) d (All-take (λ b. b < 256) len payload hs)
                (omega arith),
          )))
