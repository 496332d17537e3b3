-- ===== src/Deployer/Commands.antt =====
-- What the loop over the command file in deployer/deployer.c reads.
use wsn_test_platform.Shared.{
  ℕ, ◌+◌, ◌<◌, false, some, List, [], ◌∷◌, ◌++◌, map, ◌==◌, length, All, length-append, ◌≡◌, refl,
  ◌∙◌, sym, ap, arith, append_assoc, append-nil, lt→ltb,
}
use wsn_test_platform.Protocol.{Bytes}
use wsn_test_platform.HexParser.Scan.{c_string}
use wsn_test_platform.Deployer.Config.{read_commands, strdup}

-- A byte of a command: no NUL, no end of a line and not 255
abbrev pub IsPlain : ℕ → Type 0
IsPlain c = ((c == 0) ≡ false) × ((c == 10) ≡ false) × ((c == 255) ≡ false)

-- A command that fits into the buffer with what is added to it
abbrev pub IsCommand : Bytes → Type 0
IsCommand line = All IsPlain line × (0 < length line) × (length line < 98)

abbrev pub with_crlf : Bytes → Bytes
with_crlf line = line ++ (13 ∷ 10 ∷ [])

-- The lines, each with its end, and then what follows
unfoldable pub script : List Bytes → Bytes → Bytes
script [] rest = rest
script (line ∷ lines) rest = line ++ (10 ∷ script lines rest)

c_string_plain :
    (text : Bytes) → All (λ c. (c == 0) ≡ false) text → c_string (text ++ (0 ∷ [])) ≡ some text
unfolding c_string
c_string_plain [] h = refl
c_string_plain (c ∷ text) (hc, h) = rw (c_string_plain text h, hc)

no_nul : (line : Bytes) → All IsPlain line → All (λ c. (c == 0) ≡ false) (with_crlf line)
no_nul [] h = (refl, (refl, tt))
no_nul (c ∷ line) ((hc, h10, h255), h) = (hc, no_nul line h)

strdup_plain : (line : Bytes) → All IsPlain line → strdup (with_crlf line) ≡ with_crlf line
strdup_plain line h = rw (strdup, c_string_plain (with_crlf line) (no_nul line h))

All-append : (xs ys : Bytes) → All IsPlain xs → All IsPlain ys → All IsPlain (xs ++ ys)
All-append [] ys p q = q
All-append (x ∷ xs) ys (px, p) q = (px, All-append xs ys p q)

not_zero : (n : ℕ) → 0 < n → (n == 0) ≡ false
not_zero n h = ground arith

-- The bytes of a line go into the buffer.
line_bytes :
    (line rest buffer : Bytes) (commands : List Bytes)
    → All IsPlain line
    → length buffer + length line < 101
    → read_commands (line ++ rest) buffer commands ≡ read_commands rest (buffer ++ line) commands
unfolding read_commands
line_bytes [] rest buffer commands h b =
    ap (λ buf. read_commands rest buf commands) (sym (append-nil buffer))
line_bytes (c ∷ line) rest buffer commands ((h0, h10, h255), h) b =
    rw (h255, h10, lt→ltb (length buffer) 100 (omega (arith, b)))
      (line_bytes line rest (buffer ++ (c ∷ [])) commands h
          (omega (arith, b, length-append buffer (c ∷ [])))
        ∙ ap (λ buf. read_commands rest buf commands) (append_assoc buffer (c ∷ []) line))

-- The end of a line that is not empty makes a command of the buffer.
line_end :
    (rest buffer : Bytes) (commands : List Bytes)
    → IsCommand buffer
    → read_commands (10 ∷ rest) buffer commands
      ≡ read_commands rest [] (commands ++ (with_crlf buffer ∷ []))
unfolding read_commands
line_end rest buffer commands (h, some_bytes, b) =
    rw (not_zero (length buffer) some_bytes, lt→ltb (length buffer + 2) 100 (omega (arith, b)))
      (ap (λ command. read_commands rest [] (commands ++ (command ∷ []))) (strdup_plain buffer h))

-- The bytes behind the last end of a line come to nothing.
last_line :
    (last : Bytes) (commands : List Bytes)
    → All IsPlain last
    → length last < 101
    → read_commands last [] commands ≡ some commands
unfolding read_commands
last_line last commands p b =
    ap (λ s. read_commands s [] commands) (sym (append-nil last))
    ∙ line_bytes last [] [] commands p (omega (arith, b))

-- A file of commands, each on a line of its own, with at most 97 bytes, none of them NUL or 255: the
-- commands follow those of the list in their order, each with CR and LF. A last line without its end
-- is left out.
pub read_commands-script :
    (lines commands : List Bytes) (last : Bytes)
    → All IsCommand lines
    → All IsPlain last
    → length last < 101
    → read_commands (script lines last) [] commands ≡ some (commands ++ map with_crlf lines)
unfolding script
read_commands-script [] commands last h p b =
    last_line last commands p b ∙ ap some (sym (append-nil commands))
read_commands-script (line ∷ lines) commands last ((h, some_bytes, b'), hs) p b =
    line_bytes line (10 ∷ script lines last) [] commands h (omega (arith, b'))
    ∙ line_end (script lines last) line commands (h, some_bytes, b')
    ∙ read_commands-script lines (commands ++ (with_crlf line ∷ [])) last hs p b
    ∙ ap some (append_assoc commands (with_crlf line ∷ []) (map with_crlf lines))
