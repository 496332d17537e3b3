-- ===== src/HexParser/Files.antt =====
-- A whole file of data records, as `hex_parser_process_file` of module/hex_parser/hex_parser.c goes
-- through it.
use wsn_test_platform.Shared.{
  ℕ, suc, ◌+◌, ◌-◌, ◌*◌, ◌/◌, ◌%◌, ◌<◌, true, false, some, List, [], ◌∷◌, ◌++◌, Ret, ret_ok,
  ret_oom, ret_stop, ret_invalid_params, ret_fail, ok, Cmd, pure, ◌>>=◌, ◌==◌, leb, if◌then◌else◌,
  length, drop, All, ◌≡◌, refl, ◌∙◌, ap, bind_ok, arith, append_assoc, length-append, Option-cases,
  inl, inr,
}
use wsn_test_platform.Protocol.{Bytes}
use wsn_test_platform.HexParser.{
  HexParser, fgets_lines, line_loop, process_record, hex_parser_process_per_line,
  hex_parser_process_file,
}
use wsn_test_platform.HexParser.Scan.{c_string}
use wsn_test_platform.HexParser.Digits.{hex_char, hex_bytes}
use wsn_test_platform.HexParser.Records.{record_bytes, record_line, IsByte, is_checked}
use wsn_test_platform.HexParser.Lines.{
  hex_parser_process_per_line-record, process_per_line-hex_bytes,
}

-- A data record: the bytes of the address, the data and the checksum
pub record DataRecord : Type 0 where
  pub addr_high : ℕ
  pub addr_low : ℕ
  pub bytes : Bytes
  pub check : ℕ

abbrev pub bytes_of : DataRecord → Bytes
bytes_of r = record_bytes r.addr_high r.addr_low 0 r.bytes r.check

-- A record that fits into the line buffer and passes the checksum
abbrev pub IsRecord : DataRecord → Type 0
IsRecord r =
    IsByte r.addr_high
    × IsByte r.addr_low
    × IsByte r.check
    × All IsByte r.bytes
    × (length r.bytes < 122)
    × (is_checked (bytes_of r) ≡ true)

-- The records, a line each, and then what follows them
unfoldable pub file_of : List DataRecord → Bytes → Bytes
unfolding hex_bytes
file_of [] rest = rest
file_of (r ∷ rs) rest = record_line (bytes_of r) ++ (10 ∷ file_of rs rest)

-- `:00000001FF`
abbrev pub eof_line : Bytes
eof_line = record_line (0 ∷ 0 ∷ 0 ∷ 1 ∷ 255 ∷ [])

abbrev NoNewline : ℕ → Type 0
NoNewline c = (c == 10) ≡ false

hex_char-NoNewline : (n : ℕ) → NoNewline (hex_char n)
unfolding hex_char
hex_char-NoNewline n = ground arith

hex_bytes-NoNewline : (bytes : Bytes) → All NoNewline (hex_bytes bytes)
unfolding hex_bytes
hex_bytes-NoNewline [] = tt
hex_bytes-NoNewline (b ∷ bytes) =
    (hex_char-NoNewline (b / 16), (hex_char-NoNewline (b % 16), hex_bytes-NoNewline bytes))

length-hex_bytes : (bytes : Bytes) → length (hex_bytes bytes) ≡ 2 * length bytes
unfolding hex_bytes
length-hex_bytes [] = refl
length-hex_bytes (b ∷ bytes) = omega (arith, length-hex_bytes bytes)

fits : (room n : ℕ) → suc n < room → leb room 1 ≡ false
fits room n h = ground arith

-- One call of fgets takes a line that fits, with its end.
fgets_lines_line :
    (line acc rest : Bytes) (room : ℕ)
    → All NoNewline line
    → length line < room
    → fgets_lines room acc (line ++ (10 ∷ rest))
      ≡ (acc ++ (line ++ (10 ∷ []))) ∷ fgets_lines 255 [] rest
unfolding fgets_lines
fgets_lines_line [] acc rest room h n = refl
fgets_lines_line (c ∷ line) acc rest room (hc, h) n =
    rw (hc, fits room (length line) n)
      (fgets_lines_line line (acc ++ (c ∷ [])) rest (room - 1) h (omega arith)
        ∙ ap (λ l. l ∷ fgets_lines 255 [] rest) (append_assoc acc (c ∷ []) (line ++ (10 ∷ []))))

c_string-end : (s : Bytes) → c_string (10 ∷ 0 ∷ s) ≡ some (10 ∷ [])
unfolding c_string
c_string-end s = elim (Option-cases (c_string s)) [ inl e ↦ rw e refl | inr (t, e) ↦ rw e refl ]

record_line-NoNewline : (bytes : Bytes) → All NoNewline (record_line bytes)
record_line-NoNewline bytes = (refl, hex_bytes-NoNewline bytes)

record_fits : (r : DataRecord) → length r.bytes < 122 → length (record_line (bytes_of r)) < 255
record_fits r h =
    omega (arith, h, length-hex_bytes (bytes_of r), length-append r.bytes (r.check ∷ []))

-- The buffer with the next line and its NUL
abbrev next_buf : Bytes → Bytes → Bytes
next_buf line stale = line ++ (0 ∷ drop (suc (length line)) stale)

module _ {V : Type 0} (thiz : HexParser V) where
  abbrev called : DataRecord → V → V × Ret
  called r v = thiz.line_data_cb (r.addr_high * 256 + r.addr_low) r.bytes (length r.bytes) v

  -- The callback on each record in turn, as long as it answers RET_OK
  unfoldable pub deliver : List DataRecord → Cmd V Ret
  deliver [] = pure ret_stop
  deliver (r ∷ rs) = do
    answer ← (λ v. ok (called r v).1 (called r v).0)
    elim answer [ ret_ok ↦ deliver rs | other ↦ pure other ]

  go_on :
      (answer : Ret) (more other : Cmd V Ret) (v : V)
      → more v ≡ other v
      → (elim answer as (λ x. Cmd V Ret) [ ret_ok ↦ more | stop ↦ pure stop ]) v
        ≡ (elim answer as (λ x. Cmd V Ret) [ ret_ok ↦ other | stop ↦ pure stop ]) v
  go_on ret_ok more other v e = e
  go_on ret_oom more other v e = refl
  go_on ret_stop more other v e = refl
  go_on ret_invalid_params more other v e = refl
  go_on ret_fail more other v e = refl

  one_record :
      (r : DataRecord) (stale : Bytes) (v : V)
      → IsRecord r
      → hex_parser_process_per_line
          (some thiz)
          ((record_line (bytes_of r) ++ (10 ∷ [])) ++ (0 ∷ stale))
          v
        ≡ ok (called r v).1 (called r v).0
  one_record r stale v (hh, hl, hc, hb, hn, good) =
      ap (λ s. hex_parser_process_per_line (some thiz) s v)
        (append_assoc (record_line (bytes_of r)) (10 ∷ []) (0 ∷ stale))
      ∙ hex_parser_process_per_line-record thiz r.addr_high r.addr_low r.check r.bytes
          (10 ∷ 0 ∷ stale) (10 ∷ []) v hh hl hc hb (omega (arith, hn)) (c_string-end stale)
      ∙ ap (λ b. if b then ok (called r v).1 (called r v).0 else ok ret_fail v) good

  end_record :
      (stale : Bytes) (v : V)
      → hex_parser_process_per_line (some thiz) ((eof_line ++ (10 ∷ [])) ++ (0 ∷ stale)) v
        ≡ ok ret_stop v
  unfolding process_record hex_bytes
  end_record stale v =
      process_per_line-hex_bytes thiz 0 0 0 1 (255 ∷ []) (10 ∷ 0 ∷ stale) (10 ∷ []) v (omega arith)
        (omega arith) (omega arith) (omega arith) (c_string-end stale)

  -- One round of the loop
  line_loop-line :
      (line stale : Bytes) (lines : List Bytes) (ret answer : Ret) (v w : V)
      → hex_parser_process_per_line (some thiz) (next_buf line stale) v ≡ ok answer w
      → line_loop thiz (line ∷ lines) stale ret v
        ≡ (elim answer as (λ x. Cmd V Ret) [
          | ret_ok ↦ line_loop thiz lines (next_buf line stale) ret_ok
          | stop ↦ pure stop
        ])
            w
  unfolding line_loop
  line_loop-line line stale lines ret answer v w e =
      bind_ok (hex_parser_process_per_line (some thiz) (next_buf line stale)) _ e

  lines_of_file :
      (rs : List DataRecord) (rest stale : Bytes) (ret : Ret) (v : V)
      → All IsRecord rs
      → line_loop thiz (fgets_lines 255 [] (file_of rs (eof_line ++ (10 ∷ rest)))) stale ret v
        ≡ deliver rs v
  unfolding file_of deliver
  lines_of_file [] rest stale ret v h =
      ap (λ ls. line_loop thiz ls stale ret v)
        (fgets_lines_line eof_line [] rest 255 (record_line-NoNewline (0 ∷ 0 ∷ 0 ∷ 1 ∷ 255 ∷ []))
          (omega arith))
      ∙ line_loop-line (eof_line ++ (10 ∷ [])) stale (fgets_lines 255 [] rest) ret ret_stop v v
          (end_record (drop 13 stale) v)
  lines_of_file (r ∷ rs) rest stale ret v ((hh, hl, hc, hb, hn, good), h) =
      ap (λ ls. line_loop thiz ls stale ret v)
        (fgets_lines_line (record_line (bytes_of r)) [] (file_of rs (eof_line ++ (10 ∷ rest))) 255
          (record_line-NoNewline (bytes_of r)) (record_fits r hn))
      ∙ line_loop-line (record_line (bytes_of r) ++ (10 ∷ [])) stale
          (fgets_lines 255 [] (file_of rs (eof_line ++ (10 ∷ rest)))) ret (called r v).1 v
          (called r v).0
          (one_record r (drop (suc (length (record_line (bytes_of r) ++ (10 ∷ [])))) stale) v
            (hh, hl, hc, hb, hn, good))
      ∙ go_on (called r v).1 _ (deliver rs) (called r v).0 (
          lines_of_file rs rest (next_buf (record_line (bytes_of r) ++ (10 ∷ [])) stale) ret_ok
            (called r v).0 h)

  -- A file of data records that fit and pass the checksum, each on a line of its own, followed by an
  -- end-of-file record: the callback gets the records in their order until it first answers other than
  -- RET_OK, which is then the answer; after the last record it is RET_STOP. What the file holds behind
  -- the end-of-file record and what the line buffer held at first do not matter.
  pub hex_parser_process_file-deliver :
      (rs : List DataRecord) (rest stale : Bytes) (v : V)
      → All IsRecord rs
      → hex_parser_process_file (some thiz) (some (file_of rs (eof_line ++ (10 ∷ rest)))) stale v
        ≡ deliver rs v
  unfolding hex_parser_process_file
  hex_parser_process_file-deliver rs rest stale v h = lines_of_file rs rest stale ret_ok v h
