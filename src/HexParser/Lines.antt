-- ===== src/HexParser/Lines.antt =====
-- What `hex_parser_process_per_line` of module/hex_parser/hex_parser.c makes of a line with a
-- record.
use wsn_test_platform.Shared.{
  ℕ, ◌+◌, ◌*◌, ◌/◌, ◌%◌, ◌<◌, true, some, [], ◌∷◌, ◌++◌, ret_fail, ok, ◌==◌, if◌then◌else◌, length,
  All, ◌≡◌, ◌≢◌, refl, ◌∙◌, ap, bind_ok, arith, Bool-cases, inl, inr,
}
use wsn_test_platform.Protocol.{Bytes}
use wsn_test_platform.HexParser.{
  HexParser, sscanf, scan_byte, scan_header, data_loop, finish_record, data_record, process_record,
  hex_parser_process_per_line,
}
use wsn_test_platform.HexParser.Scan.{c_string}
use wsn_test_platform.HexParser.Digits.{hex_byte, hex_bytes, c_string-hex_byte, c_string-hex_bytes}
use wsn_test_platform.HexParser.Records.{
  sum, record_bytes, record_line, IsByte, is_checked, hex_bytes_last, leb_above, sscanf-c_string,
  sscanf-hex_byte, data_loop-hex_bytes, scan_header-hex_bytes, same_sum, other_sum,
}

module _ {V : Type 0} where
  finish_record-hex_byte :
      (thiz : HexParser V) (addr n calc_sum check : ℕ) (bytes s t : Bytes) (v : V)
      → IsByte check
      → c_string s ≡ some t
      → finish_record thiz addr n (some (bytes, calc_sum, hex_byte check ++ s)) v ≡ (
          if (calc_sum + check) % 256 == 0
          then ok (thiz.line_data_cb addr bytes n v).1 (thiz.line_data_cb addr bytes n v).0
          else ok ret_fail v)
  unfolding finish_record
  finish_record-hex_byte thiz addr n calc_sum check bytes s t v h e =
      bind_ok (sscanf scan_byte (hex_byte check ++ s)) _ (sscanf-hex_byte check s t v h e)
      ∙ (elim (Bool-cases ((calc_sum + check) % 256 == 0)) [
        | inl good ↦ rw good refl
        | inr bad ↦ rw bad refl
      ])

  pub process_per_line-hex_bytes :
      (thiz : HexParser V) (n h l type : ℕ) (rest tail t : Bytes) (v : V)
      → IsByte n
      → IsByte h
      → IsByte l
      → IsByte type
      → c_string tail ≡ some t
      → hex_parser_process_per_line (some thiz) (record_line (n ∷ h ∷ l ∷ type ∷ rest) ++ tail) v
        ≡ process_record thiz (hex_bytes rest ++ tail) (n, h * 256 + l, type) v
  unfolding hex_parser_process_per_line hex_bytes
  process_per_line-hex_bytes thiz n h l type rest tail t v hn hh hl ht e =
      bind_ok (sscanf scan_header (hex_bytes (n ∷ h ∷ l ∷ type ∷ rest) ++ tail)) _ (
        sscanf-c_string scan_header _ _ v (c_string-hex_bytes (n ∷ h ∷ l ∷ type ∷ rest) tail t e)
        ∙ ap (λ o. ok o v) (scan_header-hex_bytes n h l type rest t hn hh hl ht))

  data_record-hex_bytes :
      (thiz : HexParser V) (addr check : ℕ) (bytes tail t : Bytes) (v : V)
      → IsByte check
      → All IsByte bytes
      → length bytes < 256
      → c_string tail ≡ some t
      → data_record thiz (hex_bytes (bytes ++ (check ∷ [])) ++ tail) (length bytes) addr 0 v ≡ (
          if ((length bytes + addr + addr / 256 + 0 + sum bytes) % 256 + check) % 256 == 0
          then ok
              (thiz.line_data_cb addr bytes (length bytes) v).1
              (thiz.line_data_cb addr bytes (length bytes) v).0
          else ok ret_fail v)
  unfolding data_record
  data_record-hex_bytes thiz addr check bytes tail t v hc hb hn e =
      rw (leb_above 256 (length bytes) hn, hex_bytes_last bytes check tail)
        (bind_ok (data_loop (length bytes) (hex_bytes bytes ++ (hex_byte check ++ tail)) [] _) _ (
            data_loop-hex_bytes bytes [] (hex_byte check ++ tail) (hex_byte check ++ t)
              (length bytes + addr + addr / 256 + 0) v hb (c_string-hex_byte check tail t e))
          ∙ finish_record-hex_byte thiz addr (length bytes) _ check bytes tail t v hc e)

  -- A line with a data record, whose digits may be followed by any text up to the NUL and by what an
  -- earlier line left in the buffer: the callback gets the address and the data, and its answer is
  -- returned, if all bytes of the record add up to 0 modulo 256; else RET_FAIL, without the callback.
  pub hex_parser_process_per_line-record :
      (thiz : HexParser V) (h l check : ℕ) (bytes tail t : Bytes) (v : V)
      → IsByte h
      → IsByte l
      → IsByte check
      → All IsByte bytes
      → length bytes < 256
      → c_string tail ≡ some t
      → hex_parser_process_per_line
          (some thiz)
          (record_line (record_bytes h l 0 bytes check) ++ tail)
          v
        ≡ (if is_checked (record_bytes h l 0 bytes check)
            then ok
                (thiz.line_data_cb (h * 256 + l) bytes (length bytes) v).1
                (thiz.line_data_cb (h * 256 + l) bytes (length bytes) v).0
            else ok ret_fail v)
  unfolding process_record data_record hex_bytes
  hex_parser_process_per_line-record thiz h l check bytes tail t v hh hl hc hb hn e =
      process_per_line-hex_bytes thiz (length bytes) h l 0 (bytes ++ (check ∷ [])) tail t v hn hh hl
        (omega arith) e
      ∙ data_record-hex_bytes thiz (h * 256 + l) check bytes tail t v hc hb hn e
      ∙ ap
          (λ b.
            if b
            then ok (thiz.line_data_cb (h * 256 + l) bytes (length bytes) v).1
                (thiz.line_data_cb (h * 256 + l) bytes (length bytes) v).0
            else ok ret_fail v)
          (same_sum (length bytes) h l check bytes hl)

  -- A data record that passes the checksum no longer does when one of its data bytes is replaced by
  -- another: the answer is RET_FAIL, and the callback is not called.
  pub hex_parser_process_per_line-corrupted :
      (thiz : HexParser V) (h l check b c : ℕ) (before after tail t : Bytes) (v : V)
      → IsByte h
      → IsByte l
      → IsByte check
      → IsByte b
      → IsByte c
      → b ≢ c
      → All IsByte (before ++ (c ∷ after))
      → length (before ++ (c ∷ after)) < 256
      → c_string tail ≡ some t
      → is_checked (record_bytes h l 0 (before ++ (b ∷ after)) check) ≡ true
      → hex_parser_process_per_line
          (some thiz)
          (record_line (record_bytes h l 0 (before ++ (c ∷ after)) check) ++ tail)
          v
        ≡ ok ret_fail v
  unfolding is_checked sum
  hex_parser_process_per_line-corrupted thiz h l check b c before after tail t v hh hl hc hb hd ne
        bytes n e good =
      hex_parser_process_per_line-record thiz h l check (before ++ (c ∷ after)) tail t v hh hl hc
        bytes n e
      ∙ ap
          (λ x.
            if x
            then ok
                (thiz.line_data_cb (h * 256 + l) (before ++ (c ∷ after))
                  (length (before ++ (c ∷ after))) v).1
                (thiz.line_data_cb (h * 256 + l) (before ++ (c ∷ after))
                  (length (before ++ (c ∷ after))) v).0
            else ok ret_fail v)
          (other_sum h l check b c before after hb hd ne good)
