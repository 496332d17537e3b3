-- ===== src/HexParser/Records.antt =====
-- The records of an Intel HEX file, written down on their own, and what the parts of
-- module/hex_parser/hex_parser.c read of them.
use wsn_test_platform.Shared.{
  ℕ, ◌+◌, ◌*◌, ◌/◌, ◌%◌, ◌<◌, Bool, true, false, Option, some, [], ◌∷◌, ◌++◌, ok, ◌==◌, leb, length,
  All, ◌≡◌, ◌≢◌, refl, ◌∙◌, sym, ap, ap₂, bind_ok, arith, append_assoc, append-nil, length-append,
}
use wsn_test_platform.Protocol.{Bytes}
use wsn_test_platform.HexParser.{sscanf, scan_byte, scan_header, data_loop}
use wsn_test_platform.HexParser.Scan.{scan_hex, c_string}
use wsn_test_platform.HexParser.Digits.{
  hex_byte, hex_bytes, scan_hex-hex_byte, scan_hex-two_bytes, c_string-hex_byte, c_string-hex_bytes,
}

unfoldable pub sum : Bytes → ℕ
sum [] = 0
sum (b ∷ bs) = b + sum bs

-- The bytes of a record: length, address, type, data, checksum
abbrev pub record_bytes : ℕ → ℕ → ℕ → Bytes → ℕ → Bytes
record_bytes h l type data_bytes check =
    length data_bytes ∷ h ∷ l ∷ type ∷ (data_bytes ++ (check ∷ []))

-- Its line, without the end of the line
abbrev pub record_line : Bytes → Bytes
record_line bytes = b':' ∷ hex_bytes bytes

abbrev pub IsByte : ℕ → Type 0
IsByte b = b < 256

pub small_byte : (b : ℕ) → IsByte b → b % 256 ≡ b
small_byte b h = omega arith

pub scan_byte-hex_byte : (b : ℕ) (s : Bytes) → IsByte b → scan_byte (hex_byte b ++ s) ≡ some b
unfolding scan_byte
scan_byte-hex_byte b s h = rw (scan_byte, scan_hex-hex_byte b s h)

pub hex_bytes-append : (xs ys : Bytes) → hex_bytes (xs ++ ys) ≡ hex_bytes xs ++ hex_bytes ys
unfolding hex_bytes
hex_bytes-append [] ys = refl
hex_bytes-append (x ∷ xs) ys =
    rw (hex_bytes-append xs ys, append_assoc (hex_byte x) (hex_bytes xs) (hex_bytes ys))

pub hex_bytes_last :
    (bytes : Bytes) (check : ℕ) (tail : Bytes)
    → hex_bytes (bytes ++ (check ∷ [])) ++ tail ≡ hex_bytes bytes ++ (hex_byte check ++ tail)
unfolding hex_bytes
hex_bytes_last bytes check tail =
    ap (λ s. s ++ tail) (hex_bytes-append bytes (check ∷ []))
    ∙ append_assoc (hex_bytes bytes) (hex_byte check) tail

pub leb_above : (a b : ℕ) → b < a → leb a b ≡ false
leb_above a b h = ground arith

module _ {V : Type 0} where
  pub sscanf-c_string :
      {A : Type 0} (scan : Bytes → Option A) (s t : Bytes) (v : V)
      → c_string s ≡ some t
      → sscanf scan s v ≡ ok (scan t) v
  sscanf-c_string scan s t v e = rw (sscanf, e)

  pub sscanf-hex_byte :
      (b : ℕ) (s t : Bytes) (v : V)
      → IsByte b
      → c_string s ≡ some t
      → sscanf scan_byte (hex_byte b ++ s) v ≡ ok (some b) v
  sscanf-hex_byte b s t v h e =
      sscanf-c_string scan_byte (hex_byte b ++ s) (hex_byte b ++ t) v (c_string-hex_byte b s t e)
      ∙ ap (λ o. ok o v) (scan_byte-hex_byte b t h)

  sscanf-hex_bytes :
      (b : ℕ) (bytes s t : Bytes) (v : V)
      → IsByte b
      → c_string s ≡ some t
      → sscanf scan_byte (hex_bytes (b ∷ bytes) ++ s) v ≡ ok (some b) v
  unfolding hex_bytes
  sscanf-hex_bytes b bytes s t v h e = rw (append_assoc (hex_byte b) (hex_bytes bytes) s) (
      sscanf-hex_byte b (hex_bytes bytes ++ s) (hex_bytes bytes ++ t) v h
        (c_string-hex_bytes bytes s t e))

  -- The loop reads the bytes that the digits stand for, and adds them up.
  pub data_loop-hex_bytes :
      (bytes acc s t : Bytes) (calc_sum : ℕ) (v : V)
      → All IsByte bytes
      → c_string s ≡ some t
      → data_loop (length bytes) (hex_bytes bytes ++ s) acc (calc_sum % 256) v
        ≡ ok (some (acc ++ bytes, (calc_sum + sum bytes) % 256, s)) v
  unfolding data_loop hex_bytes sum
  data_loop-hex_bytes [] acc s t calc_sum v h e =
      ap₂ (λ a n. ok (some (a, n, s)) v) (sym (append-nil acc)) (omega arith)
  data_loop-hex_bytes (b ∷ bytes) acc s t calc_sum v (hb, h) e =
      bind_ok (sscanf scan_byte (hex_bytes (b ∷ bytes) ++ s)) _
        (sscanf-hex_bytes b bytes s t v hb e)
      ∙ ap₂ (λ a n. data_loop (length bytes) (hex_bytes bytes ++ s) (acc ++ (a ∷ [])) n v)
          (small_byte b hb) (omega arith)
      ∙ data_loop-hex_bytes bytes (acc ++ (b ∷ [])) s t (calc_sum + b) v h e
      ∙ ap₂ (λ a n. ok (some (a, n, s)) v) (append_assoc acc (b ∷ []) bytes) (omega arith)

scan_header_of :
    (s t u r : Bytes) (n addr type : ℕ)
    → scan_hex 2 s ≡ some (n, t)
    → scan_hex 4 t ≡ some (addr, u)
    → scan_hex 2 u ≡ some (type, r)
    → scan_header s ≡ some (n, addr, type)
unfolding scan_header
scan_header_of s t u r n addr type hn ha ht = rw (scan_header, hn, ha, ht)

pub scan_header-hex_bytes :
    (n h l type : ℕ) (rest t : Bytes)
    → IsByte n
    → IsByte h
    → IsByte l
    → IsByte type
    → scan_header (hex_bytes (n ∷ h ∷ l ∷ type ∷ rest) ++ t) ≡ some (n, h * 256 + l, type)
unfolding hex_bytes
scan_header-hex_bytes n h l type rest t hn hh hl ht =
    scan_header_of _ _ _ _ _ _ _ (scan_hex-hex_byte n (hex_bytes (h ∷ l ∷ type ∷ rest) ++ t) hn)
      (scan_hex-two_bytes h l (hex_bytes (type ∷ rest) ++ t) hh hl)
      (scan_hex-hex_byte type (hex_bytes rest ++ t) ht)

sum-append : (xs ys : Bytes) → sum (xs ++ ys) ≡ sum xs + sum ys
unfolding sum
sum-append [] ys = omega arith
sum-append (x ∷ xs) ys = omega (arith, sum-append xs ys)

-- The checksum test of a record: the bytes of its line add up to 0, modulo 256.
unfoldable pub is_checked : Bytes → Bool
unfolding sum
is_checked bytes = sum bytes % 256 == 0

pub same_sum :
    (n h l check : ℕ) (bytes : Bytes)
    → IsByte l
    → (((n + (h * 256 + l) + (h * 256 + l) / 256 + 0 + sum bytes) % 256 + check) % 256 == 0)
      ≡ is_checked (n ∷ h ∷ l ∷ 0 ∷ (bytes ++ (check ∷ [])))
unfolding is_checked sum
same_sum n h l check bytes hl =
    rw (sum-append bytes (check ∷ [])) (ap (λ m. m == 0) (omega (arith, hl)))

sum_of_record :
    (h l check b : ℕ) (before after : Bytes)
    → sum (record_bytes h l 0 (before ++ (b ∷ after)) check)
      ≡ length (before ++ (b ∷ after)) + (h + (l + (sum before + (b + (sum after + check)))))
unfolding sum
sum_of_record h l check b before after =
    rw
      (
        append_assoc before (b ∷ after) (check ∷ []),
        sum-append before (b ∷ (after ++ (check ∷ []))),
        sum-append after (check ∷ []),
      )
      (omega arith)

same_length :
    (b c : ℕ) (before after : Bytes)
    → length (before ++ (b ∷ after)) ≡ length (before ++ (c ∷ after))
same_length b c before after =
    length-append before (b ∷ after) ∙ sym (length-append before (c ∷ after))

pub other_sum :
    (h l check b c : ℕ) (before after : Bytes)
    → IsByte b
    → IsByte c
    → b ≢ c
    → is_checked (record_bytes h l 0 (before ++ (b ∷ after)) check) ≡ true
    → is_checked (record_bytes h l 0 (before ++ (c ∷ after)) check) ≡ false
unfolding is_checked
other_sum h l check b c before after hb hc ne good = ground (
  arith,
  good,
  ne,
  sum_of_record h l check b before after,
  sum_of_record h l check c before after,
  same_length b c before after,
)
