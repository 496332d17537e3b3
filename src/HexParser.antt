-- ===== src/HexParser.antt =====
-- module/hex_parser/hex_parser.c: the parser of Intel HEX files. The file is the bytes that fgets
-- delivers after the rewind; the callback acts on a state of its own.
pub mod Scan
pub mod Digits
pub mod Records
pub mod Lines
pub mod Files
mod Tests
use wsn_test_platform.Shared.{
  ℕ, zero, suc, ◌+◌, ◌-◌, ◌*◌, ◌/◌, ◌%◌, Bool, true, false, not, ◌||◌, Option, none, some, List, [],
  ◌∷◌, ◌++◌, Ret, ret_ok, ret_stop, ret_invalid_params, ret_fail, Run, ok, fault, out_of_fuel, Cmd,
  pure, ◌>>=◌, ◌>>◌, ◌==◌, leb, ltb, if◌then◌else◌, get_elem?, length, drop, replicate,
}
use wsn_test_platform.Protocol.{Bytes}
use Scan.{scan_hex, c_string}

abbrev pub line_buf_size : ℕ
line_buf_size = 256

abbrev pub hex_delimiter_width : ℕ
hex_delimiter_width = 1

abbrev pub hex_header_width : ℕ
hex_header_width = 8

abbrev pub hex_data_unit_width : ℕ
hex_data_unit_width = 2

abbrev pub hex_type_data_record : ℕ
hex_type_data_record = 0

abbrev pub hex_type_eof_record : ℕ
hex_type_eof_record = 1

abbrev pub hex_type_start_line_addr_record : ℕ
hex_type_start_line_addr_record = 5

-- What the callback does with an address, the data, their number and its own state
abbrev pub HexLineDataCallBack : Type 0 → Type 0
HexLineDataCallBack V = ℕ → Bytes → ℕ → V → V × Ret

-- What the calls `fgets(line_buf, LINE_BUF_SIZE, fd)` deliver one after another: `room` characters at
-- most, up to the end of a line. `line` is what the current call has read.
unfoldable pub fgets_lines : ℕ → Bytes → Bytes → List Bytes
fgets_lines room [] [] = []
fgets_lines room (c ∷ line) [] = (c ∷ line) ∷ []
fgets_lines room line (c ∷ rest) =
    let whole = (line ++ (c ∷ [])) ∷ fgets_lines (line_buf_size - 1) [] rest in
    let more = fgets_lines (room - 1) (line ++ (c ∷ [])) rest in
    if c == 10 || leb room 1 then whole else more

pub record HexParser (V : Type 0) : Type 0 where
  pub line_data_cb : HexLineDataCallBack V

-- `sscanf(s, "%02x%04x%02x", …)`: the three values, or fewer conversions
unfoldable pub scan_header : Bytes → Option (ℕ × ℕ × ℕ)
scan_header t = elim (scan_hex 2 t) [
  | none ↦ none
  | some (data_length, t₁) ↦ elim (scan_hex 4 t₁) [
    | none ↦ none
    | some (addr, t₂) ↦ elim (scan_hex 2 t₂) [
      | none ↦ none
      | some (type, t₃) ↦ some (data_length, addr, type)
    ]
  ]
]

-- `sscanf(s, "%02x", …)`
unfoldable pub scan_byte : Bytes → Option ℕ
scan_byte t = elim (scan_hex hex_data_unit_width t) [ none ↦ none | some (value, r) ↦ some value ]

module _ {V : Type 0} where
  -- A scan at a place of the line buffer; without a NUL from there on it is a fault.
  abbrev pub sscanf : {A : Type 0} → (Bytes → Option A) → Bytes → Cmd V (Option A)
  sscanf scan s v = elim (c_string s) [ none ↦ fault | some t ↦ ok (scan t) v ]

  -- The loop over the data: the bytes, their sum and where it stops, or no conversion
  unfoldable pub data_loop : ℕ → Bytes → Bytes → ℕ → Cmd V (Option (Bytes × ℕ × Bytes))
  unfolding scan_byte
  data_loop zero s data_buf calc_sum = pure (some (data_buf, calc_sum, s))
  data_loop (suc k) s data_buf calc_sum = do
    converted ← sscanf scan_byte s
    elim converted [
      | none ↦ pure none
      | some value ↦
          data_loop k (drop hex_data_unit_width s) (data_buf ++ (value % 256 ∷ []))
            ((calc_sum + value) % 256)
    ]

  -- The end of a data record: the checksum, and the callback
  unfoldable pub finish_record : HexParser V → ℕ → ℕ → Option (Bytes × ℕ × Bytes) → Cmd V Ret
  unfolding scan_byte
  finish_record thiz addr data_length none = pure ret_fail
  finish_record thiz addr data_length (some (data_buf, calc_sum, s)) = do
    converted ← sscanf scan_byte s
    elim converted [
      | none ↦ pure ret_fail
      | some check_sum ↦ if not ((calc_sum + check_sum) % 256 == 0) then pure ret_fail else λ v.
          ok (thiz.line_data_cb addr data_buf data_length v).1
            (thiz.line_data_cb addr data_buf data_length v).0
    ]

  unfoldable pub data_record : HexParser V → Bytes → ℕ → ℕ → ℕ → Cmd V Ret
  unfolding data_loop finish_record
  data_record thiz s data_length addr type =
      if leb line_buf_size data_length then pure ret_fail else (do
        read ← data_loop data_length s [] ((data_length + addr + addr / 256 + type) % 256)
        finish_record thiz addr data_length read)

  -- The `switch` over the type
  unfoldable pub process_record : HexParser V → Bytes → ℕ × ℕ × ℕ → Cmd V Ret
  unfolding data_record
  process_record thiz s (data_length, addr, type) =
      if type == hex_type_data_record
      then data_record thiz s data_length addr type
      else if type == hex_type_eof_record
      then pure ret_stop
      else if leb type hex_type_start_line_addr_record
      then pure ret_ok
      else pure ret_fail

  unfoldable pub hex_parser_process_per_line : Option (HexParser V) → Bytes → Cmd V Ret
  unfolding scan_header process_record
  hex_parser_process_per_line none line_buf = pure ret_invalid_params
  hex_parser_process_per_line (some thiz) [] = λ v. fault
  hex_parser_process_per_line (some thiz) (c ∷ s) = if not (c == b':') then pure ret_fail else (do
    header ← sscanf scan_header s
    elim header [
      | none ↦ pure ret_fail
      | some fields ↦ process_record thiz (drop hex_header_width s) fields
    ])

  -- The argument says whether there is memory.
  unfoldable pub hex_parser_create : HexLineDataCallBack V → Bool → Option (HexParser V)
  hex_parser_create line_data_cb allocated =
      if allocated then some (record { line_data_cb = line_data_cb }) else none

  -- The loop over the lines: what is in the buffer before, and the last answer
  unfoldable pub line_loop : HexParser V → List Bytes → Bytes → Ret → Cmd V Ret
  unfolding hex_parser_process_per_line
  line_loop thiz [] line_buf ret = pure ret
  line_loop thiz (line ∷ lines) line_buf ret = do
    answer ←
        hex_parser_process_per_line (some thiz) (line ++ (0 ∷ drop (suc (length line)) line_buf))
    elim answer [
      | ret_ok ↦ line_loop thiz lines (line ++ (0 ∷ drop (suc (length line)) line_buf)) ret_ok
      | other ↦ pure other
    ]

  -- The second argument is the file, `none` for NULL, and the third what the line buffer holds at
  -- first.
  unfoldable pub hex_parser_process_file : Option (HexParser V) → Option Bytes → Bytes → Cmd V Ret
  unfolding line_loop
  hex_parser_process_file none file garbage = pure ret_invalid_params
  hex_parser_process_file (some thiz) none garbage = pure ret_invalid_params
  hex_parser_process_file (some thiz) (some bytes) garbage =
      line_loop thiz (fgets_lines (line_buf_size - 1) [] bytes) garbage ret_ok
