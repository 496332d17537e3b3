-- ===== src/HexParser/Tests.antt =====
-- The theorems on module/hex_parser/hex_parser.c on short files, with a callback that keeps a log.
use wsn_test_platform.Shared.{ℕ, ◌≡◌, refl, some, List, [], ◌∷◌, ◌++◌, ret_ok, ret_stop, ok, arith}
use wsn_test_platform.Protocol.{Bytes}
use wsn_test_platform.HexParser.{HexParser, hex_parser_process_per_line, hex_parser_process_file}
use wsn_test_platform.HexParser.Scan.{c_string}
use wsn_test_platform.HexParser.Records.{record_bytes, record_line, is_checked, sum}
use wsn_test_platform.HexParser.Lines.{hex_parser_process_per_line-record}
use wsn_test_platform.HexParser.Files.{
  deliver, DataRecord, file_of, eof_line, hex_parser_process_file-deliver,
}

abbrev logger : HexParser (List (ℕ × Bytes))
logger = record { line_data_cb = λ addr buf n log. (log ++ ((addr, buf) ∷ []), ret_ok) }

hex_parser_process_per_line-record_example :
    hex_parser_process_per_line
      (some logger)
      (record_line (record_bytes 1 2 0 (170 ∷ []) 0x52) ++ (10 ∷ 0 ∷ []))
      []
    ≡ ok ret_ok ((258, 170 ∷ []) ∷ [])
unfolding is_checked sum c_string
hex_parser_process_per_line-record_example =
    hex_parser_process_per_line-record logger 1 2 0x52 (170 ∷ []) (10 ∷ 0 ∷ []) (10 ∷ []) []
      (omega arith) (omega arith) (omega arith) (omega arith, tt) (omega arith) refl

abbrev first_record : DataRecord
first_record = record { addr_high = 1; addr_low = 2; bytes = 170 ∷ []; check = 0x52 }

hex_parser_process_file-deliver_example :
    hex_parser_process_file
      (some logger)
      (some (file_of (first_record ∷ []) (eof_line ++ (10 ∷ 33 ∷ []))))
      []
      []
    ≡ ok ret_stop ((258, 170 ∷ []) ∷ [])
unfolding is_checked sum deliver
hex_parser_process_file-deliver_example =
    hex_parser_process_file-deliver logger (first_record ∷ []) (33 ∷ []) [] []
      ((omega arith, omega arith, omega arith, (omega arith, tt), omega arith, refl), tt)
