-- ===== src/PacketPrinter/Payload.antt =====
-- module/pcap/pcap_packet_process.c: the dump of a payload, sixteen bytes to a line.
use wsn_test_platform.Shared.{
  ℕ, zero, suc, ◌+◌, ◌-◌, ◌^◌, Bool, ◌&&◌, ◌||◌, [], ◌∷◌, ◌++◌, fault, out_of_fuel, Cmd, pure, ◌>>◌,
  ltb, leb, ◌==◌, if◌then◌else◌, drop, codes, hex_byte, hex_four,
}
use wsn_test_platform.Protocol.{Bytes}
use wsn_test_platform.PacketPrinter.Headers.{print}

-- The first loop of `print_hex_ascii_line`: the rounds left, the counter `i`, and what `ch` points to
unfoldable pub hex_loop : ℕ → ℕ → Bytes → Cmd Bytes (Unit {0})
unfolding hex_byte
hex_loop zero i ch = pure tt
hex_loop (suc k) i [] = λ out. fault
hex_loop (suc k) i (b ∷ ch) = do
  print (hex_byte b ++ codes " ")
  print (if i == 7 then codes " " else [])
  hex_loop k (i + 1) ch

-- The loop that fills the gap of a short line
unfoldable pub gap_loop : ℕ → Cmd Bytes (Unit {0})
gap_loop zero = pure tt
gap_loop (suc gap) = do print (codes "   "); gap_loop gap

-- `isprint` of the C locale
abbrev pub isprint : ℕ → Bool
isprint c = leb 32 c && leb c 126

abbrev pub shown : ℕ → ℕ
shown b = if isprint b then b else b'.'

unfoldable pub ascii_loop : ℕ → Bytes → Cmd Bytes (Unit {0})
ascii_loop zero ch = pure tt
ascii_loop (suc k) [] = λ out. fault
ascii_loop (suc k) (b ∷ ch) = do print (shown b ∷ []); ascii_loop k ch

abbrev pub line_width : ℕ
line_width = 16

unfoldable pub print_hex_ascii_line : Bytes → ℕ → ℕ → Cmd Bytes (Unit {0})
unfolding hex_loop gap_loop ascii_loop hex_four
print_hex_ascii_line payload len offset = do
  print (hex_four offset ++ codes "   ")
  hex_loop len 0 payload
  print (if ltb len line_width && ltb len 8 then codes " " else [])
  gap_loop (line_width - len)
  print (codes "   ")
  ascii_loop len payload
  print (codes "\n")

-- The loop of `print_payload`, and the line after it. The fuel bounds its rounds.
unfoldable pub payload_loop : ℕ → Bytes → ℕ → ℕ → Cmd Bytes (Unit {0})
unfolding print_hex_ascii_line
payload_loop zero line_start len_remain offset = λ out. out_of_fuel
payload_loop (suc k) line_start len_remain offset =
    if ltb line_width len_remain
    then (do
      print_hex_ascii_line line_start line_width offset
      payload_loop k (drop line_width line_start) (len_remain - line_width) (offset + line_width))
    else print_hex_ascii_line line_start len_remain offset

-- The length is an `int`, by its bit pattern. A round takes sixteen bytes, so that as much fuel as
-- bytes is enough.
unfoldable pub print_payload : Bytes → ℕ → Cmd Bytes (Unit {0})
unfolding payload_loop
print_payload payload len = if len == 0 || leb (2 ^ 31) len then pure tt else (do
  print (codes "---------------------- Payload ------------------------\n")
  payload_loop len payload len 0)
