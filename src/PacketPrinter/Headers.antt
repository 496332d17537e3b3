-- ===== src/PacketPrinter/Headers.antt =====
-- module/pcap/pcap_packet_process.c: the lines about the three headers.
use Prim.Native.Nat.{bit_and}
use wsn_test_platform.Shared.{
  ℕ, zero, suc, ◌+◌, ◌-◌, ◌*◌, ◌/◌, ◌%◌, ◌^◌, Bool, not, none, some, ◌∷◌, ◌++◌, ok, fault, Cmd,
  pure, ◌>>=◌, ◌>>◌, ltb, ◌==◌, if◌then◌else◌, get_elem?, codes, decimal, hex_byte,
}
use wsn_test_platform.Protocol.{Bytes}

abbrev pub print : Bytes → Cmd Bytes (Unit {0})
print text out = ok tt (out ++ text)

-- "%d" of 32 bits
unfoldable pub signed_decimal : ℕ → Bytes
unfolding decimal
signed_decimal n = if ltb n (2 ^ 31) then decimal n else b'-' ∷ decimal (2 ^ 32 - n)

-- The byte at an index of the packet
unfoldable pub byte_at : Bytes → ℕ → Cmd Bytes ℕ
byte_at packet i = elim (get_elem? packet i) [ none ↦ λ out. fault | some b ↦ pure b ]

-- `ntohs` of two bytes, and `ntohl` of four
unfoldable pub short_at : Bytes → ℕ → Cmd Bytes ℕ
unfolding byte_at
short_at packet i = do
  high ← byte_at packet i
  low ← byte_at packet (i + 1)
  pure (high * 256 + low)

unfoldable pub long_at : Bytes → ℕ → Cmd Bytes ℕ
unfolding short_at
long_at packet i = do
  high ← short_at packet i
  low ← short_at packet (i + 2)
  pure (high * 65536 + low)

-- `printf("…%d…\n", …)`
abbrev pub print_number : Bytes → ℕ → Bytes → Cmd Bytes (Unit {0})
print_number title n rest = print (title ++ (signed_decimal n ++ rest))

abbrev pub mac_addr_len : ℕ
mac_addr_len = 6

-- The rounds of the loop that are left, and its counter `i`
unfoldable pub print_mac : Bytes → ℕ → ℕ → ℕ → Cmd Bytes (Unit {0})
unfolding byte_at hex_byte
print_mac packet from zero i = pure tt
print_mac packet from (suc k) i = do
  b ← byte_at packet (from + i)
  print (hex_byte b)
  print (if i == mac_addr_len - 1 then codes "\n" else codes ":")
  print_mac packet from k (i + 1)

abbrev pub ether_protocol : ℕ → Bytes
ether_protocol type =
    if type == 0x0800
    then codes "IP protocol\n"
    else if type == 0x0806
    then codes "ARP protocol\n"
    else if type == 0x8035
    then codes "RARP protocol\n"
    else codes "can not recoginize protocol\n"

unfoldable pub print_ether_header : Bytes → Cmd Bytes (Unit {0})
unfolding print_mac short_at
print_ether_header packet = do
  type ← short_at packet 12
  print (codes "------------------- Ethernet Header -------------------\n")
  print (codes "mac dest address: ")
  print_mac packet 0 mac_addr_len 0
  print (codes "mac source address: ")
  print_mac packet 6 mac_addr_len 0
  print (codes "protocol: ")
  print (ether_protocol type)

abbrev pub ether_hdr_len : ℕ
ether_hdr_len = 14

abbrev pub ip_hdr_len : ℕ
ip_hdr_len = 20

abbrev pub ip_rf : ℕ
ip_rf = 0x8000

abbrev pub ip_df : ℕ
ip_df = 0x4000

abbrev pub ip_mf : ℕ
ip_mf = 0x2000

-- `(ip_off & ~IP_OFFMASK) & mask`, where `ip_off` is read with its low byte first and not turned
abbrev pub ip_flag : ℕ → ℕ → Bool
ip_flag ip_off mask = not (bit_and (bit_and ip_off 0xffffe000) mask == 0)

unfoldable pub print_if : Bool → Bytes → Cmd Bytes (Unit {0})
print_if b text = if b then print text else pure tt

abbrev pub ip_protocol : ℕ → Bytes
ip_protocol p =
    if p == 6
    then codes "TCP protocol\n"
    else if p == 17
    then codes "UDP protocol\n"
    else if p == 1
    then codes "ICMP protocol\n"
    else if p == 2
    then codes "IGMP protocol\n"
    else codes "other protocols\n"

-- A line with an address, as `inet_ntop` writes it
unfoldable pub print_address : Bytes → Bytes → ℕ → Cmd Bytes (Unit {0})
unfolding byte_at decimal
print_address title packet i = do
  a ← byte_at packet i
  b ← byte_at packet (i + 1)
  c ← byte_at packet (i + 2)
  d ← byte_at packet (i + 3)
  print (
      title
      ++ (decimal a
          ++ (codes "."
              ++ (decimal b
                  ++ (codes "." ++ (decimal c ++ (codes "." ++ (decimal d ++ codes "\n"))))))))

unfoldable pub print_ip_flags : ℕ → Cmd Bytes (Unit {0})
print_ip_flags ip_off = do
  print (codes "flags:")
  print_if (ip_flag ip_off ip_rf) (codes " RESERVED")
  print_if (ip_flag ip_off ip_df) (codes " DONT\n")
  print_if (ip_flag ip_off ip_mf) (codes " MORE\n")
  print (codes "\n")

unfoldable pub print_ip_header : Bytes → Cmd Bytes (Unit {0})
unfolding short_at print_address signed_decimal print_ip_flags
print_ip_header packet = do
  print (codes "--------------------- IP Header -----------------------\n")
  first ← byte_at packet ether_hdr_len
  print_number (codes "version: ") (first / 16) (codes "\n")
  print_number (codes "header length: ") (first % 16 * 4) (codes " bytes\n")
  ip_tos ← byte_at packet (ether_hdr_len + 1)
  print_number (codes "type of service: ") ip_tos (codes "\n")
  ip_len ← short_at packet (ether_hdr_len + 2)
  print_number (codes "total length: ") ip_len (codes "\n")
  ip_id ← short_at packet (ether_hdr_len + 4)
  print_number (codes "identification: ") ip_id (codes "\n")
  off_first ← byte_at packet (ether_hdr_len + 6)
  off_second ← byte_at packet (ether_hdr_len + 7)
  print_ip_flags (off_first + off_second * 256)
  print_number (codes "fragment offset: ") (off_first * 256 + off_second) (codes "\n")
  ip_ttl ← byte_at packet (ether_hdr_len + 8)
  print_number (codes "time to live: ") ip_ttl (codes "\n")
  ip_p ← byte_at packet (ether_hdr_len + 9)
  print_number (codes "protocol: [") ip_p (codes "]")
  print (ip_protocol ip_p)
  ip_sum ← short_at packet (ether_hdr_len + 10)
  print_number (codes "checksum: ") ip_sum (codes "\n")
  print_address (codes "source address: ") packet (ether_hdr_len + 12)
  print_address (codes "dest address: ") packet (ether_hdr_len + 12)

abbrev pub bit_at : ℕ → ℕ → Bool
bit_at b i = b / 2 ^ i % 2 == 1

unfoldable pub print_tcp_header : Bytes → Cmd Bytes (Unit {0})
unfolding long_at signed_decimal
print_tcp_header packet = do
  print (codes "--------------------- TCP Header ----------------------\n")
  source ← short_at packet (ether_hdr_len + ip_hdr_len)
  print_number (codes "source port: ") source (codes "\n")
  dest ← short_at packet (ether_hdr_len + ip_hdr_len + 2)
  print_number (codes "destination port: ") dest (codes "\n")
  seq ← long_at packet (ether_hdr_len + ip_hdr_len + 4)
  print_number (codes "sequence number: ") seq (codes "\n")
  ack_seq ← long_at packet (ether_hdr_len + ip_hdr_len + 8)
  print_number (codes "acknowledgement number: ") ack_seq (codes "\n")
  doff ← byte_at packet (ether_hdr_len + ip_hdr_len + 12)
  print_number (codes "data offset: ") (doff / 16 * 4) (codes " bytes\n")
  window ← short_at packet (ether_hdr_len + ip_hdr_len + 14)
  print_number (codes "window size: ") window (codes "\n")
  print (codes "flags:")
  flags ← byte_at packet (ether_hdr_len + ip_hdr_len + 13)
  print_if (bit_at flags 0) (codes " FIN")
  print_if (bit_at flags 1) (codes " SYN")
  print_if (bit_at flags 2) (codes " RST")
  print_if (bit_at flags 3) (codes " PUSH")
  print_if (bit_at flags 4) (codes " ACK")
  print_if (bit_at flags 5) (codes " URG")
  print (codes "\n")
  urg_ptr ← short_at packet (ether_hdr_len + ip_hdr_len + 18)
  print_number (codes "urgent pointer: ") urg_ptr (codes "\n")
