-- ===== src/PacketPrinter.antt =====
-- module/pcap/pcap_packet_process.c: what is printed of a packet. The state is the text printed so far;
-- a packet is the memory that was captured of it, and a read beyond it is a fault.
pub mod Headers
pub mod Payload
pub mod Undump
pub mod Clock
pub mod Extent
mod Tests
use wsn_test_platform.Shared.{
  ◌>>=◌, ◌>>◌, ℕ, ◌+◌, ◌-◌, ◌%◌, ◌^◌, List, [], ◌∷◌, ◌++◌, ok, fault, out_of_fuel, Run, Cmd, pure,
  ltb, ◌==◌, if◌then◌else◌, codes, decimal,
}
use wsn_test_platform.Protocol.{Bytes}
unfoldable pub use Headers.{
  print, signed_decimal, print_ether_header, print_ip_header, print_tcp_header,
}
unfoldable pub use Payload.{print_payload}

-- `struct timeval`
pub record Timeval : Type 0 where
  pub tv_sec : ℕ
  pub tv_usec : ℕ

-- `struct pcap_pkthdr`, as far as it is used
pub record PcapPkthdr : Type 0 where
  pub ts : Timeval
  pub len : ℕ

-- The static variables of `process_packet`, and what has been printed
pub record Printer : Type 0 where
  pub packet_count : ℕ
  pub first_packet_ts : Timeval
  pub out : Bytes

-- `print_pcap_packet_info`
unfoldable pub print_pcap_packet_info : ℕ → ℕ → ℕ → ℕ → Cmd Bytes (Unit {0})
unfolding decimal
print_pcap_packet_info count ref_sec ref_usec len = do
  print (codes "----------------------- Packet ------------------------\n")
  print (codes "packet No: " ++ (decimal count ++ codes "\n"))
  print (
      codes "packet second: "
      ++ (decimal ref_sec ++ (codes "." ++ (decimal ref_usec ++ codes "\n"))))
  print (codes "packet length: " ++ (signed_decimal len ++ codes "\n"))

-- The seconds and microseconds since the first packet, as the 32-bit numbers that are printed
unfoldable pub reference_time : ℕ → Timeval → Timeval → ℕ × ℕ
reference_time packet_count first ts =
    if packet_count == 0
    then (0, 0)
    else if ltb ts.tv_usec first.tv_usec
    then (
      (ts.tv_sec + 2 ^ 32 - first.tv_sec + 2 ^ 32 - 1) % 2 ^ 32,
      (1000000 + 2 ^ 32 - first.tv_usec + ts.tv_usec) % 2 ^ 32,
    )
    else (
      (ts.tv_sec + 2 ^ 32 - first.tv_sec) % 2 ^ 32,
      (ts.tv_usec + 2 ^ 32 - first.tv_usec) % 2 ^ 32,
    )

abbrev pub first_ts : Printer → Timeval → Timeval
first_ts printer ts = if printer.packet_count == 0 then ts else printer.first_packet_ts

-- What `process_packet` prints
unfoldable pub print_packet : ℕ → ℕ × ℕ → ℕ → Bytes → Cmd Bytes (Unit {0})
unfolding print_pcap_packet_info print_payload print_ether_header print_ip_header print_tcp_header
print_packet count (ref_sec, ref_usec) len packet = do
  print (codes "=======================================================\n")
  print_pcap_packet_info count ref_sec ref_usec len
  print_payload packet len
  print_ether_header packet
  print_ip_header packet
  print_tcp_header packet
  print (codes "=======================================================\n\n")

abbrev pub printed : Printer → Timeval → Run Bytes (Unit {0}) → Run Printer (Unit {0})
printed printer ts (ok a out) = ok tt (record {
  packet_count = printer.packet_count + 1;
  first_packet_ts = first_ts printer ts;
  out = out;
})
printed printer ts fault = fault
printed printer ts out_of_fuel = out_of_fuel

unfoldable pub process_packet : PcapPkthdr → Bytes → Cmd Printer (Unit {0})
unfolding print_packet reference_time
process_packet pkthdr packet printer = printed printer pkthdr.ts (
    print_packet printer.packet_count
      (reference_time printer.packet_count (first_ts printer pkthdr.ts) pkthdr.ts) pkthdr.len packet
      printer.out)

-- The calls of `process_packet` that `pcap_loop` makes
unfoldable pub process_packets : List (PcapPkthdr × Bytes) → Cmd Printer (Unit {0})
unfolding process_packet
process_packets [] = pure tt
process_packets ((pkthdr, packet) ∷ rest) = do process_packet pkthdr packet; process_packets rest
