-- ===== src/PacketPrinter/Tests.antt =====
-- The theorems on module/pcap/pcap_packet_process.c at short packets.
use wsn_test_platform.Shared.{
  ℕ, ◌≤◌, ◌<◌, [], ◌∷◌, ◌++◌, ◌≡◌, ok, fault, Returns, codes, take, length, replicate, arith,
}
use wsn_test_platform.Protocol.{Bytes}
use wsn_test_platform.PacketPrinter.{PcapPkthdr, Printer, process_packet}
use wsn_test_platform.PacketPrinter.Payload.{print_payload}
use wsn_test_platform.PacketPrinter.Undump.{print_payload-undump}
use wsn_test_platform.PacketPrinter.Undump.Reader.{undump}
use wsn_test_platform.PacketPrinter.Extent.{process_packet-extent}

abbrev greeting : Bytes
greeting = codes "twenty bytes or more" ++ (0 ∷ 255 ∷ [])

print_payload-undump_example :
    Returns
      (λ _ t.
        (text : Bytes) × (t
          ≡ [] ++ (codes "---------------------- Payload ------------------------\n" ++ text))
        × (undump text ≡ take 22 greeting))
      (print_payload greeting 22 [])
print_payload-undump_example =
    print_payload-undump greeting 22 [] (omega arith) (omega arith) (omega arith) (omega arith)

abbrev frame : Bytes
frame = replicate 54 0

abbrev at : ℕ → ℕ → PcapPkthdr
at sec usec = record { ts = record { tv_sec = sec; tv_usec = usec }; len = 0 }

abbrev start : Printer
start = record { packet_count = 0; first_packet_ts = record { tv_sec = 0; tv_usec = 0 }; out = [] }

abbrev request : Bytes
request = replicate 42 0

abbrev arp : PcapPkthdr
arp = record { ts = record { tv_sec = 7; tv_usec = 0 }; len = 42 }

process_packet-extent_example :
    (54 ≤ length request → (t : Printer) × (process_packet arp request start ≡ ok tt t))
    × (length request < 54 → process_packet arp request start ≡ fault)
process_packet-extent_example = process_packet-extent arp request start (omega arith)
