-- ===== src/PacketPrinter/Clock.antt =====
-- module/pcap/pcap_packet_process.c: the times that are printed count from the first packet.
use wsn_test_platform.Shared.{ℕ, ◌+◌, ◌*◌, ◌^◌, ◌<◌, ◌≡◌}
use wsn_test_platform.PacketPrinter.{Timeval, Printer}

abbrev pub microseconds : Timeval → ℕ
microseconds t = t.tv_sec * 1000000 + t.tv_usec

-- A time whose seconds fit 32 bits
pub record IsTime (t : Timeval) : Type 0 where
  pub sec : t.tv_sec < 2 ^ 32
  pub usec : t.tv_usec < 1000000

abbrev Kept : ℕ → Timeval → Printer → Type 0
Kept count first t = (t.packet_count ≡ count) × (t.first_packet_ts ≡ first)
