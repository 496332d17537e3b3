-- ===== src/PcapFile/Limits.antt =====
-- module/pcap/pcap_save_file.c: what goes wrong with packets beyond the format's limit, and on hosts
-- whose `long` has 8 bytes.
use wsn_test_platform.Shared.{
  ℕ, ◌/◌, ◌^◌, ◌<◌, none, some, ◌++◌, ◌≡◌, refl, ap, ◌∙◌, append_assoc, length, take, drop, arith,
}
use wsn_test_platform.Protocol.{Bytes}
use wsn_test_platform.PcapFile.{Capture, le, packet_header, max_snap_len}
use wsn_test_platform.PcapFile.Reader.{
  ◌then_read◌, read_packet, read_fields, read_fields_refused, packet_header_long,
}
use wsn_test_platform.PcapFile.Words.{read_bytes_front}

-- A packet of more than 65535 bytes is saved with all its bytes behind a header that announces 65535
-- of them: the reader takes the rest of the packet for what follows it.
pub read_packet-packet_header_long :
    (sec usec : ℕ) (c : Capture) (rest : Bytes)
    → sec < 2 ^ 32
    → usec < 1000000
    → c.len ≡ length c.packet
    → max_snap_len < c.len
    → c.len < 2 ^ 32
    → read_packet (packet_header 4 (sec, usec) c.len ++ (c.packet ++ rest))
      ≡ some (
        record { packet = take max_snap_len c.packet; len = c.len },
        drop max_snap_len c.packet ++ rest,
      )
read_packet-packet_header_long sec usec c rest hs hu e h fits =
    rw (packet_header_long 4 sec usec c.len h) (
      simp append_assoc (
        read_fields sec usec max_snap_len c.len (c.packet ++ rest) hs hu (omega arith) fits
        ∙ ap (λ r. r then_read λ packet bs. some (record { packet = packet; len = c.len }, bs))
            (read_bytes_front max_snap_len c.packet rest (omega (arith, e)))))

le_wide : (n : ℕ) → le 8 n ≡ le 4 n ++ le 4 (n / 256 / 256 / 256 / 256)
unfolding le
le_wide n = refl

packet_header_times :
    (k sec usec n : ℕ)
    → (bs : Bytes) × (packet_header k (sec, usec) n ≡ le k sec ++ (le k usec ++ bs))
unfolding packet_header
packet_header_times k sec usec n = (_, refl)

-- With longs of 8 bytes no reader of the format accepts a packet, unless its microseconds are 0.
pub read_packet-packet_header_wide :
    (sec usec packet_len : ℕ) (rest : Bytes)
    → sec < 2 ^ 32
    → 0 < usec
    → usec < 1000000
    → read_packet (packet_header 8 (sec, usec) packet_len ++ rest) ≡ none
read_packet-packet_header_wide sec usec packet_len rest hs pos hu =
    let (bs, e) = packet_header_times 8 sec usec packet_len in
    rw (e, le_wide sec, le_wide usec)
      (simp append_assoc (
        read_fields_refused sec (sec / 256 / 256 / 256 / 256) usec (usec / 256 / 256 / 256 / 256)
          (bs ++ rest) (omega arith) (omega arith) (omega arith) (omega arith)))
