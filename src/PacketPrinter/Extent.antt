-- ===== src/PacketPrinter/Extent.antt =====
-- module/pcap/pcap_packet_process.c: how much of a packet is read.
use wsn_test_platform.Shared.{
  ℕ, zero, suc, ◌+◌, ◌-◌, ◌*◌, ◌≤◌, ◌<◌, ◌^◌, Bool, true, false, ◌⊎◌, inl, inr, ◌++◌, ◌≡◌, refl, ap,
  subst, ◌∙◌, ok, fault, Cmd, pure, and_then, ◌>>=◌, ◌>>◌, returns, Returns-mono, Returns-if,
  Returns-value, ◌||◌, bind_ok, leb, ◌==◌, length, get_elem?_past, drop_next, codes, arith, dec_lt,
}
use wsn_test_platform.Protocol.{Bytes}
use wsn_test_platform.PacketPrinter.{
  PcapPkthdr, Printer, first_ts, print_packet, print_pcap_packet_info, printed, process_packet,
  reference_time,
}
use wsn_test_platform.PacketPrinter.Payload.{print_payload}
use wsn_test_platform.PacketPrinter.Undump.{payload_loop-IsDump}
use wsn_test_platform.PacketPrinter.Headers.{
  print, byte_at, short_at, long_at, print_mac, print_if, print_address, print_ip_flags,
  print_ether_header, print_ip_header, print_tcp_header,
}

-- The command reads the first `n` bytes of the packet, or fewer, and the last of these: where they were
-- captured it returns, and where they were not it faults.
record Reads {A : Type 0} (packet : Bytes) (n : ℕ) (m : Cmd Bytes A) : Type 0 where
  pub enough : n ≤ length packet → (out : Bytes) → (a : A) × (t : Bytes) × (m out ≡ ok a t)
  pub short : length packet < n → (out : Bytes) → m out ≡ fault

lt_or_le : (m n : ℕ) → (m < n) ⊎ (n ≤ m)
lt_or_le m n = elim (dec_lt m n) [ yes h ↦ inl h | no h ↦ inr (omega arith) ]

module _ {packet : Bytes} where
  -- The larger of two extents
  infixr 4 ◌▹◌
  ◌▹◌ :
      {A B : Type 0} {a b : ℕ} {m : Cmd Bytes A} {k : A → Cmd Bytes B}
      → Reads packet a m
      → ((x : A) → Reads packet b (k x))
      → Reads packet (a + (b - a)) (m >>= k)
  ◌▹◌ {a} {b} {m} {k} r s = record {
    enough = λ h out.
        let (x, t, e) = r.enough (omega arith) out in
        let (y, u, f) = (s x).enough (omega arith) t in (y, u, bind_ok m k e ∙ f);
    short = λ h out. elim (lt_or_le (length packet) a) [
      | inl lt ↦ ap (λ r. and_then r k) (r.short lt out)
      | inr le ↦ let (x, t, e) = r.enough le out in bind_ok m k e ∙ (s x).short (omega arith) t
    ];
  }

  infixr 4 ◌▸◌
  ◌▸◌ :
      {A B : Type 0} {a b : ℕ} {m : Cmd Bytes A} {n : Cmd Bytes B}
      → Reads packet a m
      → Reads packet b n
      → Reads packet (a + (b - a)) (m >> n)
  r ▸ s = r ▹ λ _. s

  text : (t : Bytes) → Reads packet 0 (print t)
  text t = record { enough = λ h out. (tt, out ++ t, refl); short = λ h out. absurd (omega arith) }

  value : {A : Type 0} (a : A) → Reads packet 0 (pure a)
  value a = record { enough = λ h out. (a, out, refl); short = λ h out. absurd (omega arith) }

  byte : (i : ℕ) → Reads packet (suc i) (byte_at packet i)
  unfolding byte_at
  byte i = record {
    enough =
        λ h out. let (b, e, _) = drop_next packet i (omega arith) in (b, out, rw (e, byte_at) refl);
    short = λ h out. rw (get_elem?_past packet i (omega arith), byte_at) refl;
  }

  as_long_as :
      {A : Type 0} {a b : ℕ} {m : Cmd Bytes A} → a ≡ b → Reads packet a m → Reads packet b m
  as_long_as {m} e r = subst (λ n. Reads packet n m) e r

  text_if : (b : Bool) (t : Bytes) → Reads packet 0 (print_if b t)
  unfolding print_if
  text_if true t = text t
  text_if false t = value tt

  short_word : (i : ℕ) → Reads packet (suc (i + 1)) (short_at packet i)
  unfolding short_at
  short_word i = as_long_as (omega arith) (byte i ▹ λ x. byte (i + 1) ▹ λ y. value (x * 256 + y))

  long_word : (i : ℕ) → Reads packet (suc (i + 2 + 1)) (long_at packet i)
  unfolding long_at
  long_word i =
      as_long_as (omega arith) (short_word i ▹ λ x. short_word (i + 2) ▹ λ y. value (x * 65536 + y))

  address : (t : Bytes) (i : ℕ) → Reads packet (suc (i + 3)) (print_address t packet i)
  unfolding print_address
  address t i =
      as_long_as (omega arith)
        (byte i ▹ λ a. byte (i + 1) ▹ λ b. byte (i + 2) ▹ λ c. byte (i + 3) ▹ λ d. text _)

  mac : (from k i : ℕ) → Reads packet (suc (from + i + k)) (print_mac packet from (suc k) i)
  unfolding print_mac
  mac from zero i = as_long_as (omega arith) (byte (from + i) ▹ λ b. text _ ▸ text _ ▸ value tt)
  mac from (suc k) i =
      as_long_as (omega arith) (byte (from + i) ▹ λ b. text _ ▸ text _ ▸ mac from k (i + 1))

  ether : Reads packet 14 (print_ether_header packet)
  unfolding print_ether_header
  ether =
      as_long_as (omega arith)
        (short_word 12 ▹ λ type. text _ ▸ text _ ▸ mac 0 5 0 ▸ text _ ▸ mac 6 5 0 ▸ text _ ▸ text _)

  ip_flags : (off : ℕ) → Reads packet 0 (print_ip_flags off)
  unfolding print_ip_flags
  ip_flags off =
      as_long_as (omega arith) (text _ ▸ text_if _ _ ▸ text_if _ _ ▸ text_if _ _ ▸ text _)

  ip : Reads packet 30 (print_ip_header packet)
  unfolding print_ip_header
  ip = as_long_as (omega arith) (
      text _ ▸ byte 14 ▹ λ first. text _ ▸ text _ ▸ byte 15 ▹ λ tos. text _ ▸ short_word 16 ▹ λ len.
      text _ ▸ short_word 18 ▹ λ id. text _ ▸ byte 20 ▹ λ high. byte 21 ▹ λ low.
      ip_flags _ ▸ text _ ▸ byte 22 ▹ λ ttl. text _ ▸ byte 23 ▹ λ p.
      text _ ▸ text _ ▸ short_word 24 ▹ λ sum.
      text _ ▸ address (codes "source address: ") 26 ▸ address (codes "dest address: ") 26)

  tcp : Reads packet 54 (print_tcp_header packet)
  unfolding print_tcp_header
  tcp = as_long_as (omega arith) (
      text _ ▸ short_word 34 ▹ λ source. text _ ▸ short_word 36 ▹ λ dest.
      text _ ▸ long_word 38 ▹ λ seq. text _ ▸ long_word 42 ▹ λ ack. text _ ▸ byte 46 ▹ λ doff.
      text _ ▸ short_word 48 ▹ λ window. text _ ▸ text _ ▸ byte 47 ▹ λ flags.
      text_if _ _
      ▸ text_if _ _
      ▸ text_if _ _
      ▸ text_if _ _
      ▸ text_if _ _
      ▸ text_if _ _
      ▸ text _
      ▸ short_word 52
      ▹ λ urg. text _)

  payload : (len : ℕ) → len ≤ length packet → Reads packet 0 (print_payload packet len)
  unfolding print_payload
  payload len h = record {
    enough = λ _ out.
        let (a, t, e, _) = Returns-value (
          Returns-if {P = λ _ _. Unit {0}} (len == 0 || leb (2 ^ 31) len) _ _ out (λ e. returns tt)
            (λ e.
              Returns-mono (payload_loop-IsDump len packet len 0 _ (omega arith) (ground arith) h)
                (λ _ _ _. tt))) in
        (a, t, e);
    short = λ lt out. absurd (omega arith);
  }

  info : (count sec usec len : ℕ) → Reads packet 0 (print_pcap_packet_info count sec usec len)
  unfolding print_pcap_packet_info
  info count sec usec len = as_long_as (omega arith) (text _ ▸ text _ ▸ text _ ▸ text _)

  whole :
      (count : ℕ) (time : ℕ × ℕ) (len : ℕ)
      → len ≤ length packet
      → Reads packet 54 (print_packet count time len packet)
  unfolding print_packet
  whole count time len h =
      as_long_as (omega arith)
        (text _ ▸ info count time.0 time.1 len ▸ payload len h ▸ ether ▸ ip ▸ tcp ▸ text _)

-- A packet of which all was captured is printed if it has at least 54 bytes; if it has fewer, the
-- header of a TCP segment is read beyond its end, whatever its protocol.
pub process_packet-extent :
    (pkthdr : PcapPkthdr) (packet : Bytes) (printer : Printer)
    → pkthdr.len ≤ length packet
    → (54 ≤ length packet → (t : Printer) × (process_packet pkthdr packet printer ≡ ok tt t))
      × (length packet < 54 → process_packet pkthdr packet printer ≡ fault)
unfolding process_packet
process_packet-extent pkthdr packet printer h =
    let extent =
      whole printer.packet_count
        (reference_time printer.packet_count (first_ts printer pkthdr.ts) pkthdr.ts) pkthdr.len h in
    (
      λ enough.
          let (a, t, e) = extent.enough enough printer.out in (_, ap (printed printer pkthdr.ts) e),
      λ short. ap (printed printer pkthdr.ts) (extent.short short printer.out),
    )
