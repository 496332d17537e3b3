-- ===== src/PcapFile/Reader.antt =====
-- A reader of the .pcap format, written from the description of the format and not from the writer:
-- files of version 2.4 that have their low bytes first.
use wsn_test_platform.Shared.{
  ℕ, zero, suc, ◌^◌, ◌≤◌, ◌<◌, Bool, ◌&&◌, Option, none, some, List, [], ◌∷◌, ◌++◌, ◌≡◌, refl, ap,
  ◌∙◌, append_assoc, length, ◌==◌, ltb, leb, if◌then◌else◌, arith,
}
use wsn_test_platform.Protocol.{Bytes}
use wsn_test_platform.PcapFile.{Capture, le, file_header, packet_header, max_snap_len}
use wsn_test_platform.PcapFile.Words.{read_le, read_le-le, read_bytes, read_bytes-append}

infixl 5 ◌then_read◌
abbrev pub ◌then_read◌ : {A B : Type 0} → Option (A × Bytes) → (A → Bytes → Option B) → Option B
none then_read next = none
some (a, rest) then_read next = next a rest

abbrev pub check : {B : Type 0} → Bool → Option B → Option B
check b o = if b then o else none

-- The link type, and what follows the header
unfoldable pub read_file_header : Bytes → Option (ℕ × Bytes)
read_file_header bs = read_le 4 bs then_read λ magic bs. read_le 2 bs then_read λ major bs.
    read_le 2 bs then_read λ minor bs. read_le 4 bs then_read λ thiszone bs.
    read_le 4 bs then_read λ sigfigs bs. read_le 4 bs then_read λ snaplen bs.
    read_le 4 bs then_read λ linktype bs.
    check (magic == 0xa1b2c3d4 && major == 2 && minor == 4) (some (linktype, bs))

-- A packet: its time must be one, and no more than the whole of it can have been saved.
unfoldable pub read_packet : Bytes → Option (Capture × Bytes)
read_packet bs = read_le 4 bs then_read λ sec bs. read_le 4 bs then_read λ usec bs.
    read_le 4 bs then_read λ caplen bs. read_le 4 bs then_read λ len bs.
    check (ltb usec 1000000 && leb caplen len)
      (read_bytes caplen bs then_read λ packet bs. some (record { packet = packet; len = len }, bs))

-- Packets up to the end of the file, at most one less than the fuel
unfoldable pub read_packets : ℕ → Bytes → Option (List Capture)
read_packets zero bs = none
read_packets (suc k) bs = elim (read_packet bs) [
  | none ↦ elim bs [ [] ↦ some [] | b ∷ bs ↦ none ]
  | some (c, rest) ↦ elim (read_packets k rest) [ none ↦ none | some cs ↦ some (c ∷ cs) ]
]

-- The link type and the packets of a file. A packet takes more than one byte.
unfoldable pub read_capture : Bytes → Option (ℕ × List Capture)
read_capture file = elim (read_file_header file) [
  | none ↦ none
  | some (linktype, rest) ↦ elim (read_packets (length file) rest) [
    | none ↦ none
    | some cs ↦ some (linktype, cs)
  ]
]

pub read_file_header-file_header :
    (linktype : ℕ) (rest : Bytes)
    → linktype < 2 ^ 32
    → read_file_header (file_header linktype ++ rest) ≡ some (linktype, rest)
unfolding read_file_header file_header read_le
read_file_header-file_header linktype rest h = ap (λ n. some (n, rest)) (omega arith)

pub packet_header_short :
    (k sec usec n : ℕ)
    → n ≤ max_snap_len
    → packet_header k (sec, usec) n ≡ le k sec ++ (le k usec ++ (le 4 n ++ le 4 n))
unfolding packet_header
packet_header_short k sec usec n h =
    ap (λ cap. le k sec ++ (le k usec ++ (le 4 cap ++ le 4 n))) (ground arith)

pub packet_header_long :
    (k sec usec n : ℕ)
    → max_snap_len < n
    → packet_header k (sec, usec) n ≡ le k sec ++ (le k usec ++ (le 4 max_snap_len ++ le 4 n))
unfolding packet_header
packet_header_long k sec usec n h =
    ap (λ cap. le k sec ++ (le k usec ++ (le 4 cap ++ le 4 n))) {y = max_snap_len} (ground arith)

pub read_fields :
    (sec usec cap n : ℕ) (bs : Bytes)
    → sec < 2 ^ 32
    → usec < 1000000
    → cap ≤ n
    → n < 2 ^ 32
    → read_packet (le 4 sec ++ (le 4 usec ++ (le 4 cap ++ (le 4 n ++ bs))))
      ≡ (read_bytes cap bs then_read λ packet bs. some (record { packet = packet; len = n }, bs))
unfolding read_packet
read_fields sec usec cap n bs hs hu h fits =
    rw
      (
        read_le-le 4 sec (le 4 usec ++ (le 4 cap ++ (le 4 n ++ bs))) (omega arith),
        read_le-le 4 usec (le 4 cap ++ (le 4 n ++ bs)) (omega arith),
        read_le-le 4 cap (le 4 n ++ bs) (omega arith),
        read_le-le 4 n bs (omega arith),
      )
      (ground arith)

pub read_fields_refused :
    (sec usec cap n : ℕ) (bs : Bytes)
    → sec < 2 ^ 32
    → usec < 2 ^ 32
    → cap < 2 ^ 32
    → n < cap
    → read_packet (le 4 sec ++ (le 4 usec ++ (le 4 cap ++ (le 4 n ++ bs)))) ≡ none
unfolding read_packet
read_fields_refused sec usec cap n bs hs hu h over =
    rw
      (
        read_le-le 4 sec (le 4 usec ++ (le 4 cap ++ (le 4 n ++ bs))) (omega arith),
        read_le-le 4 usec (le 4 cap ++ (le 4 n ++ bs)) (omega arith),
        read_le-le 4 cap (le 4 n ++ bs) (omega arith),
        read_le-le 4 n bs (omega arith),
      )
      (ground arith)

pub read_packet-packet_header :
    (sec usec : ℕ) (c : Capture) (rest : Bytes)
    → sec < 2 ^ 32
    → usec < 1000000
    → c.len ≡ length c.packet
    → c.len ≤ max_snap_len
    → read_packet (packet_header 4 (sec, usec) c.len ++ (c.packet ++ rest)) ≡ some (c, rest)
read_packet-packet_header sec usec c rest hs hu e h = rw (packet_header_short 4 sec usec c.len h) (
    simp append_assoc (
      read_fields sec usec c.len c.len (c.packet ++ rest) hs hu (omega arith) (omega arith)
      ∙ ap
          (λ n. read_bytes n (c.packet ++ rest) then_read λ packet bs.
            some (record { packet = packet; len = c.len }, bs))
          e
      ∙ rw (read_bytes-append c.packet rest) refl))

pub read_packets-nil : (k : ℕ) → read_packets (suc k) [] ≡ some []
unfolding read_packets read_packet read_le
read_packets-nil k = refl

pub read_packets_next :
    (k : ℕ) (bs rest : Bytes) (c : Capture) (cs : List Capture)
    → read_packet bs ≡ some (c, rest)
    → read_packets k rest ≡ some cs
    → read_packets (suc k) bs ≡ some (c ∷ cs)
unfolding read_packets
read_packets_next k bs rest c cs e f = rw (e, read_packets) (rw (f, read_packets) refl)

pub read_capture-file_header :
    (linktype : ℕ) (rest : Bytes) (cs : List Capture)
    → linktype < 2 ^ 32
    → read_packets (length (file_header linktype ++ rest)) rest ≡ some cs
    → read_capture (file_header linktype ++ rest) ≡ some (linktype, cs)
unfolding read_capture
read_capture-file_header linktype rest cs h e =
    rw (read_file_header-file_header linktype rest h, read_capture) (rw (e, read_capture) refl)
