-- ===== src/PcapFile.antt =====
-- module/pcap/pcap_save_file.c with module/pcap/pcap_header_des.h, and module/pcap/test_pcap_save_file.c,
-- which copies a capture with it: packets saved in a file of the .pcap format. Numbers are stored with
-- their low byte first, as the hosts of the program do.
pub mod Words
pub mod Reader
pub mod Names
pub mod RoundTrip
pub mod Limits
mod Tests
use wsn_test_platform.Shared.{
  ◌>>=◌, ◌>>◌, ℕ, zero, suc, ◌+◌, ◌/◌, ◌%◌, Bool, Option, none, some, List, [], ◌∷◌, ◌++◌, ok,
  fault, Cmd, pure, ltb, if◌then◌else◌, length, take, codes, decimal,
}
use wsn_test_platform.Protocol.{Bytes}

abbrev pub file_magic : ℕ
file_magic = 0xa1b2c3d4

abbrev pub max_snap_len : ℕ
max_snap_len = 65535

abbrev pub major_version : ℕ
major_version = 2

abbrev pub minor_version : ℕ
minor_version = 4

abbrev pub linktype_ethernet : ℕ
linktype_ethernet = 1

-- `struct tm`, as far as it is used: the year counts from 1900, the month from 0
pub record Tm : Type 0 where
  pub tm_year : ℕ
  pub tm_mon : ℕ
  pub tm_mday : ℕ
  pub tm_hour : ℕ
  pub tm_min : ℕ
  pub tm_sec : ℕ

-- What the module calls. A descriptor of -1, and a count of -1, is `none`.
pub record Disk (W : Type 0) : Type 0 where
  -- the width of a `long`: 4 on the boards, 8 on a 64-bit host
  pub long_width : ℕ
  -- `time` and `localtime`
  pub localtime : W → Tm × W
  -- seconds and microseconds
  pub gettimeofday : W → (ℕ × ℕ) × W
  -- whether the block was given
  pub malloc : ℕ → W → Bool × W
  -- with O_CREAT | O_TRUNC | O_RDWR
  pub creat : Bytes → W → Option ℕ × W
  pub write : Option ℕ → Bytes → W → Option ℕ × W
  pub close : Option ℕ → W → W

-- A number in `k` bytes, with its low byte first
unfoldable pub le : ℕ → ℕ → Bytes
le zero n = []
le (suc k) n = (n % 256) ∷ le k (n / 256)

unfoldable pub file_header : ℕ → Bytes
unfolding le
file_header linktype =
    le 4 file_magic
    ++ (le 2 major_version
        ++ (le 2 minor_version ++ (le 4 0 ++ (le 4 0 ++ (le 4 max_snap_len ++ le 4 linktype)))))

-- `struct timeval` holds two longs.
unfoldable pub packet_header : ℕ → ℕ × ℕ → ℕ → Bytes
unfolding le
packet_header long_width (sec, usec) packet_len =
    let cap_len = if ltb max_snap_len packet_len then max_snap_len else packet_len in
    le long_width sec ++ (le long_width usec ++ (le 4 cap_len ++ le 4 packet_len))

-- The text that `sprintf` writes into `buffer`
unfoldable pub time_name : Tm → Bytes
unfolding decimal
time_name t =
    decimal (t.tm_year + 1900)
    ++ (codes "_"
        ++ (decimal (t.tm_mon + 1)
            ++ (codes "_"
                ++ (decimal t.tm_mday
                    ++ (codes "_"
                        ++ (decimal t.tm_hour
                            ++ (codes "_"
                                ++ (decimal t.tm_min
                                    ++ (codes "_" ++ (decimal t.tm_sec ++ codes ".pcap"))))))))))

abbrev pub name_buffer_size : ℕ
name_buffer_size = 30

abbrev pub file_path : Option Bytes → Bytes → Bytes
file_path none name = name
file_path (some dir) name = dir ++ (codes "/" ++ name)

-- `ret` of a write, with the bytes that C hands to it: more than the memory holds is a fault.
abbrev pub held : {W A : Type 0} → Bytes → ℕ → (Bytes → Cmd W A) → Cmd W A
held memory len use_it = if ltb (length memory) len then (λ w. fault) else use_it (take len memory)

module _ {W : Type 0} (disk : Disk W) where
  abbrev pub call : {A : Type 0} → (W → A × W) → Cmd W A
  call f w = ok (f w).0 (f w).1

  unfoldable pub pcap_file_write_file_header : Option ℕ → ℕ → Cmd W (Option ℕ)
  unfolding file_header
  pcap_file_write_file_header fd linktype = call (disk.write fd (file_header linktype))

  unfoldable pub pcap_file_write_packet_header : Option ℕ → ℕ → Cmd W (Option ℕ)
  unfolding packet_header
  pcap_file_write_packet_header fd packet_len = do
    tv ← call disk.gettimeofday
    call (disk.write fd (packet_header disk.long_width tv packet_len))

  -- NULL is the current directory. The block that `malloc` does not give is written all the same.
  unfoldable pub pcap_file_create : Option Bytes → ℕ → Cmd W (Option ℕ)
  unfolding pcap_file_write_file_header time_name
  pcap_file_create dir linktype = do
    time_struct ← call disk.localtime
    if ltb (length (time_name time_struct)) name_buffer_size then pure tt else (λ w. fault)
    given_block ← call (disk.malloc (length (file_path dir (time_name time_struct)) + 1))
    if given_block then pure tt else (λ w. fault)
    fd ← call (disk.creat (file_path dir (time_name time_struct)))
    elim fd [
      | none ↦ pure none
      | some n ↦ (do pcap_file_write_file_header (some n) linktype; pure (some n))
    ]

  -- `packet_len` is an `int` by its bit pattern: a negative length is more than any block holds.
  unfoldable pub pcap_file_write_packet : Option ℕ → Bytes → ℕ → Cmd W (Option ℕ)
  unfolding pcap_file_write_packet_header
  pcap_file_write_packet fd packet packet_len = do
    ret ← pcap_file_write_packet_header fd packet_len
    elim ret [
      | none ↦ pure none
      | some count ↦ held packet packet_len (λ bs. call (disk.write fd bs))
    ]

  unfoldable pub pcap_file_close : Option ℕ → Cmd W (Unit {0})
  pcap_file_close fd w = ok tt (disk.close fd w)

-- A packet as `pcap_loop` hands it over: the bytes that were captured, and the length on the wire
pub record Capture : Type 0 where
  pub packet : Bytes
  pub len : ℕ

module _ {W : Type 0} (disk : Disk W) where
  -- `packet_callback`, as `pcap_loop` calls it for every packet
  unfoldable pub packet_callback : Option ℕ → List Capture → Cmd W (Unit {0})
  unfolding pcap_file_write_packet
  packet_callback fd [] = pure tt
  packet_callback fd (c ∷ cs) = do
    pcap_file_write_packet disk fd c.packet c.len
    packet_callback fd cs

  -- `main` of the test program: its exit status. The name of a capture stands for its packets,
  -- `none` if `pcap_open_offline` refuses it, and there is one name exactly if there is one argument.
  unfoldable pub test_pcap_save_file : List (Option (List Capture)) → Cmd W ℕ
  unfolding pcap_file_create packet_callback pcap_file_close
  test_pcap_save_file (captures ∷ []) = do
    fd ← pcap_file_create disk (some (codes "output")) linktype_ethernet
    elim fd [
      | none ↦ pure 1
      | some n ↦ elim captures [
        | none ↦ pure 1
        | some packets ↦ (do
          packet_callback (some n) packets
          pcap_file_close disk (some n)
          pure 0)
      ]
    ]
  test_pcap_save_file [] = pure 1
  test_pcap_save_file (a ∷ b ∷ rest) = pure 1
