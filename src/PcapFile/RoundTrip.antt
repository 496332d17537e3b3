-- ===== src/PcapFile/RoundTrip.antt =====
-- module/pcap/pcap_save_file.c: what is saved is what a reader of the format reads.
use wsn_test_platform.Shared.{
  ℕ, zero, suc, ◌+◌, ◌^◌, ◌≤◌, ◌<◌, true, Option, some, List, [], ◌∷◌, ◌++◌, ◌≡◌, refl, sym, ap,
  ◌∙◌, append_assoc, append-nil, length, length-append, take, take_all, codes, lt→ltb, ltb, Returns,
  returns, Returns-and_then, Returns-mono, Returns-if, All, arith,
}
use wsn_test_platform.Protocol.{Bytes}
use wsn_test_platform.PcapFile.{
  Capture, Disk, file_header, packet_header, max_snap_len, pcap_file_create, pcap_file_close,
  pcap_file_write_packet, packet_callback, test_pcap_save_file, linktype_ethernet, time_name,
  file_path,
}
use wsn_test_platform.PcapFile.Names.{IsDate, time_name-fits}
use wsn_test_platform.PcapFile.Reader.{
  read_capture, read_packets, read_packet-packet_header, read_packets-nil, read_packets_next,
  read_capture-file_header,
}

-- The packets that the code saves whole: nothing of them is missing, and the format holds them.
pub record IsWhole (c : Capture) : Type 0 where
  pub complete : c.len ≡ length c.packet
  pub fits : c.len ≤ max_snap_len

-- What follows the header of a file with these packets, at whatever times they were saved
data IsBody : List Capture → Bytes → Type 0 where
  nothing : IsBody [] []
  saved :
      {c : Capture} {cs : List Capture} {bs : Bytes} (sec usec : ℕ)
      → sec < 2 ^ 32
      → usec < 1000000
      → IsBody cs bs
      → IsBody (c ∷ cs) (packet_header 4 (sec, usec) c.len ++ (c.packet ++ bs))

read_packets-IsBody :
    (cs : List Capture) {bs : Bytes} (k : ℕ)
    → IsBody cs bs
    → All IsWhole cs
    → length cs < k
    → read_packets k bs ≡ some cs
unfolding read_packets
read_packets-IsBody cs zero b w h = absurd (omega arith)
read_packets-IsBody [] (suc k) nothing w h = read_packets-nil k
read_packets-IsBody (c ∷ cs) (suc k) (saved {bs = bs} sec usec hs hu b) (w, ws) h =
    read_packets_next k _ bs c cs (read_packet-packet_header sec usec c bs hs hu w.complete w.fits)
      (read_packets-IsBody cs k b ws (omega arith))

length-IsBody : {cs : List Capture} {bs : Bytes} → IsBody cs bs → length cs ≤ length bs
unfolding packet_header
length-IsBody nothing = omega arith
length-IsBody (saved {c} {cs} {bs} sec usec hs hu b) =
    omega (arith, length-append c.packet bs, length-IsBody b)

-- What the documents say of the calls: nothing fails, the clock counts microseconds in 32-bit seconds,
-- the calendar gives a date, and the file of descriptor `fd` grows by what is
-- written to it.
pub record IsDisk {W : Type 0} (disk : Disk W) (fd : ℕ) (content : W → Bytes) : Type 0 where
  pub narrow : disk.long_width ≡ 4
  pub date : (w : W) → IsDate (disk.localtime w).0
  pub date_keeps : (w : W) → content (disk.localtime w).1 ≡ content w
  pub seconds : (w : W) → (disk.gettimeofday w).0.0 < 2 ^ 32
  pub microseconds : (w : W) → (disk.gettimeofday w).0.1 < 1000000
  pub clock_keeps : (w : W) → content (disk.gettimeofday w).1 ≡ content w
  pub memory : (n : ℕ) (w : W) → (disk.malloc n w).0 ≡ true
  pub created : (path : Bytes) (w : W) → (disk.creat path w).0 ≡ some fd
  pub created_empty : (path : Bytes) (w : W) → content (disk.creat path w).1 ≡ []
  pub wrote : (bs : Bytes) (w : W) → (disk.write (some fd) bs w).0 ≡ some (length bs)
  pub write_appends : (bs : Bytes) (w : W) → content (disk.write (some fd) bs w).1 ≡ content w ++ bs
  pub close_keeps : (w : W) → content (disk.close (some fd) w) ≡ content w

length_header : length (file_header linktype_ethernet) ≡ 24
unfolding file_header
length_header = refl

is_read :
    (cs : List Capture) (bs file : Bytes)
    → IsBody cs bs
    → All IsWhole cs
    → file ≡ file_header linktype_ethernet ++ bs
    → read_capture file ≡ some (linktype_ethernet, cs)
is_read cs bs file body hs e =
    ap read_capture e
    ∙ read_capture-file_header linktype_ethernet bs cs (omega arith) (
        read_packets-IsBody cs _ body hs (
          omega (
            arith,
            length-append (file_header linktype_ethernet) bs,
            length-IsBody body,
            length_header,
          )))

module _ {W : Type 0} (disk : Disk W) (fd : ℕ) (content : W → Bytes)
    (is : IsDisk disk fd content) where
  whole_packet : (c : Capture) → IsWhole c → take c.len c.packet ≡ c.packet
  whole_packet c h = ap (λ n. take n c.packet) h.complete ∙ take_all c.packet

  grew :
      (w : W) (c : Capture)
      → IsWhole c
      → let clock = disk.gettimeofday w in
        let hdr = packet_header disk.long_width clock.0 c.len in
        content (disk.write (some fd) (take c.len c.packet) (disk.write (some fd) hdr clock.1).1).1
        ≡ content w ++ (packet_header 4 (clock.0.0, clock.0.1) c.len ++ c.packet)
  grew w c h =
      let clock = disk.gettimeofday w in
      let hdr = packet_header disk.long_width clock.0 c.len in
      is.write_appends (take c.len c.packet) (disk.write (some fd) hdr clock.1).1
      ∙ ap (λ bs. bs ++ take c.len c.packet)
          (is.write_appends hdr clock.1 ∙ ap (λ bs. bs ++ hdr) (is.clock_keeps w))
      ∙ append_assoc (content w) hdr (take c.len c.packet)
      ∙ ap (λ k. content w ++ (packet_header k clock.0 c.len ++ take c.len c.packet)) is.narrow
      ∙ ap (λ bs. content w ++ (packet_header 4 clock.0 c.len ++ bs)) (whole_packet c h)

  -- One packet: its header, with the time of the clock, and its bytes
  pcap_file_write_packet_lem :
      (c : Capture) (w : W)
      → IsWhole c
      → Returns
          (λ _ t.
            (sec : ℕ) × (usec : ℕ) × (sec < 2 ^ 32)
            × (usec < 1000000)
            × (content t ≡ content w ++ (packet_header 4 (sec, usec) c.len ++ c.packet)))
          (pcap_file_write_packet disk (some fd) c.packet c.len w)
  unfolding pcap_file_write_packet
  pcap_file_write_packet_lem c w h =
      let w1 = (disk.gettimeofday w).1 in
      let hdr = packet_header disk.long_width (disk.gettimeofday w).0 c.len in
      rw (is.wrote hdr w1) (
        Returns-if (ltb (length c.packet) c.len) _ _ _ (λ e. absurd (ground (arith, h.complete)))
          (λ e. returns (
            (disk.gettimeofday w).0.0,
            (disk.gettimeofday w).0.1,
            is.seconds w,
            is.microseconds w,
            grew w c h,
          )))

  -- All packets of a capture: what the file had, and then the packets
  packet_callback_lem :
      (cs : List Capture) (w : W)
      → All IsWhole cs
      → Returns
          (λ _ t. (bs : Bytes) × IsBody cs bs × (content t ≡ content w ++ bs))
          (packet_callback disk (some fd) cs w)
  unfolding packet_callback
  packet_callback_lem [] w hs = returns ([], nothing, sym (append-nil (content w)))
  packet_callback_lem (c ∷ cs) w (h, hs) =
      Returns-and_then (pcap_file_write_packet_lem c w h) (λ ret t (sec, usec, hsec, husec, e).
        Returns-mono (packet_callback_lem cs t hs) (λ u v (bs, body, f). (
          packet_header 4 (sec, usec) c.len ++ (c.packet ++ bs),
          saved sec usec hsec husec body,
          f
              ∙ ap (λ xs. xs ++ bs) e
              ∙ append_assoc (content w) (packet_header 4 (sec, usec) c.len ++ c.packet) bs
              ∙ ap (λ xs. content w ++ xs)
                  (append_assoc (packet_header 4 (sec, usec) c.len) c.packet bs),
        )))

  pcap_file_create_lem :
      (dir : Option Bytes) (linktype : ℕ) (w : W)
      → Returns
          (λ created t. (created ≡ some fd) × (content t ≡ file_header linktype))
          (pcap_file_create disk dir linktype w)
  unfolding pcap_file_create
  pcap_file_create_lem dir linktype w =
      let tm = (disk.localtime w).0 in
      let path = file_path dir (time_name tm) in
      rw (lt→ltb _ _ (time_name-fits _ (is.date w))) (
        rw (is.memory (length path + 1) (disk.localtime w).1) (
          rw (is.created path (disk.malloc (length path + 1) (disk.localtime w).1).1) (
            returns (
              refl,
              is.write_appends (file_header linktype) _
                  ∙ ap (λ bs. bs ++ file_header linktype) (is.created_empty path _),
            ))))

  -- A capture whose packets are all complete and of at most 65535 bytes is copied, whatever the clock
  -- says, to a file that a reader of the format accepts, with the link type of Ethernet and exactly
  -- these packets; the program ends with status 0. This is so where a `long` has 4 bytes, no call of
  -- the system fails, and the clock and the calendar give times of 32-bit seconds and dates.
  pub test_pcap_save_file-read_capture :
      (packets : List Capture) (w : W)
      → All IsWhole packets
      → Returns
          (λ status t.
            (status ≡ 0) × (read_capture (content t) ≡ some (linktype_ethernet, packets)))
          (test_pcap_save_file disk (some packets ∷ []) w)
  unfolding test_pcap_save_file pcap_file_close
  test_pcap_save_file-read_capture packets w hs =
      Returns-and_then (pcap_file_create_lem (some (codes "output")) linktype_ethernet w)
        (λ created t (e, f). rw e (
          Returns-and_then (packet_callback_lem packets t hs) (λ u v (bs, body, g).
            returns
              (refl, is_read packets bs _ body hs (is.close_keeps v ∙ g ∙ ap (λ xs. xs ++ bs) f)))))
