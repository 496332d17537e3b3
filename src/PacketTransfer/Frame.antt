-- ===== src/PacketTransfer/Frame.antt =====
-- The frame that `send_response` of app/packet_transfer.c writes.
use wsn_test_platform.Shared.{
  ◌+◌, ◌-◌, ◌*◌, ◌%◌, ◌≤◌, [], ◌∷◌, ◌++◌, length, take, drop, get_or, ◌≡◌, arith, length-append,
  length-drop, length-take_of_le,
}
use wsn_test_platform.Protocol.{Bytes}
use wsn_test_platform.PacketTransfer.State.{Response}
use wsn_test_platform.PacketTransfer.Packets.{response_bytes}

length-parts :
    (a b c d : Bytes) → length (a ++ b ++ c ++ d) ≡ length a + length b + length c + length d
length-parts a b c d =
    omega (arith, length-append (a ++ b ++ c) d, length-append (a ++ b) c, length-append a b)

module _ (r : Response) (block : Bytes) where
  -- A response with a packet of at most 256 bytes, in a block of the size that was asked for, becomes
  -- a frame that is eleven bytes longer than the packet, and whose first two bytes, big-endian, are
  -- the frame's length.
  pub response_bytes-length :
      r.node_packet_len ≤ 256
      → length r.node_packet ≡ 256
      → length r.time_stamp ≡ 4
      → length block ≡ r.node_packet_len + 11
      → (length (response_bytes r block) ≡ r.node_packet_len + 11)
        × (get_or (response_bytes r block) 0 0 * 256 + get_or (response_bytes r block) 1 0
            ≡ length (response_bytes r block))
  unfolding response_bytes
  response_bytes-length short buffer stamp size =
      let packet_len = (9 + r.node_packet_len + 2) % 65536 in
      let stamp_len = length-take_of_le 4 r.time_stamp (omega (arith, stamp)) in
      let data_len =
        length-take_of_le r.node_packet_len r.node_packet (omega (arith, buffer, short)) in
      let block_len = length-take_of_le packet_len block (omega (arith, size, short)) in
      let rest_len = length-drop (packet_len - 1) (take packet_len block) in
      let whole =
        length-parts (take 4 r.time_stamp) (take r.node_packet_len r.node_packet) (0 ∷ [])
          (drop (packet_len - 1) (take packet_len block)) in
      let total : length (
              take 4 r.time_stamp
              ++ take r.node_packet_len r.node_packet
              ++ (0 ∷ [])
              ++ drop (packet_len - 1) (take packet_len block))
            + 5
          ≡ r.node_packet_len + 11 =
        omega (arith, whole, stamp_len, data_len, block_len, rest_len, short) in
      (omega (arith, total), omega (arith, total, short))
