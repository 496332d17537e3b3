-- ===== src/PacketTransfer/Responses.antt =====
-- The responses of app/packet_transfer.c: `process_one_response` and its state machine, on the
-- sixteen bytes that came from the board, `handle_response` and `send_response`.
use wsn_test_platform.Shared.{
  ◌>>=◌, ◌>>◌, ◌+◌, ◌%◌, none, some, Ret, ret_ok, ret_fail, ok, fault, out_of_fuel, Cmd, pure, ◌==◌,
  if◌then◌else◌, get_elem?, set, leb, length,
}
use wsn_test_platform.Protocol.{
  Bytes, node_payload_type_resp_node_id, resp_b_packet_max_size, resp_s_header_len,
  resp_s_crc_width,
}
use wsn_test_platform.Util.{even_check}
use wsn_test_platform.Kernel.{System}
use wsn_test_platform.GatherBoard.{gather_board_led_red, gather_board_led_green, led_on}
use wsn_test_platform.DList.Client.{find_datum, delete_datum}
use wsn_test_platform.PacketTransfer.State.{
  PacketTransfer, PacketState, in_packet, out_packet, Machine, get_transfer, put_transfer, call,
  or_fault,
}
use wsn_test_platform.PacketTransfer.Packets.{
  node_type_convert_resp_to_cmd, response_find_cb, with_response, with_commands, current_packet,
  first_fragment, next_fragment, is_invalid, is_current, is_first, is_last, response_bytes,
}

module _ {W : Type 0} (sys : System W) where
  abbrev pub board_call : {A : Type 0} → Cmd W A → Cmd (Machine W) A
  board_call f m = elim (f m.world) [
    | ok a w ↦ ok a (record { transfer = m.transfer; world = w })
    | fault ↦ fault
    | out_of_fuel ↦ out_of_fuel
  ]

  unfoldable pub handle_response : Cmd (Machine W) (Unit {0})
  handle_response = do
    t ← get_transfer
    let port = t.response.port_id
    red ←
        (if t.response.type == node_payload_type_resp_node_id
          then board_call (gather_board_led_red sys t.gather_board (port + 1) led_on)
          else pure ret_ok)
    green ← board_call (gather_board_led_green sys t.gather_board (port + 1) led_on)
    commands ← or_fault (get_elem? t.command_set port)
    left ← or_fault (
        delete_datum
          (find_datum (response_find_cb (node_type_convert_resp_to_cmd t.response.type)) commands)
          commands)
    put_transfer (with_commands (set t.command_set port left) t)

  unfoldable pub send_response : Cmd (Machine W) (Unit {0})
  send_response = do
    t ← get_transfer
    block ←
        call
          (sys.malloc ((resp_s_header_len + t.response.node_packet_len + resp_s_crc_width) % 65536))
    bytes ← or_fault block
    packet ← or_fault (
        if leb t.response.node_packet_len (length t.response.node_packet)
        then some t.response.node_packet
        else none)
    elim t.uploader_socket [
      | none ↦ pure tt
      | some fd ↦ λ m. ok tt (record {
        transfer = m.transfer;
        world = sys.write fd (response_bytes t.response bytes) m.world;
      })
    ]

  unfoldable pub data_packet : Bytes → PacketTransfer → PacketState → Cmd (Machine W) Ret
  unfolding handle_response
  data_packet from_board t out_packet =
      if is_first from_board
      then (do
        response ← or_fault (first_fragment from_board)
        put_transfer (with_response response in_packet t)
        pure ret_ok)
      else pure ret_fail
  data_packet from_board t in_packet = do
    response ← or_fault (next_fragment t.response from_board (is_last from_board))
    put_transfer (with_response response (if is_last from_board then out_packet else in_packet) t)
    (if is_last from_board then handle_response else pure tt)
    pure ret_ok

  unfoldable pub current_response : Bytes → PacketTransfer → Cmd (Machine W) Ret
  current_response from_board t = do
    response ← or_fault (current_packet t.response from_board)
    put_transfer (with_response response t.packet_state t)
    pure ret_ok

  -- What follows a parity check that succeeds
  unfoldable pub accepted : Bytes → Cmd (Machine W) Ret
  unfolding data_packet current_response
  accepted from_board m =
      if is_invalid from_board
      then ok ret_fail m
      else if is_current from_board
      then current_response from_board m.transfer m
      else data_packet from_board m.transfer m.transfer.packet_state m

  -- `from_board` is what the read from the board, still to be written, leaves in the buffer.
  unfoldable pub process_one_response : Bytes → Cmd (Machine W) Ret
  unfolding accepted
  process_one_response from_board = do
    even ← or_fault (even_check from_board resp_b_packet_max_size)
    if even then accepted from_board else pure ret_fail
