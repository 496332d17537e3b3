-- ===== src/PacketTransfer/Commands.antt =====
-- The commands of app/packet_transfer.c: `handle_command`, `process_one_command`.
use wsn_test_platform.Shared.{
  ℕ, ◌+◌, ◌*◌, ◌%◌, Bool, true, false, Option, none, some, List, [], ◌∷◌, ◌++◌, Ret, ◌||◌, ret_ok,
  ret_fail, ok, Cmd, pure, ◌>>=◌, ◌>>◌, ◌==◌, if◌then◌else◌, get_elem?, get_or, set, take, drop,
  length,
}
use wsn_test_platform.Protocol.{
  Bytes, node_payload_type_cmd_current, node_payload_type_cmd_power_switch, cmd_b_packet_max_size,
  cmd_b_port_id_index, cmd_b_payload_type_index, cmd_b_node_open_base, cmd_b_node_close_base,
  cmd_s_header_len, node_payload_type_width,
}
use wsn_test_platform.Kernel.{System}
use wsn_test_platform.PacketTransfer.State.{
  Command, Machine, get_transfer, put_transfer, call, or_fault, memcpy_at,
}

-- The byte for the board, which the code computes and does not send yet.
unfoldable pub power_switch_byte : Command → ℕ
power_switch_byte command =
    if get_or command.to_board_packet (cmd_b_payload_type_index + node_payload_type_width) 0 == 0
    then (cmd_b_node_close_base + command.port_id) % 256
    else (cmd_b_node_open_base + command.port_id) % 256

-- The `switch` of `handle_command`: its first cases run on into the default.
unfoldable pub wait_for_response : ℕ → Bool
wait_for_response type =
    let wait = true in
    let wait =
      if type == node_payload_type_cmd_current || type == node_payload_type_cmd_power_switch
      then false
      else wait in
    let default_case = λ (before : Bool). true in default_case wait

-- `sizeof(DListNode)` and `sizeof(Command)` on the 32-bit board
abbrev size_of_node : ℕ
size_of_node = 12

abbrev size_of_command : ℕ
size_of_command = 54

-- The command as it stands in its block once both reads are done
abbrev pub parse_command : ℕ → Bytes → Command
parse_command len packet = record {
  port_id = (get_or packet cmd_b_port_id_index 0 + 255) % 256;
  type = get_or packet cmd_b_payload_type_index 0;
  to_board_packet_len = len;
  to_board_packet = packet;
}

module _ {W : Type 0} (sys : System W) where
  -- `dlist_append` on the list of one port: without memory for a node the list is what it was.
  unfoldable pub append_command : Command → List Command → Cmd (Machine W) (Unit {0})
  append_command command commands = do
    node ← call (sys.malloc size_of_node)
    t ← get_transfer
    elim node [
      | none ↦ pure tt
      | some block ↦ put_transfer (record {
        uploader_socket = t.uploader_socket;
        command_set = set t.command_set command.port_id (commands ++ (command ∷ []));
        response = t.response;
        packet_state = t.packet_state;
        gather_board = t.gather_board;
      })
    ]

  unfoldable pub handle_command : Command → Cmd (Machine W) (Unit {0})
  unfolding wait_for_response append_command
  handle_command command =
      if command.type == node_payload_type_cmd_power_switch
      then pure tt
      else if wait_for_response command.type
      then (do
        t ← get_transfer
        commands ← or_fault (get_elem? t.command_set command.port_id)
        append_command command commands)
      else pure tt

  unfoldable pub read_socket : ℕ → Cmd (Machine W) (Option Bytes)
  read_socket n m = elim m.transfer.uploader_socket [
    | none ↦ ok none m
    | some fd ↦ call (sys.read fd n) m
  ]

  -- The tests after a read: -1 and 0 are failures.
  abbrev pub on_read : (Bytes → Cmd (Machine W) Ret) → Option Bytes → Cmd (Machine W) Ret
  on_read next none = pure ret_fail
  on_read next (some bs) = if length bs == 0 then pure ret_fail else next bs

  abbrev pub store_packet : Bytes → ℕ → Bytes → Cmd (Machine W) Ret
  store_packet block len bs = do
    packet ← or_fault (memcpy_at 0 bs (take cmd_b_packet_max_size (drop 4 block)))
    handle_command (parse_command len packet)
    pure ret_ok

  unfoldable pub read_packet : Bytes → ℕ → Cmd (Machine W) Ret
  unfolding handle_command read_socket
  read_packet block len = do received ← read_socket len; on_read (store_packet block len) received

  abbrev pub store_header : Bytes → Bytes → Cmd (Machine W) Ret
  store_header block bs = do
    header ← or_fault (memcpy_at 0 bs (take cmd_s_header_len (drop 2 block)))
    read_packet block (get_or header 0 0 * 256 + get_or header 1 0)

  unfoldable pub read_header : Bytes → Cmd (Machine W) Ret
  unfolding read_packet read_socket
  read_header block = do
    received ← read_socket cmd_s_header_len
    on_read (store_header block) received

  unfoldable pub process_one_command : Cmd (Machine W) Ret
  unfolding read_header
  process_one_command = do
    block ← call (sys.malloc size_of_command)
    elim block [ none ↦ pure ret_fail | some bytes ↦ read_header bytes ]
