-- ===== src/PacketTransfer/Packets.antt =====
-- The packets of app/packet_transfer.c as values: the tests of `process_one_response`, the responses
-- that it builds and the bytes of `send_response`.
use wsn_test_platform.Shared.{
  ℕ, ◌+◌, ◌-◌, ◌/◌, ◌%◌, Bool, true, false, not, ◌&&◌, ◌||◌, Option, none, some, List, [], ◌∷◌,
  ◌++◌, ok, fault, out_of_fuel, ◌==◌, ltb, if◌then◌else◌, get_or, take, drop, replicate, length,
}
use wsn_test_platform.Protocol.{
  Bytes, node_delimiter_index, node_direction_index, node_src_node_id_index, node_payload_len_index,
  node_payload_type_index, node_payload_data_index, node_payload_type_width, node_crc_width,
  node_direction_from_node, node_delimiter, node_payload_type_resp_current, resp_b_data_len_max,
  resp_b_header_len, resp_b_portid_datalen_index, resp_b_time_stamp_index, resp_b_time_stamp_width,
  resp_b_current_index, resp_b_current_width, resp_b_type_index, resp_b_even_check_index,
  resp_b_packet_type_invalid, resp_b_packet_type_current, resp_s_header_len, resp_s_timestamp_width,
  resp_s_crc_width,
}
use wsn_test_platform.Util.{copy_with_process_delimiter, crc_16_width}
use wsn_test_platform.PacketTransfer.State.{
  PacketTransfer, Command, Response, PacketState, memcpy_at, response_zero,
}

-- `RESP_B_GET_PORT_ID` and `RESP_B_GET_DATA_LEN`
abbrev pub resp_b_get_port_id : ℕ → ℕ
resp_b_get_port_id header = header / 16 % 16

abbrev pub resp_b_get_data_len : ℕ → ℕ
resp_b_get_data_len header = header % 16

-- `node_type_convert_resp_to_cmd`, as the callback reads it: the low byte of an int
abbrev pub node_type_convert_resp_to_cmd : ℕ → ℕ
node_type_convert_resp_to_cmd resp = (resp + 0x20) % 256

abbrev pub response_find_cb : ℕ → Command → Bool
response_find_cb type command = command.type == type

abbrev pub with_response : Response → PacketState → PacketTransfer → PacketTransfer
with_response response state t = record {
  uploader_socket = t.uploader_socket;
  command_set = t.command_set;
  response = response;
  packet_state = state;
  gather_board = t.gather_board;
}

abbrev pub with_commands : List (List Command) → PacketTransfer → PacketTransfer
with_commands commands t = record {
  uploader_socket = t.uploader_socket;
  command_set = commands;
  response = t.response;
  packet_state = t.packet_state;
  gather_board = t.gather_board;
}

-- The bytes that a fragment carries
abbrev pub fragment_data : Bytes → Bytes
fragment_data from_board =
    take (resp_b_get_data_len (get_or from_board 0 0)) (drop resp_b_header_len from_board)

-- A write of one byte into `node_packet`
abbrev pub poke : ℕ → ℕ → Option Bytes → Option Bytes
poke at value buf = elim buf [ none ↦ none | some bytes ↦ memcpy_at at (value ∷ []) bytes ]

abbrev pub copy_into : ℕ → Bytes → Option Bytes → Option Bytes
copy_into at bs buf = elim buf [ none ↦ none | some bytes ↦ memcpy_at at bs bytes ]

-- The buffer of a current packet before its data: cleared over the last length, with the header
unfoldable pub current_header : Response → ℕ → Option Bytes
current_header response port = poke node_payload_type_index node_payload_type_resp_current (
    poke node_payload_len_index (node_payload_type_width + resp_b_current_width) (
      poke node_src_node_id_index ((port + 1) % 256) (
        poke node_direction_index node_direction_from_node (
          poke node_delimiter_index node_delimiter
            (memcpy_at 0 (replicate response.node_packet_len 0) response.node_packet)))))

-- The response once `bytes` are in the buffer, the last of them at `at`
abbrev pub current_response_of : Response → Bytes → ℕ → Bytes → Response
current_response_of response from_board at bytes = record {
  port_id = resp_b_get_port_id (get_or from_board 0 0);
  type = response.type;
  time_stamp = take resp_b_time_stamp_width (drop resp_b_time_stamp_index from_board);
  node_packet_len = at + 1;
  node_packet = bytes;
  is_finished = true;
}

-- The checksum as it lies in memory
abbrev pub crc_bytes : Bytes → ℕ → Bytes
crc_bytes buf index = crc_16_width buf index % 256 ∷ crc_16_width buf index / 256 ∷ []

-- The checksum and the last delimiter, behind the `index` bytes in the buffer
unfoldable pub current_end : Response → Bytes → ℕ → Option Bytes → Option Response
current_end response from_board index none = none
current_end response from_board index (some buf) =
    elim (poke (index + node_crc_width) node_delimiter
      (copy_into index (crc_bytes buf index) (some buf))) [
        | none ↦ none
        | some bytes ↦ some (current_response_of response from_board (index + node_crc_width) bytes)
      ]

-- A current packet, put into the form of a data packet; `none` is a write outside the buffer.
unfoldable pub current_packet : Response → Bytes → Option Response
unfolding current_header current_end
current_packet response from_board =
    elim (copy_with_process_delimiter 256 (drop resp_b_current_index from_board)
      resp_b_current_width []) [
        | ok n copied ↦ current_end response from_board (node_payload_data_index + length copied) (
            copy_into node_payload_data_index copied
              (current_header response (resp_b_get_port_id (get_or from_board 0 0))))
        | fault ↦ none
        | out_of_fuel ↦ none
      ]

-- The first fragment of a node packet, into a response that was reset
unfoldable pub first_fragment : Bytes → Option Response
first_fragment from_board =
    elim (memcpy_at 0 (fragment_data from_board) response_zero.node_packet) [
      | none ↦ none
      | some bytes ↦ some (record {
        port_id = resp_b_get_port_id (get_or from_board 0 0);
        type = get_or from_board resp_b_type_index 0;
        time_stamp = take resp_b_time_stamp_width (drop resp_b_time_stamp_index from_board);
        node_packet_len = resp_b_get_data_len (get_or from_board 0 0);
        node_packet = bytes;
        is_finished = false;
      })
    ]

-- A further fragment, behind the bytes that are there
unfoldable pub next_fragment : Response → Bytes → Bool → Option Response
next_fragment response from_board last =
    elim (memcpy_at response.node_packet_len (fragment_data from_board) response.node_packet) [
      | none ↦ none
      | some bytes ↦ some (record {
        port_id = response.port_id;
        type = response.type;
        time_stamp = response.time_stamp;
        node_packet_len =
            (response.node_packet_len + resp_b_get_data_len (get_or from_board 0 0)) % 65536;
        node_packet = bytes;
        is_finished = if last then true else response.is_finished;
      })
    ]

-- The tests of `process_one_response`
abbrev pub is_invalid : Bytes → Bool
is_invalid from_board =
    let header = get_or from_board resp_b_portid_datalen_index 0 in
    header == resp_b_packet_type_invalid
    || ltb resp_b_data_len_max (resp_b_get_data_len header)
      && not (resp_b_get_data_len header == resp_b_packet_type_current)

abbrev pub is_current : Bytes → Bool
is_current from_board =
    resp_b_get_data_len (get_or from_board resp_b_portid_datalen_index 0)
    == resp_b_packet_type_current

abbrev pub is_first : Bytes → Bool
is_first from_board =
    (get_or from_board (resp_b_header_len + node_delimiter_index) 0 == node_delimiter)
    && (get_or from_board (resp_b_header_len + node_direction_index) 0 == node_direction_from_node)
    && (resp_b_get_data_len (get_or from_board 0 0) == resp_b_data_len_max)

abbrev pub is_last : Bytes → Bool
is_last from_board =
    not (resp_b_get_data_len (get_or from_board 0 0) == resp_b_data_len_max)
    || (get_or from_board (resp_b_even_check_index - 1) 0 == node_delimiter)

-- The packet of `send_response`, for a length that does not leave `node_packet`: `block` is what the
-- new block holds, whose last byte the code never writes.
unfoldable pub response_bytes : Response → Bytes → Bytes
response_bytes response block =
    let packet_len = (resp_s_header_len + response.node_packet_len + resp_s_crc_width) % 65536 in
    let timestamp_data_len = (resp_s_timestamp_width + response.node_packet_len) % 65536 in
    (packet_len / 256
      ∷ packet_len % 256
      ∷ (response.port_id + 1) % 256
      ∷ timestamp_data_len / 256
      ∷ timestamp_data_len % 256
      ∷ [])
    ++ take resp_s_timestamp_width response.time_stamp
    ++ take response.node_packet_len response.node_packet
    ++ (0 ∷ [])
    ++ drop (packet_len - 1) (take packet_len block)
