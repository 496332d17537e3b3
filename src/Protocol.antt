-- ===== src/Protocol.antt =====
-- The constants of app/oint_protocol.h: the indices, widths and type codes of the node layer, the
-- board layer and the server layer.
use wsn_test_platform.Shared.{ℕ, List}

abbrev pub Bytes : Type 0
Bytes = List ℕ

abbrev pub node_delimiter_index : ℕ
node_delimiter_index = 0

abbrev pub node_direction_index : ℕ
node_direction_index = 1

abbrev pub node_src_node_id_index : ℕ
node_src_node_id_index = 5

abbrev pub node_payload_len_index : ℕ
node_payload_len_index = 7

abbrev pub node_payload_type_index : ℕ
node_payload_type_index = 10

abbrev pub node_payload_data_index : ℕ
node_payload_data_index = 11

abbrev pub node_payload_type_width : ℕ
node_payload_type_width = 1

abbrev pub node_crc_width : ℕ
node_crc_width = 2

abbrev pub node_packet_max_size : ℕ
node_packet_max_size = 256

abbrev pub node_direction_from_node : ℕ
node_direction_from_node = 0x45

abbrev pub node_delimiter : ℕ
node_delimiter = 0x7e

abbrev pub node_escape : ℕ
node_escape = 0x7d

abbrev pub node_payload_type_resp_node_id : ℕ
node_payload_type_resp_node_id = 0x13

abbrev pub node_payload_type_resp_current : ℕ
node_payload_type_resp_current = 0x19

abbrev pub node_payload_type_cmd_current : ℕ
node_payload_type_cmd_current = 0x39

abbrev pub node_payload_type_cmd_power_switch : ℕ
node_payload_type_cmd_power_switch = 0x54

abbrev pub cmd_b_packet_max_size : ℕ
cmd_b_packet_max_size = 50

abbrev pub cmd_b_port_id_index : ℕ
cmd_b_port_id_index = 0

abbrev pub cmd_b_payload_type_index : ℕ
cmd_b_payload_type_index = 11

abbrev pub cmd_b_node_open_base : ℕ
cmd_b_node_open_base = 0x30

abbrev pub cmd_b_node_close_base : ℕ
cmd_b_node_close_base = 0x40

abbrev pub resp_b_packet_max_size : ℕ
resp_b_packet_max_size = 16

abbrev pub resp_b_data_len_max : ℕ
resp_b_data_len_max = 10

abbrev pub resp_b_header_len : ℕ
resp_b_header_len = 5

abbrev pub resp_b_portid_datalen_index : ℕ
resp_b_portid_datalen_index = 0

abbrev pub resp_b_time_stamp_index : ℕ
resp_b_time_stamp_index = 1

abbrev pub resp_b_time_stamp_width : ℕ
resp_b_time_stamp_width = 4

abbrev pub resp_b_current_index : ℕ
resp_b_current_index = 5

abbrev pub resp_b_current_width : ℕ
resp_b_current_width = 2

-- `RESP_B_HEADER_LEN + NODE_PAYLOAD_TYPE_INDEX`
abbrev pub resp_b_type_index : ℕ
resp_b_type_index = 15

abbrev pub resp_b_even_check_index : ℕ
resp_b_even_check_index = 15

abbrev pub resp_b_packet_type_invalid : ℕ
resp_b_packet_type_invalid = 0xff

abbrev pub resp_b_packet_type_current : ℕ
resp_b_packet_type_current = 0xf

abbrev pub cmd_s_header_len : ℕ
cmd_s_header_len = 2

abbrev pub resp_s_header_len : ℕ
resp_s_header_len = 9

abbrev pub resp_s_node_id_index : ℕ
resp_s_node_id_index = 2

abbrev pub resp_s_time_node_len_index : ℕ
resp_s_time_node_len_index = 3

abbrev pub resp_s_timestamp_index : ℕ
resp_s_timestamp_index = 5

abbrev pub resp_s_timestamp_width : ℕ
resp_s_timestamp_width = 4

abbrev pub resp_s_crc_width : ℕ
resp_s_crc_width = 2

abbrev pub cmd_b_reprog_start_base : ℕ
cmd_b_reprog_start_base = 0x10

abbrev pub reprog_cmd_header_len : ℕ
reprog_cmd_header_len = 11

abbrev pub reprog_cmd_node_id_index : ℕ
reprog_cmd_node_id_index = 0

abbrev pub reprog_cmd_prefix_str_index : ℕ
reprog_cmd_prefix_str_index = 1

abbrev pub reprog_cmd_hex_file_len_index : ℕ
reprog_cmd_hex_file_len_index = 7
