-- ===== src/PacketTransfer/State.antt =====
-- The state of app/packet_transfer.c. Each command list is the sequence of its data, by the
-- theorems on common/dlist.c; a socket of -1 is `none`. The static variable of
-- `process_one_response` is a field.
use wsn_test_platform.Shared.{
  ℕ, ◌+◌, Bool, false, Option, none, some, List, ◌++◌, Cmd, ok, fault, leb, if◌then◌else◌, length,
  take, drop, replicate,
}
use wsn_test_platform.Protocol.{Bytes, node_packet_max_size, resp_b_time_stamp_width}
use wsn_test_platform.GatherBoard.{GatherBoard}

abbrev pub node_num : ℕ
node_num = 8

pub data PacketState : Type 0 where
  in_packet : PacketState
  out_packet : PacketState

pub record Command : Type 0 where
  pub port_id : ℕ
  pub type : ℕ
  pub to_board_packet_len : ℕ
  pub to_board_packet : Bytes

pub record Response : Type 0 where
  pub port_id : ℕ
  pub type : ℕ
  pub time_stamp : Bytes
  pub node_packet_len : ℕ
  pub node_packet : Bytes
  pub is_finished : Bool

pub record PacketTransfer : Type 0 where
  pub uploader_socket : Option ℕ
  pub command_set : List (List Command)
  pub response : Response
  pub packet_state : PacketState
  pub gather_board : Option GatherBoard

-- The process and the system around it
pub record Machine (W : Type 0) : Type 0 where
  pub transfer : PacketTransfer
  pub world : W

-- `memset(&thiz->response, 0, sizeof(thiz->response))`
abbrev pub response_zero : Response
response_zero = record {
  port_id = 0;
  type = 0;
  time_stamp = replicate resp_b_time_stamp_width 0;
  node_packet_len = 0;
  node_packet = replicate node_packet_max_size 0;
  is_finished = false;
}

-- `memcpy(buf + at, bs, …)`; a copy that leaves the buffer is `none`.
abbrev pub memcpy_at : ℕ → Bytes → Bytes → Option Bytes
memcpy_at at bs buf =
    if leb (at + length bs) (length buf)
    then some (take at buf ++ bs ++ drop (at + length bs) buf)
    else none

module _ {W : Type 0} where
  abbrev pub get_transfer : Cmd (Machine W) PacketTransfer
  get_transfer m = ok m.transfer m

  abbrev pub put_transfer : PacketTransfer → Cmd (Machine W) (Unit {0})
  put_transfer t m = ok tt (record { transfer = t; world = m.world })

  -- A step of the system alone
  abbrev pub call : {A : Type 0} → (W → A × W) → Cmd (Machine W) A
  call f m = ok (f m.world).0 (record { transfer = m.transfer; world = (f m.world).1 })

  -- Undefined behaviour when the value is missing
  abbrev pub or_fault : {A : Type 0} → Option A → Cmd (Machine W) A
  or_fault none m = fault
  or_fault (some a) m = ok a m
