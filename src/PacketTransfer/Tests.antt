-- ===== src/PacketTransfer/Tests.antt =====
-- The theorems on app/packet_transfer.c at three fragments of one packet, and at a connection whose
-- peer has sent one command.
use wsn_test_platform.Shared.{
  ℕ, inl, inr, ◌+◌, ◌≤◌, true, none, some, List, [], ◌∷◌, ◌++◌, ret_ok, ret_fail, ok, fault, set,
  Returns, Settles, get_or, length, take, drop, replicate, ◌≡◌, ◌≢◌, refl, ap, arith, length-append,
  length-drop, take-append-drop,
}
use wsn_test_platform.Protocol.{Bytes}
use wsn_test_platform.Kernel.{System}
use wsn_test_platform.Util.{even_check, even_loop}
use wsn_test_platform.Util.Parity.{parity}
use wsn_test_platform.PacketTransfer.State.{
  PacketTransfer, Command, Machine, out_packet, response_zero,
}
use wsn_test_platform.PacketTransfer.Responses.{process_one_response}
use wsn_test_platform.PacketTransfer.Packets.{fragment_data, with_response}
use wsn_test_platform.PacketTransfer.Session.{
  packet_transfer_process, packet_transfer_reset, with_socket,
}
use wsn_test_platform.PacketTransfer.Fragments.{IsData, Complete}
use wsn_test_platform.PacketTransfer.Reassembly.Whole.{
  IsMiddle, all_data, receive, process_one_response-reassembles, process_one_response-type,
}
use wsn_test_platform.PacketTransfer.Rejects.{
  process_one_response-corrupted, process_one_response-discards,
}
use wsn_test_platform.PacketTransfer.Commands.{process_one_command}
use wsn_test_platform.PacketTransfer.Packets.{with_commands}
use wsn_test_platform.PacketTransfer.Responses.{handle_response}
use wsn_test_platform.PacketTransfer.Answered.{IsTakenOut, handle_response-answered}
use wsn_test_platform.PacketTransfer.Delivery.{
  Arrives, stored, process_one_command-port_zero, process_one_command-appends,
  handle_response-faults,
}
use wsn_test_platform.PacketTransfer.State.{Response}
use wsn_test_platform.PacketTransfer.Invariant.{Damages, process_one_response-IsBounded}
use wsn_test_platform.PacketTransfer.Fits.{IsBounded}
use wsn_test_platform.PacketTransfer.Reset.{
  packet_transfer_reset-keeps_commands, packet_transfer_reset-never_returns,
}
use wsn_test_platform.PacketTransfer.Termination.{
  IsFinite, Stops, Faults, connected, packet_transfer_process-Ends,
}

-- A system whose socket delivers the bytes of a list, and where every call succeeds
abbrev wire : System Bytes
wire = record {
  malloc = λ n w. (some (replicate n 0), w);
  read = λ fd n w. (some (take n w), drop n w);
  write = λ fd bs w. w;
  close = λ fd w. w;
  ioctl = λ fd command value w. (true, w);
  open_path = λ name w. (some name, w);
}

abbrev first : Bytes
first = 42 ∷ 1 ∷ 2 ∷ 3 ∷ 4 ∷ 126 ∷ 69 ∷ 0 ∷ 0 ∷ 0 ∷ 3 ∷ 0 ∷ 4 ∷ 0 ∷ 0 ∷ 18 ∷ []

abbrev middle : Bytes
middle = 42 ∷ 1 ∷ 2 ∷ 3 ∷ 4 ∷ 19 ∷ 1 ∷ 2 ∷ 3 ∷ 4 ∷ 5 ∷ 6 ∷ 7 ∷ 8 ∷ 9 ∷ 60 ∷ []

abbrev last : Bytes
last = 35 ∷ 1 ∷ 2 ∷ 3 ∷ 4 ∷ 1 ∷ 2 ∷ 126 ∷ 0 ∷ 0 ∷ 0 ∷ 0 ∷ 0 ∷ 0 ∷ 0 ∷ 90 ∷ []

abbrev command : Command
command = record { port_id = 2; type = 0x33; to_board_packet_len = 1; to_board_packet = 3 ∷ [] }

abbrev other_command : Command
other_command = record {
  port_id = 2;
  type = 0x34;
  to_board_packet_len = 1;
  to_board_packet = 3 ∷ [];
}

abbrev transfer : List (List Command) → PacketTransfer
transfer commands = record {
  uploader_socket = none;
  command_set = commands;
  response = response_zero;
  packet_state = out_packet;
  gather_board = some (record { gpio_fd = 3; spi_write_fd = 4; spi_read_fd = 5 });
}

abbrev one_pending : List (List Command)
one_pending = [] ∷ [] ∷ (command ∷ []) ∷ [] ∷ [] ∷ [] ∷ [] ∷ [] ∷ []

-- The server's command: two bytes of length, and a packet of thirteen bytes
abbrev machine : Machine Bytes
machine = record {
  transfer = transfer one_pending;
  world = 0 ∷ 13 ∷ 3 ∷ 0 ∷ 0 ∷ 0 ∷ 0 ∷ 0 ∷ 0 ∷ 0 ∷ 0 ∷ 0 ∷ 0 ∷ 0x33 ∷ 0 ∷ [];
}

abbrev busy : Machine Bytes
busy = record {
  transfer = transfer ((command ∷ []) ∷ [] ∷ [] ∷ [] ∷ [] ∷ [] ∷ [] ∷ [] ∷ []);
  world = [];
}

first-IsData : IsData first
unfolding even_check even_loop
first-IsData = record { size = refl; short = omega arith; even = refl }

middle-IsMiddle : IsMiddle middle
unfolding even_check even_loop
middle-IsMiddle = record {
  is_data = record { size = refl; short = omega arith; even = refl };
  more = refl;
}

last-IsData : IsData last
unfolding even_check even_loop
last-IsData = record { size = refl; short = omega arith; even = refl }

wire-IsFinite : IsFinite wire length
wire-IsFinite = record {
  read_le = λ fd n w. omega (arith, length-drop n w);
  read_some = λ fd n w bs e.
      let same = ap {B = ℕ} (λ o. elim o [ none ↦ 0 | some t ↦ length t ]) e in
      omega (arith, same, ap length (take-append-drop n w), length-append (take n w) (drop n w));
  malloc_le = λ n w. omega arith;
}

all_data_fits :
    length (fragment_data first) + length (all_data (middle ∷ [])) + length (fragment_data last)
    ≤ 256
unfolding all_data
all_data_fits = omega arith

process_one_response-reassembles_example :
    Returns
      (λ u n.
        Complete 2
          (get_or first 15 0)
          (fragment_data first ++ all_data (middle ∷ []) ++ fragment_data last)
          n.transfer)
      (receive wire (first ∷ ((middle ∷ []) ++ (last ∷ []))) machine)
process_one_response-reassembles_example =
    process_one_response-reassembles wire first (middle ∷ []) last command [] machine refl
      first-IsData refl (middle-IsMiddle, tt) last-IsData refl all_data_fits refl

process_one_response-type_example :
    Returns
      (λ ret n. n.transfer.response.type ≡ parity (take 15 first))
      (process_one_response wire first machine)
process_one_response-type_example =
    process_one_response-type wire first machine refl first-IsData refl

process_one_response-discards_example :
    process_one_response wire middle machine ≡ ok ret_fail machine
process_one_response-discards_example =
    process_one_response-discards wire middle machine refl
      (inr (inr (refl, ((λ e. ground arith), inl (λ e. ground arith)))))

process_one_response-corrupted_example :
    process_one_response wire
      ((42 ∷ 1 ∷ 2 ∷ 3 ∷ 4 ∷ 19 ∷ 1 ∷ []) ++ (99 ∷ 3 ∷ 4 ∷ 5 ∷ 6 ∷ 7 ∷ 8 ∷ 9 ∷ 60 ∷ []))
      machine
    ≡ ok ret_fail machine
process_one_response-corrupted_example =
    process_one_response-corrupted wire (42 ∷ 1 ∷ 2 ∷ 3 ∷ 4 ∷ 19 ∷ 1 ∷ [])
      (3 ∷ 4 ∷ 5 ∷ 6 ∷ 7 ∷ 8 ∷ 9 ∷ 60 ∷ []) 2 99 machine refl middle-IsMiddle.is_data.even
      (λ e. ground arith)

process_one_response-IsBounded_example :
    Settles
      (λ ret n. IsBounded n.transfer)
      (Damages first machine.transfer)
      (process_one_response wire first machine)
process_one_response-IsBounded_example =
    process_one_response-IsBounded wire first machine refl
      (record { buffer = refl; len = omega arith; ports = refl })

packet_transfer_process-Ends_example :
    Settles
      (λ ret n.
        (ret ≡ ret_ok)
        × (n.transfer.uploader_socket ≡ none)
        × ((k : Machine Bytes) × Stops wire length wire-IsFinite
              (connected wire length wire-IsFinite 7 machine)
              k
            × (n.world ≡ wire.close 7 k.world)))
      (Faults wire length wire-IsFinite (connected wire length wire-IsFinite 7 machine))
      (packet_transfer_process wire 16 (some 7) machine)
packet_transfer_process-Ends_example =
    packet_transfer_process-Ends wire length wire-IsFinite 16 7 machine (omega arith)

packet_transfer_reset-keeps_commands_example :
    packet_transfer_reset wire 1 machine
    ≡ ok ret_ok (record {
      transfer = with_socket none (with_response response_zero out_packet machine.transfer);
      world = machine.world;
    })
packet_transfer_reset-keeps_commands_example = packet_transfer_reset-keeps_commands wire 0 machine (
  omega arith,
  (
    omega arith,
    (omega arith, (omega arith, (omega arith, (omega arith, (omega arith, (omega arith, tt)))))),
  ),
)

packet_transfer_reset-never_returns_example : packet_transfer_reset wire 100 busy ≢ ok ret_ok busy
packet_transfer_reset-never_returns_example =
    packet_transfer_reset-never_returns wire 100 0 (command ∷ []) ret_ok busy busy refl
      (omega arith)

abbrev arrived_packet : Bytes
arrived_packet = 3 ∷ 0 ∷ 0 ∷ 0 ∷ 0 ∷ 0 ∷ 0 ∷ 0 ∷ 0 ∷ 0 ∷ 0 ∷ 0x33 ∷ 0 ∷ []

abbrev joined : Machine Bytes
joined = record { transfer = with_socket (some 7) machine.transfer; world = machine.world }

joined-Arrives :
    Arrives wire 7 0 13 (replicate 54 0) arrived_packet joined joined.world arrived_packet []
joined-Arrives = record {
  socket = refl;
  allocated = refl;
  header = refl;
  packet = refl;
  block_size = refl;
  nonempty = omega arith;
  fits = omega arith;
}

process_one_command-appends_example :
    process_one_command wire joined
    ≡ ok ret_ok (record {
      transfer =
          with_commands
            (set joined.transfer.command_set 2
              ((command ∷ []) ++ (stored 2 0x33 13 arrived_packet (replicate 54 0) ∷ [])))
            joined.transfer;
      world = [];
    })
process_one_command-appends_example =
    process_one_command-appends wire (replicate 10 0) (0 ∷ []) (replicate 12 0) (command ∷ [])
      joined-Arrives (omega arith) refl (λ e. ground arith) refl refl

-- The packet of a command for the port 0
abbrev port_zero_packet : Bytes
port_zero_packet = 0 ∷ 0 ∷ 0 ∷ 0 ∷ 0 ∷ 0 ∷ 0 ∷ 0 ∷ 0 ∷ 0 ∷ 0 ∷ 0x33 ∷ 0 ∷ []

abbrev port_zero : Machine Bytes
port_zero = record { transfer = joined.transfer; world = 0 ∷ 13 ∷ port_zero_packet }

port_zero-Arrives :
    Arrives wire 7 0 13
      (replicate 54 0)
      port_zero_packet
      port_zero
      port_zero.world
      port_zero_packet
      []
port_zero-Arrives = record {
  socket = refl;
  allocated = refl;
  header = refl;
  packet = refl;
  block_size = refl;
  nonempty = omega arith;
  fits = omega arith;
}

process_one_command-port_zero_example : process_one_command wire port_zero ≡ fault
process_one_command-port_zero_example =
    process_one_command-port_zero wire (replicate 10 0) (0 ∷ []) port_zero-Arrives refl
      (λ e. ground arith) refl

handle_response-faults_example : handle_response wire machine ≡ fault
handle_response-faults_example = handle_response-faults wire machine refl

-- A response to the command 0x33
abbrev answering : Machine Bytes
answering = record {
  transfer =
      with_response
        (record {
          port_id = 2;
          type = 0x13;
          time_stamp = [];
          node_packet_len = 0;
          node_packet = [];
          is_finished = true;
        })
        out_packet
        (transfer
          ([] ∷ [] ∷ (other_command ∷ command ∷ command ∷ []) ∷ [] ∷ [] ∷ [] ∷ [] ∷ [] ∷ []));
  world = [];
}

handle_response-answered_example :
    (left : List Command) × IsTakenOut 0x33 (other_command ∷ command ∷ command ∷ []) left
    × (handle_response wire answering
        ≡ ok tt (record {
          transfer = with_commands (set answering.transfer.command_set 2 left) answering.transfer;
          world = [];
        }))
handle_response-answered_example =
    handle_response-answered wire answering other_command (command ∷ command ∷ []) refl

abbrev answer : Response
answer = record {
  port_id = 2;
  type = 0x13;
  time_stamp = replicate 4 1;
  node_packet_len = 20;
  node_packet = replicate 256 7;
  is_finished = true;
}
