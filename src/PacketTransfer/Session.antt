-- ===== src/PacketTransfer/Session.antt =====
-- The public operations of app/packet_transfer.c: create, destroy, process and reset.
use wsn_test_platform.Shared.{
  ℕ, zero, suc, ◌+◌, Bool, true, false, Option, none, some, List, [], ◌∷◌, Ret, ret_ok,
  ret_invalid_params, Run, ok, fault, out_of_fuel, Cmd, and_then, pure, ◌>>=◌, ◌>>◌, ltb,
  if◌then◌else◌, set, length, replicate,
}
use wsn_test_platform.Kernel.{System}
use wsn_test_platform.GatherBoard.{GatherBoard}
use wsn_test_platform.DList.Client.{delete_datum}
use wsn_test_platform.PacketTransfer.State.{
  PacketTransfer, Command, PacketState, Machine, get_transfer, put_transfer, response_zero,
  node_num,
}
use wsn_test_platform.PacketTransfer.Commands.{process_one_command}
use wsn_test_platform.PacketTransfer.Packets.{with_commands, with_response}

abbrev pub with_socket : Option ℕ → PacketTransfer → PacketTransfer
with_socket socket t = record {
  uploader_socket = socket;
  command_set = t.command_set;
  response = t.response;
  packet_state = t.packet_state;
  gather_board = t.gather_board;
}

abbrev pub is_ok : Ret → Bool
is_ok ret_ok = true
is_ok other = false

-- `packet_transfer_create` on a board and enough memory; the static variable has its value from
-- before.
unfoldable pub packet_transfer_create :
    Option GatherBoard → PacketState → Bool → Option PacketTransfer
packet_transfer_create none state memory = none
packet_transfer_create (some board) state false = none
packet_transfer_create (some board) state true = some (record {
  uploader_socket = none;
  command_set = replicate node_num [];
  response = response_zero;
  packet_state = state;
  gather_board = some board;
})

-- The deletions of one list in `packet_transfer_reset`: the test reads `i`, which the loop leaves as
-- it is, and the loop ends only where the test fails at once.
unfoldable pub reset_list : ℕ → ℕ → ℕ → ℕ → Cmd (List Command) (Unit {0})
reset_list zero i j size commands = out_of_fuel
reset_list (suc k) i j size commands =
    if ltb i size
    then elim (delete_datum j commands) [
      | none ↦ fault
      | some left ↦ reset_list k i (j + 1) size left
    ]
    else ok tt commands

-- One list's run, and then the others'
abbrev pub and_lists :
    Run (List Command) (Unit {0})
    → Run (Unit {0}) (List (List Command))
    → Run (Unit {0}) (List (List Command))
and_lists (ok u left) (ok lefts v) = ok (left ∷ lefts) tt
and_lists (ok u left) fault = fault
and_lists (ok u left) out_of_fuel = out_of_fuel
and_lists fault rest = fault
and_lists out_of_fuel rest = out_of_fuel

-- The loop over the lists; `i` counts them, and the fuel is for each inner loop.
unfoldable pub reset_lists : ℕ → ℕ → List (List Command) → Run (Unit {0}) (List (List Command))
unfolding reset_list
reset_lists fuel i [] = ok [] tt
reset_lists fuel i (commands ∷ set) =
    and_lists (reset_list fuel i 0 (length commands) commands) (reset_lists fuel (i + 1) set)

module _ {W : Type 0} (sys : System W) where
  -- `if (thiz->uploader_socket != -1) close(…)`, then the socket is -1
  abbrev pub close_socket : Cmd (Machine W) (Unit {0})
  close_socket m = ok tt (record {
    transfer = with_socket none m.transfer;
    world = elim m.transfer.uploader_socket [ none ↦ m.world | some fd ↦ sys.close fd m.world ];
  })

  -- The loop of `packet_transfer_process`
  unfoldable pub command_loop : ℕ → Cmd (Machine W) (Unit {0})
  command_loop zero m = out_of_fuel
  command_loop (suc k) m =
      and_then (process_one_command sys m)
        (λ ret n. if is_ok ret then command_loop k n else ok tt n)

  -- A socket of -1 is `none`; the fuel bounds the commands of one connection.
  unfoldable pub packet_transfer_process : ℕ → Option ℕ → Cmd (Machine W) Ret
  unfolding command_loop
  packet_transfer_process fuel none = pure ret_invalid_params
  packet_transfer_process fuel (some socket) = do
    t ← get_transfer
    put_transfer (with_socket (some socket) t)
    command_loop fuel
    close_socket
    pure ret_ok

  unfoldable pub packet_transfer_reset : ℕ → Cmd (Machine W) Ret
  unfolding reset_lists
  packet_transfer_reset fuel m = elim (reset_lists fuel 0 m.transfer.command_set) [
    | ok lists u ↦
        (do
          put_transfer
              (with_response response_zero m.transfer.packet_state (with_commands lists m.transfer))
          close_socket
          pure ret_ok)
          m
    | fault ↦ fault
    | out_of_fuel ↦ out_of_fuel
  ]

  -- `packet_transfer_destroy`: what is left of the world
  unfoldable pub packet_transfer_destroy : Option PacketTransfer → W → W
  packet_transfer_destroy none w = w
  packet_transfer_destroy (some t) w = elim t.uploader_socket [
    | none ↦ w
    | some fd ↦ sys.close fd w
  ]
