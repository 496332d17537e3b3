-- ===== src/Server.antt =====
-- app/main.c: the server's loop over its two ports. The socket calls are a parameter; a call that
-- answers -1 is `none` or false.
use wsn_test_platform.Shared.{
  ℕ, zero, suc, Bool, true, false, not, Option, none, some, Ret, Run, ok, fault, out_of_fuel, Cmd,
  pure, ◌>>=◌, ◌>>◌, if◌then◌else◌,
}
use wsn_test_platform.Protocol.{Bytes}
use wsn_test_platform.Kernel.{System, Streams}
use wsn_test_platform.GatherBoard.{GatherBoard}
use wsn_test_platform.PacketTransfer.State.{PacketTransfer, PacketState}
use wsn_test_platform.PacketTransfer.Session.{packet_transfer_create, packet_transfer_process}
use wsn_test_platform.Reprogrammer.{
  Reprogrammer, reprogrammer_create, reprogrammer_destroy, reprogrammer_process,
}

abbrev pub backlog : ℕ
backlog = 5

abbrev pub cmd_data_port : ℕ
cmd_data_port = 9160

abbrev pub reprogram_port : ℕ
reprogram_port = 9163

pub record Listener (W : Type 0) : Type 0 where
  pub socket : W → Option ℕ × W
  pub setsockopt : ℕ → W → Bool × W
  pub bind : ℕ → ℕ → W → Bool × W
  pub listen : ℕ → ℕ → W → Bool × W
  -- whether a client waits at the first and at the second socket
  pub select : ℕ → ℕ → W → Option (Bool × Bool) × W
  pub accept : ℕ → W → Option ℕ × W

-- The objects and the system; `address` is where the reprogrammer's object is.
pub record Server (W : Type 0) : Type 0 where
  pub packet_transfer : PacketTransfer
  pub address : ℕ
  pub reprogrammer : Reprogrammer
  pub world : W

-- What the code leaves indeterminate for the reprogrammer: whether there is memory, the callback's
-- answer, its line buffer and the header's bytes
pub record Indeterminate : Type 0 where
  pub memory : Bool
  pub answer : Ret
  pub line_buf : Bytes
  pub cmd_header : Bytes

module _ {W : Type 0} (sys : System W) (files : Streams W) (net : Listener W) where
  -- A socket that fails on the way is not closed.
  unfoldable pub init_server_listen_at : ℕ → W → Option ℕ × W
  init_server_listen_at port w = elim (net.socket w).0 [
    | none ↦ (none, (net.socket w).1)
    | some sock ↦
        let configured = net.setsockopt sock (net.socket w).1 in
        let bound = net.bind sock port configured.1 in
        let listening = net.listen sock backlog bound.1 in
        if not configured.0
        then (none, configured.1)
        else if not bound.0
        then (none, bound.1)
        else if not listening.0
        then (none, listening.1)
        else (some sock, listening.1)
  ]

  abbrev pub call : {A : Type 0} → (W → A × W) → Cmd (Server W) A
  call f s = ok (f s.world).0 (record s { world = (f s.world).1 })

  -- `packet_transfer_process` on the server's object
  unfoldable pub serve_command_data : ℕ → ℕ → Cmd (Server W) Ret
  serve_command_data fuel connect_socket s =
      elim (packet_transfer_process sys fuel (some connect_socket)
        (record { transfer = s.packet_transfer; world = s.world })) [
          | ok ret m ↦ ok ret (record s { packet_transfer = m.transfer; world = m.world })
          | fault ↦ fault
          | out_of_fuel ↦ out_of_fuel
        ]

  -- `reprogrammer_process` on the server's object
  unfoldable pub serve_reprogram : ℕ → Indeterminate → ℕ → Cmd (Server W) Ret
  serve_reprogram fuel rest connect_socket s =
      elim (reprogrammer_process sys files fuel true (some connect_socket) rest.memory rest.answer
        rest.line_buf rest.cmd_header
        (record { address = s.address; thiz = s.reprogrammer; world = s.world })) [
          | ok ret m ↦ ok ret (record s { reprogrammer = m.thiz; world = m.world })
          | fault ↦ fault
          | out_of_fuel ↦ out_of_fuel
        ]

  -- A client at the first port comes before one at the second. The loop is left when `select` or
  -- `accept` fails; `k` bounds its rounds and `fuel` the work in each.
  unfoldable pub server_loop : ℕ → ℕ → Indeterminate → ℕ → ℕ → Cmd (Server W) (Unit {0})
  unfolding serve_command_data serve_reprogram
  server_loop zero fuel rest cmd_data_socket reprogram_socket = λ s. out_of_fuel
  server_loop (suc k) fuel rest cmd_data_socket reprogram_socket = do
    ready ← call (net.select cmd_data_socket reprogram_socket)
    elim ready [
      | none ↦ pure tt
      | some (true, second) ↦ do
        accepted ← call (net.accept cmd_data_socket)
        elim accepted [
          | none ↦ pure tt
          | some connect_socket ↦ do
            serve_command_data fuel connect_socket
            server_loop k fuel rest cmd_data_socket reprogram_socket
        ]
      | some (false, true) ↦ do
        accepted ← call (net.accept reprogram_socket)
        elim accepted [
          | none ↦ pure tt
          | some connect_socket ↦ do
            serve_reprogram fuel rest connect_socket
            server_loop k fuel rest cmd_data_socket reprogram_socket
        ]
      | some (false, false) ↦ server_loop k fuel rest cmd_data_socket reprogram_socket
    ]

  abbrev pub close_listener : Option ℕ → W → W
  close_listener none w = w
  close_listener (some fd) w = sys.close fd w

  -- `exit:` up to the board's release, which reads through the pointer 1 that `main` has stored for
  -- the board
  unfoldable pub leave : Option ℕ → Option ℕ → Option Reprogrammer → W → Run W ℕ
  leave cmd_data_socket reprogram_socket reprogrammer w =
      let released =
        reprogrammer_destroy sys files reprogrammer
          (close_listener reprogram_socket (close_listener cmd_data_socket w)) in
      let gather_board_destroy_at_one : W → Run W ℕ = λ world. fault in
      gather_board_destroy_at_one released

  -- `main` behind the creation of both objects
  unfoldable pub run_server : ℕ → ℕ → Indeterminate → Server W → Run W ℕ
  unfolding init_server_listen_at server_loop leave
  run_server rounds fuel rest s =
      let first = init_server_listen_at cmd_data_port s.world in
      let second = init_server_listen_at reprogram_port first.1 in
      elim first.0 [
        | none ↦ leave none none (some s.reprogrammer) first.1
        | some cmd_data_socket ↦ elim second.0 [
          | none ↦ leave (some cmd_data_socket) none (some s.reprogrammer) second.1
          | some reprogram_socket ↦
              elim (server_loop rounds fuel rest cmd_data_socket reprogram_socket
                (record s { world = second.1 })) [
                  | ok u left ↦
                      leave (some cmd_data_socket) (some reprogram_socket) (some left.reprogrammer)
                        left.world
                  | fault ↦ fault
                  | out_of_fuel ↦ out_of_fuel
                ]
        ]
      ]

  -- `board` is what the code takes to be at the address 1, and the Booleans say whether there is
  -- memory for the two objects.
  unfoldable pub main :
      ℕ → ℕ → Indeterminate → GatherBoard → PacketState → ℕ → Bool → Bool → W → Run W ℕ
  unfolding leave run_server
  main rounds fuel rest board state address first_memory second_memory w =
      elim (packet_transfer_create (some board) state first_memory) [
        | none ↦ leave none none none w
        | some packet_transfer ↦ elim (reprogrammer_create (some board) second_memory) [
          | none ↦ leave none none none w
          | some reprogrammer ↦ run_server rounds fuel rest (record {
            packet_transfer = packet_transfer;
            address = address;
            reprogrammer = reprogrammer;
            world = w;
          })
        ]
      ]
