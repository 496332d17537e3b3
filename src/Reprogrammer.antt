-- ===== src/Reprogrammer.antt =====
-- app/reprogrammer.c: the reprogramming of a node over a socket. A socket of -1 is `none`, and so is
-- the stream -1 that `reprogrammer_create` stores; a FILE pointer is used as a descriptor, by its
-- address, as in the source.
pub mod Session
mod Tests
use wsn_test_platform.Shared.{
  ℕ, zero, suc, ◌+◌, ◌-◌, ◌*◌, ◌%◌, ◌^◌, Bool, true, false, not, ◌&&◌, Option, none, some, [], ◌∷◌,
  Ret, ret_ok, ret_invalid_params, ret_fail, Run, ok, fault, out_of_fuel, Cmd, pure, and_then,
  ◌>>=◌, ◌>>◌, ◌==◌, ltb, leb, if◌then◌else◌, get_or, take, drop, length,
}
use wsn_test_platform.Protocol.{
  Bytes, reprog_cmd_header_len, reprog_cmd_node_id_index, reprog_cmd_prefix_str_index,
  reprog_cmd_hex_file_len_index, cmd_b_reprog_start_base,
}
use wsn_test_platform.Kernel.{System, Streams}
use wsn_test_platform.GatherBoard.{GatherBoard}
use wsn_test_platform.PacketTransfer.State.{memcpy_at}
use wsn_test_platform.HexParser.{HexLineDataCallBack, hex_parser_create, hex_parser_process_file}

abbrev pub recv_buf_size : ℕ
recv_buf_size = 4096

-- "program.hex"
abbrev pub hex_file_recv_path : Bytes
hex_file_recv_path = b'p' ∷ b'r' ∷ b'o' ∷ b'g' ∷ b'r' ∷ b'a' ∷ b'm' ∷ b'.' ∷ b'h' ∷ b'e' ∷ b'x' ∷ []

-- "PROGV3"
abbrev pub reprog_cmd_prefix_str : Bytes
reprog_cmd_prefix_str = b'P' ∷ b'R' ∷ b'O' ∷ b'G' ∷ b'V' ∷ b'3' ∷ []

pub data ReprogStatus : Type 0 where
  reprog_status_success reprog_status_recv_cmd_hex_failed reprog_status_init_baudrate_failed
        reprog_status_mass_erase_failed reprog_status_rx_password_failed
        reprog_status_tx_data_failed reprog_status_modify_baudrate_failed :
      ReprogStatus

pub record Reprogrammer : Type 0 where
  pub hex_fd : Option ℕ
  pub server_socket : Option ℕ
  pub gather_board : Option GatherBoard

-- The object at its address, and the system around it
pub record Machine (W : Type 0) : Type 0 where
  pub address : ℕ
  pub thiz : Reprogrammer
  pub world : W

-- The 32-bit number at `at`, its first byte on top
abbrev pub ntohl_at : ℕ → Bytes → ℕ
ntohl_at at bs =
    ((get_or bs at 0 * 256 + get_or bs (at + 1) 0) * 256 + get_or bs (at + 2) 0) * 256
    + get_or bs (at + 3) 0

-- The conversion to int; a negative length is 0, as no test tells them apart.
abbrev pub to_int : ℕ → ℕ
to_int n = if ltb n (2 ^ 31) then n else 0

abbrev pub same_bytes : Bytes → Bytes → Bool
same_bytes [] [] = true
same_bytes (x ∷ xs) (y ∷ ys) = x == y && same_bytes xs ys
same_bytes xs ys = false

-- The byte for the board, which the code computes and does not send yet.
abbrev pub reprog_start_byte : Bytes → ℕ
reprog_start_byte cmd_header =
    (cmd_b_reprog_start_base + get_or cmd_header reprog_cmd_node_id_index 0 + 255) % 256

-- `reprogrammer_create`, by whether there is memory
unfoldable pub reprogrammer_create : Option GatherBoard → Bool → Option Reprogrammer
reprogrammer_create gather_board allocated =
    if allocated
    then some (record { hex_fd = none; server_socket = none; gather_board = gather_board })
    else none

module _ {W : Type 0} (sys : System W) (files : Streams W) where
  abbrev pub put_hex_fd : Option ℕ → Cmd (Machine W) (Unit {0})
  put_hex_fd fd m = ok tt (record {
    address = m.address;
    thiz = record {
      hex_fd = fd;
      server_socket = m.thiz.server_socket;
      gather_board = m.thiz.gather_board;
    };
    world = m.world;
  })

  abbrev pub put_socket : Option ℕ → Cmd (Machine W) (Unit {0})
  put_socket socket m = ok tt (record {
    address = m.address;
    thiz = record {
      hex_fd = m.thiz.hex_fd;
      server_socket = socket;
      gather_board = m.thiz.gather_board;
    };
    world = m.world;
  })

  -- A step of the system alone
  abbrev pub call : {A : Type 0} → (W → A × W) → Cmd (Machine W) A
  call f m = ok (f m.world).0 (record { address = m.address; thiz = m.thiz; world = (f m.world).1 })

  abbrev pub close_fd : Option ℕ → W → Unit {0} × W
  close_fd none w = (tt, w)
  close_fd (some fd) w = (tt, sys.close fd w)

  unfoldable pub close_all : Cmd (Machine W) (Unit {0})
  close_all m =
      (do
        call (close_fd m.thiz.server_socket)
        put_socket none
        call (close_fd m.thiz.hex_fd)
        put_hex_fd none)
        m

  -- What is left of the world; NULL is `none`.
  unfoldable pub reprogrammer_destroy : Option Reprogrammer → W → W
  reprogrammer_destroy none w = w
  reprogrammer_destroy (some thiz) w = (close_fd thiz.hex_fd (close_fd thiz.server_socket w).1).1

  -- `return_val_if_fail(thiz != thiz, RET_INVALID_PARAMS)`, and then the rest
  abbrev pub unless_itself : Cmd (Machine W) Ret → Cmd (Machine W) Ret
  unless_itself next m =
      if not (not (m.address == m.address)) then ok ret_invalid_params m else next m

  unfoldable pub reprogrammer_node_program_setup : Cmd (Machine W) Ret
  reprogrammer_node_program_setup = unless_itself (pure ret_ok)

  unfoldable pub reprogrammer_node_program_end : Cmd (Machine W) Ret
  reprogrammer_node_program_end = unless_itself (pure ret_ok)

  -- The empty callback; it returns no value, so its answer is indeterminate.
  abbrev pub hex_line_data_cb : Ret → HexLineDataCallBack (Machine W)
  hex_line_data_cb indeterminate addr buf n m = (m, indeterminate)

  -- The arguments are what the code leaves indeterminate: whether there is memory, the callback's
  -- answer and the line buffer. A stream of -1 or NULL is no file.
  unfoldable pub reprogrammer_node_program_doing : Bool → Ret → Bytes → Cmd (Machine W) Ret
  unfolding hex_parser_create
  reprogrammer_node_program_doing memory indeterminate stale = unless_itself (λ m.
      elim (hex_parser_create (hex_line_data_cb indeterminate) memory) [
        | none ↦ ok ret_fail m
        | some hex_parser ↦
            (do
              hex_parser_process_file (some hex_parser)
                  (elim m.thiz.hex_fd [ none ↦ none | some fd ↦ some (files.contents fd m.world) ])
                  stale
              pure ret_ok)
              m
      ])

  -- `read` on the socket; on -1 it fails.
  abbrev pub read_socket : ℕ → Cmd (Machine W) (Option Bytes)
  read_socket n m = elim m.thiz.server_socket [
    | none ↦ ok none m
    | some fd ↦ call (sys.read fd n) m
  ]

  abbrev pub write_hex : Bytes → Cmd (Machine W) (Unit {0})
  write_hex bs m = elim m.thiz.hex_fd [
    | none ↦ ok tt m
    | some fd ↦ call (λ w. (tt, sys.write fd bs w)) m
  ]

  -- The loop of `reprogrammer_receive_hex_file`: each read asks for a whole buffer.
  unfoldable pub receive_loop : ℕ → ℕ → Cmd (Machine W) Ret
  receive_loop zero hex_file_len = λ m. out_of_fuel
  receive_loop (suc k) hex_file_len = if leb hex_file_len 0 then pure ret_ok else (do
    received ← read_socket recv_buf_size
    elim received [
      | none ↦ pure ret_fail
      | some recv_buf ↦
          if length recv_buf == 0
          then pure ret_fail
          else (do write_hex recv_buf; receive_loop k (hex_file_len - length recv_buf))
    ])

  -- A stream that cannot be opened is stored as NULL, which is not -1.
  unfoldable pub reprogrammer_receive_hex_file : ℕ → ℕ → Cmd (Machine W) Ret
  unfolding receive_loop
  reprogrammer_receive_hex_file fuel hex_file_len = do
    stream ← call (files.fopen hex_file_recv_path (b'w' ∷ b'+' ∷ []))
    put_hex_fd (some stream)
    if stream == 0 then pure ret_fail else receive_loop fuel hex_file_len

  -- The steps behind the header; the answers of the programming steps are not looked at.
  unfoldable pub reprogram : ℕ → Bool → Ret → Bytes → Bytes → Cmd (Machine W) ReprogStatus
  unfolding reprogrammer_receive_hex_file reprogrammer_node_program_setup
      reprogrammer_node_program_doing reprogrammer_node_program_end
  reprogram fuel memory indeterminate stale cmd_header =
      if not
        (same_bytes (take 6 (drop reprog_cmd_prefix_str_index cmd_header)) reprog_cmd_prefix_str)
      then pure reprog_status_recv_cmd_hex_failed
      else (do
        received ←
            reprogrammer_receive_hex_file fuel
              (to_int (ntohl_at reprog_cmd_hex_file_len_index cmd_header))
        elim received [
          | ret_ok ↦ (do
            reprogrammer_node_program_setup
            reprogrammer_node_program_doing memory indeterminate stale
            reprogrammer_node_program_end
            pure reprog_status_success)
          | other ↦ pure reprog_status_recv_cmd_hex_failed
        ])

  -- What is read lands in front of the stack's bytes.
  unfoldable pub reprog_command : ℕ → Bool → Ret → Bytes → Bytes → Cmd (Machine W) ReprogStatus
  unfolding reprogram
  reprog_command fuel memory indeterminate stale stack = do
    received ← read_socket reprog_cmd_header_len
    elim received [
      | none ↦ pure reprog_status_recv_cmd_hex_failed
      | some bs ↦ elim (memcpy_at 0 bs stack) [
        | none ↦ λ m. fault
        | some cmd_header ↦ reprogram fuel memory indeterminate stale cmd_header
      ]
    ]

  -- A NULL object is the second argument `false`. `stack` is what the header's eleven bytes hold
  -- before the read.
  unfoldable pub reprogrammer_process :
      ℕ → Bool → Option ℕ → Bool → Ret → Bytes → Bytes → Cmd (Machine W) Ret
  unfolding reprog_command close_all
  reprogrammer_process fuel false socket memory indeterminate stale stack = pure ret_invalid_params
  reprogrammer_process fuel true socket memory indeterminate stale stack = do
    put_socket socket
    reprog_state ← reprog_command fuel memory indeterminate stale stack
    close_all
    pure ret_ok
