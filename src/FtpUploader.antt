-- ===== src/FtpUploader.antt =====
-- deployer/ftp_uploader.c: the client of the FTP servers on the boards. The object is not NULL, as at
-- every call; a text that is NULL is `none`.
pub mod Replies
pub mod Steps
pub mod Address
pub mod Unclosed
mod Tests
use wsn_test_platform.Shared.{
  given, ℕ, zero, suc, ◌+◌, ◌-◌, ◌/◌, ◌%◌, Bool, true, false, not, ◌&&◌, Option, none, some, List,
  [], ◌∷◌, ◌++◌, Ret, ret_ok, ret_oom, ret_invalid_params, ret_fail, Run, ok, fault, out_of_fuel,
  Cmd, pure, and_then, ◌>>=◌, ◌>>◌, ◌==◌, ltb, leb, if◌then◌else◌, take, drop, length, replicate,
}
use wsn_test_platform.Protocol.{Bytes}
use wsn_test_platform.Kernel.{Net}
use wsn_test_platform.HexParser.Scan.{c_string}
use Replies.{ftp_uploader_parse_reply_code, ftp_uploader_parse_passive_port}

abbrev pub send_buffer_size : ℕ
send_buffer_size = 100

abbrev pub resp_buffer_size : ℕ
resp_buffer_size = 100

abbrev pub data_buffer_size : ℕ
data_buffer_size = 4096

abbrev pub command_end_size : ℕ
command_end_size = 10

abbrev pub password_max_length : ℕ
password_max_length = 100

abbrev pub user_name_max_length : ℕ
user_name_max_length = 32

abbrev pub ftp_command_port : ℕ
ftp_command_port = 21

pub record FtpUploader : Type 0 where
  pub command_socket : Option ℕ
  pub data_socket : Option ℕ
  pub is_connected : Bool
  pub is_transfered : Bool
  pub response : Bytes

pub record Machine (W : Type 0) : Type 0 where
  pub thiz : FtpUploader
  pub world : W

abbrev end_of_line : Bytes
end_of_line = 13 ∷ 10 ∷ []

-- "USER ", "PASS ", "STOR ", "TYPE I", "PASV", "QUIT"
abbrev pub user_command : Bytes
user_command = b'U' ∷ b'S' ∷ b'E' ∷ b'R' ∷ 32 ∷ []

abbrev pub pass_command : Bytes
pass_command = b'P' ∷ b'A' ∷ b'S' ∷ b'S' ∷ 32 ∷ []

abbrev pub stor_command : Bytes
stor_command = b'S' ∷ b'T' ∷ b'O' ∷ b'R' ∷ 32 ∷ []

abbrev pub type_command : Bytes
type_command = b'T' ∷ b'Y' ∷ b'P' ∷ b'E' ∷ 32 ∷ b'I' ∷ []

abbrev pub pasv_command : Bytes
pasv_command = b'P' ∷ b'A' ∷ b'S' ∷ b'V' ∷ []

abbrev pub quit_command : Bytes
quit_command = b'Q' ∷ b'U' ∷ b'I' ∷ b'T' ∷ []

-- `snprintf(send_buf, size, "… %s\r\n", …)`: the text, without what does not fit in front of the NUL
abbrev pub command_line : ℕ → Bytes → Bytes → Bytes
command_line size command argument = take (size - 1) (command ++ (argument ++ end_of_line))

-- The `switch` over the hundreds of the code
abbrev pub reply_ret : ℕ → Ret
reply_ret reply_code =
    if leb 1 (reply_code / 100) && leb (reply_code / 100) 3 then ret_ok else ret_fail

-- `ftp_uploader_create`, with what the block holds and whether there is one
unfoldable pub ftp_uploader_create : FtpUploader → Bool → Option FtpUploader
ftp_uploader_create block allocated =
    if allocated then some (record block { is_connected = false; is_transfered = false }) else none

module _ {W : Type 0} (net : Net W) where
  -- A step of the system alone
  abbrev pub call : {A : Type 0} → (W → A × W) → Cmd (Machine W) A
  call f m = ok (f m.world).0 (record { thiz = m.thiz; world = (f m.world).1 })

  abbrev pub update : (FtpUploader → FtpUploader) → Cmd (Machine W) (Unit {0})
  update f m = ok tt (record { thiz = f m.thiz; world = m.world })

  abbrev pub get : Cmd (Machine W) FtpUploader
  get m = ok m.thiz m

  -- What is done with a reply of at least one byte: one that fills the buffer leaves no room for the
  -- NUL.
  unfoldable pub take_response : Bytes → Cmd (Machine W) Ret
  take_response received m =
      let response = received ++ (0 ∷ drop (suc (length received)) m.thiz.response) in
      if leb resp_buffer_size (length received) then fault else elim (c_string response) [
        | none ↦ fault
        | some string ↦
            ok
              (elim (ftp_uploader_parse_reply_code string) [
                | none ↦ ret_fail
                | some code ↦ reply_ret code
              ])
              (record { thiz = record m.thiz { response = response }; world = m.world })
      ]

  unfoldable pub ftp_uploader_read_response : Cmd (Machine W) Ret
  unfolding take_response
  ftp_uploader_read_response = do
    t ← get
    received ← call (net.read t.command_socket resp_buffer_size)
    elim received [
      | none ↦ pure ret_fail
      | some bytes ↦ if length bytes == 0 then pure ret_fail else take_response bytes
    ]

  -- A command is written, whatever becomes of it, and its reply awaited; the rest follows a RET_OK.
  abbrev pub exchange : Bytes → Cmd (Machine W) Ret → Cmd (Machine W) Ret
  exchange line next = do
    t ← get
    call (net.write t.command_socket line)
    ret ← ftp_uploader_read_response
    elim ret [ ret_ok ↦ next | other ↦ pure ret_fail ]

  unfoldable pub ftp_uploader_connect : Option Bytes → Cmd (Machine W) Ret
  unfolding ftp_uploader_read_response
  ftp_uploader_connect address = given address (λ ip_address. do
    fd ← call net.socket
    update (λ t. record t { command_socket = fd })
    connected ← call (net.connect fd ip_address ftp_command_port)
    if not connected then pure ret_fail else (do
      update (λ t. record t { is_connected = true })
      ret ← ftp_uploader_read_response
      elim ret [ ret_ok ↦ pure ret_ok | other ↦ pure ret_fail ]))

  -- The last argument says whether there is memory for the send buffer.
  unfoldable pub ftp_uploader_login : Option Bytes → Option Bytes → Bool → Cmd (Machine W) Ret
  unfolding ftp_uploader_read_response
  ftp_uploader_login user secret memory = given user (λ user_name. given secret (λ password.
      let size =
        (if ltb (length password) (length user_name) then length user_name else length password)
        + command_end_size in
      if ltb user_name_max_length (length user_name)
      then pure ret_fail
      else if ltb password_max_length (length password)
      then pure ret_fail
      else if not memory
      then pure ret_fail
      else exchange (command_line size user_command user_name)
          (exchange (command_line size pass_command password) (pure ret_ok))))

  unfoldable pub ftp_uploader_set_binary_mode : Cmd (Machine W) Ret
  unfolding ftp_uploader_read_response
  ftp_uploader_set_binary_mode = exchange (type_command ++ end_of_line) (pure ret_ok)

  -- The loop over the file: it ends at the end of the file and at a write that fails. A read that
  -- fails goes to the socket as a length of -1.
  unfoldable pub send_loop : ℕ → Option ℕ → Cmd (Machine W) (Unit {0})
  send_loop zero upload_fd = λ m. out_of_fuel
  send_loop (suc k) upload_fd = do
    t ← get
    data_bytes ← call (net.read upload_fd data_buffer_size)
    sent ← elim data_bytes [
      | none ↦ call (net.write_failed_read t.data_socket)
      | some [] ↦ pure false
      | some (b ∷ bs) ↦ call (net.write t.data_socket (b ∷ bs))
    ]
    if sent then send_loop k upload_fd else pure tt

  -- From the connection to the data port on
  unfoldable pub transfer_file : ℕ → Option ℕ → Bytes → Bytes × ℕ → Cmd (Machine W) Ret
  unfolding ftp_uploader_read_response send_loop
  transfer_file fuel upload_fd file_name (ip_address, port) = do
    fd ← call net.socket
    update (λ t. record t { data_socket = fd })
    connected ← call (net.connect fd ip_address (port % 65536))
    if not connected then pure ret_fail else (do
      update (λ t. record t { is_transfered = true })
      exchange (command_line send_buffer_size stor_command file_name) (do
        send_loop fuel upload_fd
        call (λ w. (tt, net.close fd w))
        update (λ t. record t { is_transfered = false })
        ret ← ftp_uploader_read_response
        elim ret [ ret_ok ↦ pure ret_ok | other ↦ pure ret_fail ]))

  unfoldable pub ftp_uploader_put : ℕ → Option ℕ → Option Bytes → Cmd (Machine W) Ret
  unfolding ftp_uploader_read_response transfer_file
  ftp_uploader_put fuel upload_fd name = given name (λ file_name.
      exchange (pasv_command ++ end_of_line) (λ m.
        elim (ftp_uploader_parse_passive_port m.thiz.response) [
          | fault ↦ fault
          | out_of_fuel ↦ out_of_fuel
          | ok ret_ok address ↦ transfer_file fuel upload_fd file_name address m
          | ok other address ↦ ok other m
        ]))

  -- The sockets that `ftp_uploader_close` closes: an open transfer ends the connection's flag, and
  -- with it the closing of the command socket.
  unfoldable pub close_sockets : Machine W → Machine W
  close_sockets m =
      if m.thiz.is_transfered
      then record {
        thiz = record m.thiz { is_connected = false };
        world = net.close m.thiz.data_socket m.world;
      }
      else if m.thiz.is_connected
      then record {
        thiz = record m.thiz { is_connected = false };
        world = net.close m.thiz.command_socket m.world;
      }
      else m

  unfoldable pub ftp_uploader_close : Cmd (Machine W) Ret
  unfolding ftp_uploader_read_response close_sockets
  ftp_uploader_close = do
    t ← get
    call (net.write t.command_socket (quit_command ++ end_of_line))
    ftp_uploader_read_response
    (λ m. ok tt (close_sockets m))
    update (λ t. record t { response = replicate resp_buffer_size 0 })
    pure ret_ok
