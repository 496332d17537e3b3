-- ===== src/TelnetCommander.antt =====
-- deployer/telnet_commander.c: the client of the telnet servers on the boards. libtelnet and the
-- socket calls are parameters; a call of libtelnet gives the events that it passes to the handler, in
-- their order. The process may exit on the way, which is the value `none`.
-- The object is not NULL, as at every call; a text that is NULL is `none`.
pub mod Matching
pub mod Waiting
mod Tests
use wsn_test_platform.Shared.{
  given, ℕ, zero, suc, ◌+◌, ◌-◌, Bool, true, false, not, Option, none, some, List, [], ◌∷◌, ◌++◌,
  Ret, ret_ok, ret_invalid_params, ret_fail, Run, ok, fault, out_of_fuel, Cmd, pure, and_then,
  ◌>>=◌, ◌>>◌, ◌==◌, ltb, leb, if◌then◌else◌, drop, length,
}
use wsn_test_platform.Protocol.{Bytes}
use wsn_test_platform.HexParser.Scan.{c_string}
use Matching.{match_list}

abbrev pub telnet_port : ℕ
telnet_port = 23

abbrev pub recv_buffer_size : ℕ
recv_buffer_size = 1024

abbrev pub crlf : Bytes
crlf = 13 ∷ 10 ∷ []

-- "]#"
abbrev pub prompt : Bytes
prompt = b']' ∷ b'#' ∷ []

-- "login:"
abbrev pub login : Bytes
login = b'l' ∷ b'o' ∷ b'g' ∷ b'i' ∷ b'n' ∷ b':' ∷ []

-- "password:"
abbrev pub password_text : Bytes
password_text = b'p' ∷ b'a' ∷ b's' ∷ b's' ∷ b'w' ∷ b'o' ∷ b'r' ∷ b'd' ∷ b':' ∷ []

-- "incorrect"
abbrev pub login_fail : Bytes
login_fail = b'i' ∷ b'n' ∷ b'c' ∷ b'o' ∷ b'r' ∷ b'r' ∷ b'e' ∷ b'c' ∷ b't' ∷ []

-- A request for the terminal's type is `ev_ttype true`; the negotiations and the other events carry
-- nothing that the handler reads.
pub data TelnetEvent : Type 0 where
  ev_data : TelnetEvent
  ev_send : Bytes → TelnetEvent
  ev_negotiation : TelnetEvent
  ev_ttype : Bool → TelnetEvent
  ev_subnegotiation : TelnetEvent
  ev_error : TelnetEvent
  ev_other : TelnetEvent

-- The calls of libtelnet, by the address of the object, and those of the system; NULL is `none`, and
-- so is a call that answers -1.
pub record TelnetSystem (W : Type 0) : Type 0 where
  pub telnet_init : W → Option ℕ × W
  pub telnet_free : ℕ → W → W
  pub telnet_recv : Option ℕ → Bytes → W → List TelnetEvent × W
  pub telnet_send : Option ℕ → Bytes → W → List TelnetEvent × W
  -- what the answer with the terminal's type sends
  pub telnet_ttype_is : Option ℕ → W → List Bytes × W
  pub socket : W → Option ℕ × W
  pub connect : ℕ → Bytes → ℕ → W → Bool × W
  -- the number of bytes that were sent
  pub send : Option ℕ → Bytes → W → Option ℕ × W
  pub recv : Option ℕ → ℕ → W → Option Bytes × W
  pub close : ℕ → W → W

pub record TelnetCommander : Type 0 where
  pub telnet : Option ℕ
  pub socket : Option ℕ

pub record Machine (W : Type 0) : Type 0 where
  pub thiz : TelnetCommander
  pub world : W

-- What goes on unless the process has exited
abbrev pub go_on : {S A B : Type 0} → Cmd S (Option A) → (A → Cmd S (Option B)) → Cmd S (Option B)
go_on first next = do result ← first; elim result [ none ↦ pure none | some a ↦ next a ]

abbrev pub answer : {S A : Type 0} → A → Cmd S (Option A)
answer a = pure (some a)

-- A pointer that may be NULL
abbrev pub argument : {S A : Type 0} → Option A → (A → Cmd S (Option Ret)) → Cmd S (Option Ret)
argument none use_it = pure (some ret_invalid_params)
argument (some a) use_it = use_it a

abbrev pub exit : {S A : Type 0} → Cmd S (Option A)
exit = pure none

-- `telnet_commander_create`, with what the block holds and whether there is one
unfoldable pub telnet_commander_create : TelnetCommander → Bool → Option TelnetCommander
telnet_commander_create block allocated =
    if allocated then some (record block { socket = none }) else none

module _ {W : Type 0} (sys : TelnetSystem W) where
  -- A step of the system alone
  abbrev pub call : {A : Type 0} → (W → A × W) → Cmd (Machine W) A
  call f m = ok (f m.world).0 (record { thiz = m.thiz; world = (f m.world).1 })

  abbrev pub get : Cmd (Machine W) TelnetCommander
  get m = ok m.thiz m

  abbrev pub put : TelnetCommander → Cmd (Machine W) (Unit {0})
  put t m = ok tt (record { thiz = t; world = m.world })

  -- The fuel bounds the calls of `send`; each takes a byte at least, or the process exits.
  unfoldable pub telnet_commander_send : ℕ → Bytes → Cmd (Machine W) (Option (Unit {0}))
  telnet_commander_send zero buffer = λ m. out_of_fuel
  telnet_commander_send (suc k) buffer = if length buffer == 0 then answer tt else (do
    t ← get
    sent ← call (sys.send t.socket buffer)
    elim sent [
      | none ↦ exit
      | some rs ↦ if rs == 0 then exit else telnet_commander_send k (drop rs buffer)
    ])

  -- The sendings of one answer; one more round than there are bytes is enough.
  unfoldable pub send_all : List Bytes → Cmd (Machine W) (Option (Unit {0}))
  unfolding telnet_commander_send
  send_all [] = answer tt
  send_all (buffer ∷ buffers) =
      go_on (telnet_commander_send (suc (length buffer)) buffer) (λ u. send_all buffers)

  unfoldable pub event_handler : TelnetEvent → Cmd (Machine W) (Option (Unit {0}))
  unfolding telnet_commander_send send_all
  event_handler ev_data = answer tt
  event_handler (ev_send buffer) = telnet_commander_send (suc (length buffer)) buffer
  event_handler ev_negotiation = answer tt
  event_handler (ev_ttype true) = do
    t ← get
    buffers ← call (sys.telnet_ttype_is t.telnet)
    send_all buffers
  event_handler (ev_ttype false) = answer tt
  event_handler ev_subnegotiation = answer tt
  event_handler ev_error = exit
  event_handler ev_other = answer tt

  unfoldable pub handle_events : List TelnetEvent → Cmd (Machine W) (Option (Unit {0}))
  unfolding event_handler
  handle_events [] = answer tt
  handle_events (event ∷ events) = go_on (event_handler event) (λ u. handle_events events)

  -- `telnet_send` with the handler's work
  unfoldable pub send_text : Bytes → Cmd (Machine W) (Option (Unit {0}))
  unfolding handle_events
  send_text text = do t ← get; events ← call (sys.telnet_send t.telnet text); handle_events events

  -- A block that fills the buffer leaves no room for the NUL.
  unfoldable pub take_block : Bytes → Cmd (Machine W) (Option (Unit {0}))
  unfolding handle_events
  take_block received =
      if ltb (length received) recv_buffer_size
      then (do t ← get; events ← call (sys.telnet_recv t.telnet received); handle_events events)
      else (λ m. fault)

  -- The text of the buffer, up to the NUL
  abbrev pub text_of : Bytes → Bytes
  text_of received = elim (c_string (received ++ (0 ∷ []))) [ none ↦ [] | some text ↦ text ]

  -- The answer, with the index of the match if it is RET_OK; the fuel bounds the blocks.
  unfoldable pub telnet_commander_recv_until_match :
      ℕ → List Bytes → Cmd (Machine W) (Option (Ret × Option ℕ))
  unfolding take_block
  telnet_commander_recv_until_match zero desire_list = λ m. out_of_fuel
  telnet_commander_recv_until_match (suc k) desire_list = do
    t ← get
    block ← call (sys.recv t.socket recv_buffer_size)
    elim block [
      | none ↦ answer (ret_fail, none)
      | some received ↦
          if length received == 0
          then answer (ret_fail, none)
          else go_on (take_block received) (λ u. elim (match_list (text_of received) desire_list) [
            | none ↦ telnet_commander_recv_until_match k desire_list
            | some index ↦ answer (ret_ok, some index)
          ])
    ]

  -- What follows a wait for one of the texts
  abbrev pub await :
      ℕ → List Bytes → (Option ℕ → Cmd (Machine W) (Option Ret)) → Cmd (Machine W) (Option Ret)
  await fuel desire_list next =
      go_on (telnet_commander_recv_until_match fuel desire_list)
        (λ result. elim result.0 [ ret_ok ↦ next result.1 | other ↦ answer ret_fail ])

  abbrev pub close_socket : Option ℕ → W → W
  close_socket none w = w
  close_socket (some fd) w = sys.close fd w

  abbrev pub free_telnet : Option ℕ → W → W
  free_telnet none w = w
  free_telnet (some address) w = sys.telnet_free address w

  unfoldable pub telnet_commander_close : Cmd (Machine W) Ret
  telnet_commander_close m = ok ret_ok (record {
    thiz = record { telnet = none; socket = none };
    world = free_telnet m.thiz.telnet (close_socket m.thiz.socket m.world);
  })

  abbrev pub fail : Cmd (Machine W) Ret
  fail = do telnet_commander_close; pure ret_fail

  unfoldable pub telnet_commander_connect : Option Bytes → Cmd (Machine W) Ret
  unfolding telnet_commander_close
  telnet_commander_connect address = given address (λ ip_address. do
    t ← get
    fd ← call sys.socket
    put (record t { socket = fd })
    elim fd [
      | none ↦ fail
      | some number ↦ do
        telnet ← call sys.telnet_init
        put (record { telnet = telnet; socket = some number })
        connected ← call (sys.connect number ip_address telnet_port)
        if connected then pure ret_ok else fail
    ])

  -- Behind the password: `match_index` is -1 from before, since the wait is not told to store it.
  unfoldable pub send_password : ℕ → Bytes → Cmd (Machine W) (Option Ret)
  unfolding telnet_commander_recv_until_match send_text
  send_password fuel password =
      if length password == 1
      then answer ret_fail
      else go_on (send_text password) (λ u. go_on (send_text crlf) (λ v.
        let match_index : Option ℕ = none in
        await fuel (login_fail ∷ prompt ∷ [])
          (λ ignored. elim match_index [ some zero ↦ answer ret_fail | other ↦ answer ret_ok ])))

  unfoldable pub telnet_commander_login :
      ℕ → Option Bytes → Option Bytes → Cmd (Machine W) (Option Ret)
  unfolding telnet_commander_recv_until_match send_text send_password
  telnet_commander_login fuel user secret = argument user (λ username. argument secret (λ password.
      await fuel (login ∷ []) (λ ignored. go_on (send_text username) (λ u.
        go_on (send_text crlf) (λ v. await fuel (password_text ∷ prompt ∷ []) (λ match_index.
          elim match_index [ some zero ↦ send_password fuel password | other ↦ answer ret_ok ]))))))

  unfoldable pub telnet_commander_send_one_line : ℕ → Option Bytes → Cmd (Machine W) (Option Ret)
  unfolding telnet_commander_recv_until_match send_text
  telnet_commander_send_one_line fuel line =
      argument line (λ input.
        go_on (send_text input) (λ u. await fuel (prompt ∷ []) (λ ignored. answer ret_ok)))
