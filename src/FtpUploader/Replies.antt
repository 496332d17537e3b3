-- ===== src/FtpUploader/Replies.antt =====
-- The parsers of deployer/ftp_uploader.c: the code of a reply, and the address of the passive mode.
use wsn_test_platform.Shared.{
  ℕ, ◌+◌, ◌-◌, ◌*◌, ◌^◌, Bool, true, false, ◌&&◌, Option, none, some, [], ◌∷◌, ◌++◌, Ret, ret_ok,
  ret_oom, Run, ok, fault, out_of_fuel, Cmd, ◌==◌, ltb, leb, if◌then◌else◌, length, take,
}
use wsn_test_platform.Protocol.{Bytes}
use wsn_test_platform.HexParser.Scan.{skip_space}

abbrev pub port_buffer_size : ℕ
port_buffer_size = 10

abbrev pub ip_max_length : ℕ
ip_max_length = 16

abbrev pub is_digit : ℕ → Bool
is_digit c = leb b'0' c && leb c b'9'

-- The digits in front, with the value before them
unfoldable pub digits : Bytes → ℕ → ℕ
digits [] value = value
digits (c ∷ s) value =
    let more = digits s (value * 10 + (c - b'0')) in if is_digit c then more else value

-- `atoi`: whether the number is negative, and its magnitude
unfoldable pub atoi : Bytes → Bool × ℕ
unfolding digits skip_space
atoi s = elim (skip_space s) [
  | [] ↦ (false, 0)
  | c ∷ rest ↦
      if c == b'-'
      then (true, digits rest 0)
      else if c == b'+'
      then (false, digits rest 0)
      else (false, digits (c ∷ rest) 0)
]

-- `ftp_uploader_parse_reply_code`: the code, a negative one as 0, as its hundreds are: it has two
-- digits at most. `none` is RET_FAIL.
unfoldable pub ftp_uploader_parse_reply_code : Bytes → Option ℕ
unfolding atoi
ftp_uploader_parse_reply_code string =
    if ltb (length string) 4
    then none
    else some (if (atoi (take 3 string)).0 then 0 else (atoi (take 3 string)).1)

pub data ParseState : Type 0 where
  parse_start ip_section port_section parse_end : ParseState

-- The variables of the parser: what has been written to the buffers, and the numbers, which have no
-- value at first.
pub record Passive : Type 0 where
  pub state : ParseState
  pub ip : Bytes
  pub port_buffer : Bytes
  pub p1 : Option ℕ
  pub p2 : Option ℕ
  pub delims_count : ℕ

abbrev pub passive_start : Passive
passive_start = record {
  state = parse_start;
  ip = [];
  port_buffer = [];
  p1 = none;
  p2 = none;
  delims_count = 0;
}

-- A character for the address; RET_OOM once the buffer is full
abbrev pub put_ip : ℕ → Passive → Ret × Passive
put_ip c p = (
  if length p.ip + 1 == ip_max_length then ret_oom else ret_ok,
  record p { ip = p.ip ++ (c ∷ []) },
)

abbrev pub put_port : ℕ → Passive → Ret × Passive
put_port c p = (
  if length p.port_buffer + 1 == port_buffer_size then ret_oom else ret_ok,
  record p { port_buffer = p.port_buffer ++ (c ∷ []) },
)

abbrev pub ip_char : ℕ → Passive → Ret × Passive
ip_char c p =
    if is_digit c
    then put_ip c p
    else if c == b','
    then (if ltb (p.delims_count + 1) 4
        then put_ip b'.' (record p { delims_count = p.delims_count + 1 })
        else (ret_ok, record p { delims_count = p.delims_count + 1; state = port_section }))
    else (ret_ok, p)

abbrev pub port_char : ℕ → Passive → Ret × Passive
port_char c p =
    if is_digit c
    then put_port c p
    else if c == b','
    then (ret_ok, record p { p1 = some (atoi p.port_buffer).1; port_buffer = [] })
    else if c == b')'
    then (
      ret_ok,
      record p { p2 = some (atoi p.port_buffer).1; port_buffer = []; state = parse_end },
    )
    else (ret_ok, p)

-- The `switch` over the state
unfoldable pub parse_char : ℕ → Passive → Ret × Passive
unfolding atoi
parse_char c p = elim p.state [
  | parse_start ↦ if c == b'(' then (ret_ok, record p { state = ip_section }) else (ret_ok, p)
  | ip_section ↦ ip_char c p
  | port_section ↦ port_char c p
  | parse_end ↦ (ret_ok, p)
]

abbrev pub is_end : ParseState → Bool
is_end parse_end = true
is_end other = false

-- The loop ends at a NUL behind the closing bracket; where the buffer has none, it is a fault.
unfoldable pub parse_loop : Bytes → Cmd Passive Ret
unfolding parse_char
parse_loop [] p = fault
parse_loop (c ∷ string) p =
    let more = parse_loop string (parse_char c p).1 in
    if c == 0 && is_end p.state
    then ok ret_ok p
    else elim (parse_char c p).0 as (λ x. Run Passive Ret) [ ret_ok ↦ more | other ↦ ok other p ]

-- The port; a sum of numbers without a value, or one that no int holds, is undefined.
unfoldable pub port_of : Option ℕ → Option ℕ → Option ℕ
port_of (some p1) (some p2) = if ltb (p1 * 256 + p2) (2 ^ 31) then some (p1 * 256 + p2) else none
port_of p1 p2 = none

-- The answer, with the address and the port if it is RET_OK
unfoldable pub ftp_uploader_parse_passive_port : Bytes → Run (Bytes × ℕ) Ret
unfolding parse_loop port_of
ftp_uploader_parse_passive_port string = elim (parse_loop string passive_start) [
  | ok ret_ok p ↦ (elim (port_of p.p1 p.p2) [ none ↦ fault | some port ↦ ok ret_ok (p.ip, port) ])
  | ok other p ↦ ok other ([], 0)
  | fault ↦ fault
  | out_of_fuel ↦ out_of_fuel
]
