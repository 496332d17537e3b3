-- ===== src/Serial.antt =====
-- module/serial/serial.c: a serial line is opened and set, its attributes being those of `struct
-- termios`; and module/serial/main.c, which copies between the terminal and the line.
pub mod Settings
pub mod Refusals
pub mod Terminal
mod Tests
use wsn_test_platform.Shared.{
  ℕ, ◌-◌, Bool, true, false, Option, none, some, List, [], ◌∷◌, ok, Cmd, pure, ◌>>◌, leb, ◌==◌,
  if◌then◌else◌,
}
use wsn_test_platform.Protocol.{Bytes}

-- The size of a character: the field CSIZE of `c_cflag`
pub data CharSize : Type 0 where
  cs5 cs6 cs7 cs8 : CharSize

-- The flags of `c_cflag` that the source names, and all others as one number
pub record Cflag : Type 0 where
  pub csize : CharSize
  pub cstopb : Bool
  pub cread : Bool
  pub parenb : Bool
  pub parodd : Bool
  pub clocal : Bool
  pub crtscts : Bool
  pub other_cflag : ℕ

-- The flags of `c_iflag`
pub record Iflag : Type 0 where
  pub ignbrk : Bool
  pub inpck : Bool
  pub ixon : Bool
  pub ixoff : Bool
  pub ixany : Bool
  pub other_iflag : ℕ

-- The speeds of the table
pub data Baud : Type 0 where
  b9600 b19200 b38400 b57600 b115200 : Baud

-- A speed that is not of the table is `none`.
pub record Termios : Type 0 where
  pub c_cflag : Cflag
  pub c_iflag : Iflag
  pub c_lflag : ℕ
  pub c_oflag : ℕ
  pub vmin : ℕ
  pub vtime : ℕ
  pub ispeed : Option Baud
  pub ospeed : Option Baud

-- What the module calls; a descriptor of -1 is `none`.
pub record Tty (W : Type 0) : Type 0 where
  -- with O_RDWR | O_NOCTTY
  pub open_device : Bytes → W → Option ℕ × W
  pub isatty : Option ℕ → W → Bool
  -- `none` if the call fails
  pub tcgetattr : Option ℕ → W → Option Termios
  -- at once; whether it succeeds
  pub tcsetattr : Option ℕ → Termios → W → Bool × W
  -- both queues
  pub tcflush : Option ℕ → W → W

abbrev pub serial_read_vmin : ℕ
serial_read_vmin = 0

abbrev pub serial_read_vtime : ℕ
serial_read_vtime = 20

-- The answers 0 and -1
pub data Status : Type 0 where
  zero_status minus_one : Status

-- The two tables, `name_array` and `speed_array`
unfoldable pub speeds : List (ℕ × Baud)
speeds =
    (9600, b9600) ∷ (19200, b19200) ∷ (38400, b38400) ∷ (57600, b57600) ∷ (115200, b115200) ∷ []

abbrev pub raw_cflag : Cflag → Cflag
raw_cflag f = record f { crtscts = false; clocal = true; cread = true }

abbrev pub raw_iflag : Iflag
raw_iflag = record {
  ignbrk = true;
  inpck = false;
  ixon = false;
  ixoff = false;
  ixany = false;
  other_iflag = 0;
}

unfoldable pub raw : Termios → Termios
raw options = record options {
  c_lflag = 0;
  c_iflag = raw_iflag;
  c_oflag = 0;
  c_cflag = raw_cflag options.c_cflag;
  vmin = serial_read_vmin;
  vtime = serial_read_vtime;
}

-- `switch (data_bits)`
abbrev pub char_size : ℕ → Option CharSize
char_size data_bits = if data_bits == 7 then some cs7 else if data_bits == 8 then some cs8 else none

-- `toupper` of the C locale
abbrev pub toupper : ℕ → ℕ
toupper c = if leb b'a' c then (if leb c b'z' then c - 32 else c) else c

-- `switch (toupper(parity_type))`: what becomes of the two flag words
unfoldable pub set_parity_flags : ℕ → Cflag → Iflag → Option (Cflag × Iflag)
set_parity_flags parity_type cflag iflag =
    let kind = toupper parity_type in
    if kind == b'N'
    then some (record cflag { parenb = false }, record iflag { inpck = false })
    else if kind == b'E'
    then some (record cflag { parenb = true; parodd = false }, record iflag { inpck = true })
    else if kind == b'O'
    then some (record cflag { parenb = true; parodd = true }, record iflag { inpck = true })
    else if kind == b'S'
    then some (record cflag { parenb = false }, record iflag { inpck = true })
    else none

-- `switch (stop_bits)`
abbrev pub stop_flag : ℕ → Option Bool
stop_flag stop_bits =
    if stop_bits == 1 then some false else if stop_bits == 2 then some true else none

module _ {W : Type 0} (tty : Tty W) where
  abbrev pub flush : Option ℕ → Cmd W (Unit {0})
  flush fd w = ok tt (tty.tcflush fd w)

  -- `tcsetattr`, and -1 if it fails
  unfoldable pub set_attributes : Option ℕ → Termios → Cmd W Status → Cmd W Status
  set_attributes fd options next w =
      if (tty.tcsetattr fd options w).0
      then next (tty.tcsetattr fd options w).1
      else ok minus_one (tty.tcsetattr fd options w).1

  -- The tests that every function begins with: -1 unless `fd` is a terminal that tells its attributes
  abbrev pub with_attributes : Option ℕ → (Termios → Cmd W Status) → Cmd W Status
  with_attributes fd use_it w =
      if tty.isatty fd w
      then (elim (tty.tcgetattr fd w) as (λ o. Cmd W Status) [
        | none ↦ pure minus_one
        | some options ↦ use_it options
      ])
          w
      else ok minus_one w

  unfoldable pub serial_open_device : Bytes → Cmd W (Option ℕ)
  serial_open_device dev_name w = ok (tty.open_device dev_name w).0 (tty.open_device dev_name w).1

  unfoldable pub serial_set_raw_mode : Option ℕ → Cmd W Status
  unfolding set_attributes raw
  serial_set_raw_mode fd =
      with_attributes fd λ options. flush fd >> set_attributes fd (raw options) (pure zero_status)

  -- The loop over the tables, from one of their places on
  unfoldable pub speed_loop : List (ℕ × Baud) → Option ℕ → ℕ → Termios → Cmd W Status
  unfolding set_attributes
  speed_loop [] fd speed options = pure zero_status
  speed_loop ((name, baud) ∷ rest) fd speed options = elim (speed == name) [
    | true ↦
        flush fd
        >> set_attributes fd (record options { ispeed = some baud; ospeed = some baud })
            (flush fd >> pure zero_status)
    | false ↦ speed_loop rest fd speed options
  ]

  unfoldable pub serial_set_speed : Option ℕ → ℕ → Cmd W Status
  unfolding speed_loop speeds
  serial_set_speed fd speed = with_attributes fd λ options. speed_loop speeds fd speed options

  unfoldable pub serial_set_parity : Option ℕ → ℕ → ℕ → ℕ → Cmd W Status
  unfolding set_attributes set_parity_flags
  serial_set_parity fd data_bits parity_type stop_bits = with_attributes fd λ options.
      elim (char_size data_bits) [
        | none ↦ pure minus_one
        | some size ↦
            elim (set_parity_flags parity_type (record options.c_cflag { csize = size })
              options.c_iflag) [
                | none ↦ pure minus_one
                | some (cflag, iflag) ↦ elim (stop_flag stop_bits) [
                  | none ↦ pure minus_one
                  | some two ↦
                      flush fd
                      >> set_attributes fd
                          (record options {
                            c_cflag = record cflag { cstopb = two };
                            c_iflag = iflag;
                          })
                          (pure zero_status)
                ]
              ]
      ]
