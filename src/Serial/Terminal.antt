-- ===== src/Serial/Terminal.antt =====
-- module/serial/main.c: a terminal on a serial line.
use wsn_test_platform.Shared.{
  ℕ, zero, suc, Bool, true, false, Option, none, some, List, [], ◌∷◌, ok, fault, out_of_fuel, Cmd,
  pure, ◌>>=◌, ◌>>◌, ltb, ◌==◌, if◌then◌else◌, length,
}
use wsn_test_platform.Protocol.{Bytes}
use wsn_test_platform.Serial.{
  Tty, Status, serial_open_device, serial_set_raw_mode, serial_set_speed, serial_set_parity,
}

abbrev pub baud_rate : ℕ
baud_rate = 9600

abbrev pub data_bits : ℕ
data_bits = 8

abbrev pub stop_bits : ℕ
stop_bits = 1

abbrev pub parity_type : ℕ
parity_type = b'N'

abbrev pub buf_size : ℕ
buf_size = 1024

-- `select`: it was interrupted, it failed, or it says whether the keyboard and the line are ready.
pub data Selected : Type 0 where
  interrupted failed : Selected
  ready : (keyboard line : Bool) → Selected

-- What `main` calls besides
pub record Console (W : Type 0) : Type 0 where
  pub select : Option ℕ → W → Selected × W
  -- a line of at most `buf_size - 1` bytes; `none` is NULL
  pub fgets : W → Option Bytes × W
  pub write : Option ℕ → Bytes → W → W
  -- at most `buf_size` bytes; `none` is -1
  pub read : Option ℕ → W → Option Bytes × W
  pub print : Bytes → W → W
  pub close : Option ℕ → W → W

-- The text up to its first NUL
unfoldable pub c_string : Bytes → Bytes
c_string [] = []
c_string (c ∷ cs) = if c == 0 then [] else c ∷ c_string cs

module _ {W : Type 0} (tty : Tty W) where
  -- The settings of the line. No answer is looked at.
  unfoldable pub setup : Option ℕ → Cmd W Status
  unfolding serial_set_raw_mode serial_set_speed serial_set_parity
  setup fd = do
    serial_set_raw_mode tty fd
    serial_set_speed tty fd baud_rate
    serial_set_parity tty fd data_bits parity_type stop_bits

module _ {W : Type 0} (console : Console W) where
  -- `while ((nread = read(fd, read_buf, BUF_SIZE)) > 0)`: `read_buf[nread]` must lie in the buffer.
  unfoldable pub read_loop : ℕ → Option ℕ → Cmd W (Unit {0})
  unfolding c_string
  read_loop zero fd w = out_of_fuel
  read_loop (suc k) fd w =
      elim (console.read fd w).0 as (λ r. Cmd W (Unit {0})) [
        | none ↦ pure tt
        | some [] ↦ pure tt
        | some (b ∷ bs) ↦ λ t. elim (ltb (length (b ∷ bs)) buf_size) [
          | true ↦ read_loop k fd (console.print (c_string (b ∷ bs)) t)
          | false ↦ fault
        ]
      ]
        (console.read fd w).1

  -- What a round does with the line, if it is ready
  abbrev pub from_line : ℕ → Option ℕ → Bool → Cmd W (Unit {0})
  from_line k fd line = if line then read_loop k fd else pure tt

  -- `for (;;)`: the exit status, 1 after a failed `select`, 0 at the end of the keyboard's input
  unfoldable pub main_loop : ℕ → Option ℕ → Cmd W ℕ
  unfolding read_loop
  main_loop zero fd w = out_of_fuel
  main_loop (suc k) fd w =
      elim (console.select fd w).0 as (λ r. Cmd W ℕ) [
        | interrupted ↦ main_loop k fd
        | failed ↦ pure 1
        | ready false line ↦ from_line k fd line >> main_loop k fd
        | ready true line ↦ λ t.
            elim (console.fgets t).0 as (λ r. Cmd W ℕ) [
              | none ↦ λ u. ok 0 (console.close fd u)
              | some typed ↦
                  λ u. (from_line k fd line >> main_loop k fd) (console.write fd (c_string typed) u)
            ]
              (console.fgets t).1
      ]
        (console.select fd w).1

module _ {W : Type 0} (tty : Tty W) (console : Console W) where
  -- `main`, by its arguments after the program's name; the fuel bounds the rounds of its loops.
  unfoldable pub serial_main : ℕ → List Bytes → Cmd W ℕ
  unfolding setup main_loop serial_open_device
  serial_main k (serial_name ∷ []) = do
    fd ← serial_open_device tty serial_name
    elim fd [ none ↦ pure 1 | some n ↦ (do setup tty (some n); main_loop console k (some n)) ]
  serial_main k [] = pure 1
  serial_main k (a ∷ b ∷ rest) = pure 1
