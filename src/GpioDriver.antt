-- ===== src/GpioDriver.antt =====
-- drivers/gpio/oint_gpio.c: the Linux driver of the board's pins. The kernel's calls are a parameter;
-- an ioctl command is its four fields, which the kernel's macros pack into a number and read again.
pub mod Ioctl
mod Tests
use wsn_test_platform.Shared.{
  ℕ, zero, suc, ◌+◌, Bool, true, false, not, ◌&&◌, ◌||◌, Option, none, some, List, [], ◌∷◌, Run, ok,
  fault, Cmd, pure, ◌>>=◌, ◌>>◌, ◌==◌, ltb, leb, if◌then◌else◌, get_elem?,
}
use wsn_test_platform.GatherBoard.{led_off, curr_switch_off, fpga_reset_disable}

pub data Bank : Type 0 where
  gpe gpl gpm gpn gpq : Bank

-- `S3C64XX_GPE(1)` is `pin gpe 1`.
pub data Pin : Type 0 where
  pin : Bank → ℕ → Pin

abbrev pub oint_gpios : List Pin
oint_gpios =
    pin gpe 1
    ∷ pin gpe 3
    ∷ pin gpm 0
    ∷ pin gpm 2
    ∷ pin gpm 4
    ∷ pin gpq 1
    ∷ pin gpq 3
    ∷ pin gpq 5
    ∷ pin gpe 2
    ∷ pin gpe 4
    ∷ pin gpm 1
    ∷ pin gpm 3
    ∷ pin gpm 5
    ∷ pin gpq 2
    ∷ pin gpq 4
    ∷ pin gpq 6
    ∷ pin gpn 9
    ∷ pin gpn 11
    ∷ pin gpl 8
    ∷ []

abbrev pub gpio_num : ℕ
gpio_num = 19

abbrev pub oint_curr_switch : ℕ
oint_curr_switch = 16

abbrev pub oint_fpga_reset : ℕ
oint_fpga_reset = 17

abbrev pub oint_fpga_sdram_status : ℕ
oint_fpga_sdram_status = 18

abbrev pub oint_gpio_ioc_magic : ℕ
oint_gpio_ioc_magic = b'o'

pub data Direction : Type 0 where
  ioc_none ioc_write ioc_read ioc_read_write : Direction

pub record IoctlCommand : Type 0 where
  pub dir : Direction
  pub type : ℕ
  pub nr : ℕ
  pub size : ℕ

pub data Pull : Type 0 where
  pull_up pull_none : Pull

-- The kernel's calls: a request answers 0 or an error, `access_ok` whether the caller's memory may
-- be used.
pub record Gpio (W : Type 0) : Type 0 where
  pub gpio_request : Pin → W → ℕ × W
  pub gpio_free : Pin → W → W
  pub gpio_set_value : Pin → ℕ → W → W
  pub gpio_get_value : Pin → W → ℕ × W
  pub gpio_direction_output : Pin → ℕ → W → W
  pub gpio_direction_input : Pin → W → W
  pub set_pull : Pin → Pull → W → W
  pub access_ok : ℕ → ℕ → W → Bool
  pub put_user : ℕ → ℕ → W → W
  pub misc_register : W → ℕ × W
  pub misc_deregister : W → W

pub data Answer : Type 0 where
  success einval efault : Answer

abbrev pub is_write : Direction → Bool
is_write ioc_write = true
is_write other = false

abbrev pub is_read : Direction → Bool
is_read ioc_read = true
is_read other = false

-- `_IOC_DIR(cmd) & _IOC_READ`
abbrev pub has_read : Direction → Bool
has_read ioc_read = true
has_read ioc_read_write = true
has_read other = false

-- The size of an int on the board
abbrev pub size_of_int : ℕ
size_of_int = 4

-- The commands of the first eighteen cases: `_IOW('o', index, int)`
unfoldable pub is_output_case : IoctlCommand → Bool
is_output_case cmd =
    is_write cmd.dir
    && (cmd.type == oint_gpio_ioc_magic)
    && (cmd.size == size_of_int)
    && leb cmd.nr oint_fpga_reset

-- `_IOR('o', OINT_FPGA_SDRAM_STATUS, int)`
unfoldable pub is_status_case : IoctlCommand → Bool
is_status_case cmd =
    is_read cmd.dir
    && (cmd.type == oint_gpio_ioc_magic)
    && (cmd.size == size_of_int)
    && (cmd.nr == oint_fpga_sdram_status)

module _ {W : Type 0} (gpio : Gpio W) where
  -- `oint_gpios[gpio_index]`; past the table it is a fault.
  abbrev pub with_pin : ℕ → (Pin → Cmd W Answer) → Cmd W Answer
  with_pin gpio_index use_pin = elim (get_elem? oint_gpios gpio_index) [
    | none ↦ λ w. fault
    | some p ↦ use_pin p
  ]

  abbrev pub set_value : ℕ → Pin → Cmd W Answer
  set_value arg p w = ok success (gpio.gpio_set_value p arg w)

  abbrev pub get_value : ℕ → Pin → Cmd W Answer
  get_value arg p w =
      ok success (gpio.put_user (gpio.gpio_get_value p w).0 arg (gpio.gpio_get_value p w).1)

  -- The `switch` over the command
  unfoldable pub dispatch : IoctlCommand → ℕ → Cmd W Answer
  unfolding is_output_case is_status_case
  dispatch cmd arg =
      if is_output_case cmd
      then with_pin cmd.nr (set_value arg)
      else if is_status_case cmd
      then with_pin cmd.nr (get_value arg)
      else pure einval

  -- The second test of the direction repeats the first one, so that a command that writes is not
  -- checked.
  unfoldable pub is_refused_access : IoctlCommand → ℕ → W → Bool
  is_refused_access cmd arg w =
      if has_read cmd.dir
      then not (gpio.access_ok arg cmd.size w)
      else if has_read cmd.dir
      then not (gpio.access_ok arg cmd.size w)
      else false

  unfoldable pub oint_gpio_ioctl : IoctlCommand → ℕ → Cmd W Answer
  unfolding dispatch is_refused_access
  oint_gpio_ioctl cmd arg w =
      if not (cmd.type == oint_gpio_ioc_magic)
      then ok einval w
      else if ltb gpio_num cmd.nr
      then ok einval w
      else if is_refused_access cmd arg w
      then ok efault w
      else dispatch cmd arg w

  -- The `switch` of `oint_gpio_init`
  unfoldable pub set_up_pin : ℕ → Pin → W → W
  set_up_pin i p w =
      if ltb i oint_curr_switch
      then gpio.gpio_direction_output p led_off (gpio.set_pull p pull_up w)
      else if i == oint_curr_switch
      then gpio.gpio_direction_output p curr_switch_off (gpio.set_pull p pull_up w)
      else if i == oint_fpga_reset
      then gpio.gpio_direction_output p fpga_reset_disable (gpio.set_pull p pull_up w)
      else if i == oint_fpga_sdram_status
      then gpio.gpio_direction_input p (gpio.set_pull p pull_none w)
      else w

  -- The loop of `oint_gpio_init` from the pin `i` on: the answer of the first request that fails,
  -- else that of the registration
  unfoldable pub init_loop : ℕ → List Pin → W → ℕ × W
  unfolding set_up_pin
  init_loop i [] w = gpio.misc_register w
  init_loop i (p ∷ pins) w =
      let rest = init_loop (i + 1) pins (set_up_pin i p (gpio.gpio_request p w).1) in
      if (gpio.gpio_request p w).0 == 0 then rest else gpio.gpio_request p w

  unfoldable pub oint_gpio_init : W → ℕ × W
  unfolding init_loop
  oint_gpio_init w = init_loop 0 oint_gpios w

  unfoldable pub free_loop : List Pin → W → W
  free_loop [] w = w
  free_loop (p ∷ pins) w = free_loop pins (gpio.gpio_free p w)

  unfoldable pub oint_gpio_cleanup : W → W
  unfolding free_loop
  oint_gpio_cleanup w = gpio.misc_deregister (free_loop oint_gpios w)
