-- ===== src/GatherBoard.antt =====
-- app/gather_board.c: the driver of the gather board, over the ioctl commands of
-- drivers/gpio/oint_gpio.h. A pointer that may be NULL is an `Option`; indices and values are not
-- negative, as at every call.
pub mod Guards
mod Tests
use wsn_test_platform.Shared.{
  ℕ, zero, suc, ◌+◌, ◌-◌, Bool, true, false, not, ◌&&◌, ◌||◌, Option, none, some, List, [], ◌∷◌,
  Ret, ret_ok, ret_invalid_params, ret_fail, Run, ok, fault, Cmd, pure, ◌>>=◌, ◌>>◌, ◌==◌, ltb,
  if◌then◌else◌, get_elem?,
}
use wsn_test_platform.Kernel.{System}

abbrev pub led_on : ℕ
led_on = 0

abbrev pub led_off : ℕ
led_off = 1

abbrev pub curr_switch_off : ℕ
curr_switch_off = 0

abbrev pub curr_switch_on : ℕ
curr_switch_on = 1

abbrev pub fpga_reset_enable : ℕ
fpga_reset_enable = 0

abbrev pub fpga_reset_disable : ℕ
fpga_reset_disable = 1

abbrev led_min_index : ℕ
led_min_index = 1

abbrev led_max_index : ℕ
led_max_index = 8

-- The ioctl commands, by the index that each carries
abbrev pub led_ioctl_command : List ℕ
led_ioctl_command = 0 ∷ 1 ∷ 2 ∷ 3 ∷ 4 ∷ 5 ∷ 6 ∷ 7 ∷ 8 ∷ 9 ∷ 10 ∷ 11 ∷ 12 ∷ 13 ∷ 14 ∷ 15 ∷ []

abbrev pub oint_gpio_ioc_curr_switch : ℕ
oint_gpio_ioc_curr_switch = 16

abbrev pub oint_gpio_ioc_fpga_reset : ℕ
oint_gpio_ioc_fpga_reset = 17

pub record GatherBoard : Type 0 where
  pub gpio_fd : ℕ
  pub spi_write_fd : ℕ
  pub spi_read_fd : ℕ

module _ {W : Type 0} (sys : System W) where
  open_device : ℕ → Cmd W (Option ℕ)
  open_device name w = ok (sys.open_path name w).0 (sys.open_path name w).1

  unfoldable ioctl_call : ℕ → ℕ → ℕ → Cmd W Bool
  ioctl_call fd command value w =
      ok (sys.ioctl fd command value w).0 (sys.ioctl fd command value w).1

  -- A failed `ioctl` is RET_FAIL, else the code goes on.
  unfoldable checked_ioctl : ℕ → ℕ → ℕ → Cmd W Ret → Cmd W Ret
  unfolding ioctl_call
  checked_ioctl fd command value next = do
    done ← ioctl_call fd command value
    if done then next else pure ret_fail

  -- What is open when a later step fails stays open, and the block is not freed.
  unfoldable pub gather_board_create : Cmd W (Option GatherBoard)
  unfolding open_device
  gather_board_create w = elim (sys.malloc 12 w).0 [
    | none ↦ ok none (sys.malloc 12 w).1
    | some block ↦
        (do
          gpio ← open_device 0
          elim gpio [
            | none ↦ pure none
            | some gpio_fd ↦ do
              reader ← open_device 2
              elim reader [
                | none ↦ pure none
                | some read_fd ↦ do
                  writer ← open_device 1
                  elim writer [
                    | none ↦ pure none
                    | some write_fd ↦ pure (
                        some (record {
                          gpio_fd = gpio_fd;
                          spi_write_fd = write_fd;
                          spi_read_fd = read_fd;
                        }))
                  ]
              ]
          ])
          (sys.malloc 12 w).1
  ]

  unfoldable pub gather_board_destroy : Option GatherBoard → W → W
  gather_board_destroy none w = w
  gather_board_destroy (some thiz) w =
      sys.close thiz.spi_write_fd (sys.close thiz.spi_read_fd (sys.close thiz.gpio_fd w))

  -- The tests of the `return_val_if_fail` lines as they are written. The two int arguments are taken
  -- where they are not negative; the test of the index is false for the others too.
  unfoldable pub gather_board_led_control : Option GatherBoard → ℕ → ℕ → Bool → Cmd W Ret
  unfolding ioctl_call checked_ioctl
  gather_board_led_control none led_index value red = pure ret_invalid_params
  gather_board_led_control (some thiz) led_index value red =
      if not (not (value == led_on) && not (value == led_on))
      then pure ret_invalid_params
      else if not (ltb led_index led_min_index && ltb led_max_index led_index)
      then pure ret_invalid_params
      else elim (get_elem? led_ioctl_command ((if red then 0 else led_max_index) + led_index - 1)) [
        | none ↦ λ _. fault
        | some command ↦ checked_ioctl thiz.gpio_fd command value (pure ret_ok)
      ]

  unfoldable pub gather_board_led_red : Option GatherBoard → ℕ → ℕ → Cmd W Ret
  gather_board_led_red thiz led_index value = gather_board_led_control thiz led_index value true

  unfoldable pub gather_board_led_green : Option GatherBoard → ℕ → ℕ → Cmd W Ret
  gather_board_led_green thiz led_index value = gather_board_led_control thiz led_index value false

  unfoldable pub gather_board_current_switch : Option GatherBoard → ℕ → Cmd W Ret
  unfolding ioctl_call checked_ioctl
  gather_board_current_switch none value = pure ret_invalid_params
  gather_board_current_switch (some thiz) value =
      if not (not (value == curr_switch_off) && not (value == curr_switch_on))
      then pure ret_invalid_params
      else checked_ioctl thiz.gpio_fd oint_gpio_ioc_curr_switch value (pure ret_ok)

  -- The answer of the current switch is not looked at.
  unfoldable pub gather_board_reset_fpga : Option GatherBoard → Cmd W Ret
  unfolding ioctl_call checked_ioctl gather_board_current_switch
  gather_board_reset_fpga none = pure ret_invalid_params
  gather_board_reset_fpga (some thiz) = do
    switched ← gather_board_current_switch (some thiz) curr_switch_off
    checked_ioctl thiz.gpio_fd oint_gpio_ioc_fpga_reset fpga_reset_enable
        (checked_ioctl thiz.gpio_fd oint_gpio_ioc_fpga_reset fpga_reset_disable (pure ret_ok))
