-- ===== src/GatherBoard/Guards.antt =====
-- What the argument tests of app/gather_board.c let through.
use wsn_test_platform.Shared.{
  ℕ, Bool, true, false, not, ◌&&◌, Option, none, some, ret_ok, ret_invalid_params, ret_fail, ok,
  pure, ◌==◌, ltb, if◌then◌else◌, ◌≡◌, inl, inr, refl, arith, Bool-cases,
}
use wsn_test_platform.Kernel.{System}
use wsn_test_platform.GatherBoard.{
  GatherBoard, gather_board_led_control, gather_board_current_switch, gather_board_reset_fpga,
  checked_ioctl, ioctl_call, curr_switch_off, curr_switch_on, oint_gpio_ioc_fpga_reset,
  oint_gpio_ioc_curr_switch, fpga_reset_enable, fpga_reset_disable, led_on,
}

no_index : (led_index : ℕ) → (ltb led_index 1 && ltb 8 led_index) ≡ false
no_index led_index = ground arith

switch_test :
    (value : ℕ)
    → not (not (value == curr_switch_off) && not (value == curr_switch_on)) ≡ not (ltb 1 value)
switch_test value = ground arith

answer :
    {W : Type 0} (done : Bool) (w : W)
    → (if done then pure ret_ok else pure ret_fail) w ≡ ok (if done then ret_ok else ret_fail) w
answer true w = refl
answer false w = refl

module _ {W : Type 0} (sys : System W) where
  -- No LED is ever switched: every call of `gather_board_led_control` is refused with
  -- RET_INVALID_PARAMS before its `ioctl`, whatever the board, the index, the value and the colour.
  pub gather_board_led_control-refused :
      (thiz : Option GatherBoard) (led_index value : ℕ) (red : Bool) (w : W)
      → gather_board_led_control sys thiz led_index value red w ≡ ok ret_invalid_params w
  unfolding gather_board_led_control
  gather_board_led_control-refused none led_index value red w = refl
  gather_board_led_control-refused (some thiz) led_index value red w =
      elim (Bool-cases (value == led_on)) [
        | inl on ↦ rw on refl
        | inr off ↦ rw (off, no_index led_index)
      ]

  -- The two values that gather_board.h documents are refused by `gather_board_current_switch`, and
  -- every other value reaches the driver, whose answer is returned.
  pub gather_board_current_switch-inverted :
      (thiz : GatherBoard) (value : ℕ) (w : W)
      → gather_board_current_switch sys (some thiz) value w ≡ (
          if ltb 1 value
          then ok
              (if (sys.ioctl thiz.gpio_fd oint_gpio_ioc_curr_switch value w).0
                then ret_ok
                else ret_fail)
              (sys.ioctl thiz.gpio_fd oint_gpio_ioc_curr_switch value w).1
          else ok ret_invalid_params w)
  unfolding gather_board_current_switch checked_ioctl ioctl_call
  gather_board_current_switch-inverted thiz value w = elim (Bool-cases (ltb 1 value)) [
    | inl high ↦
        rw (switch_test value, high)
          (answer (sys.ioctl thiz.gpio_fd oint_gpio_ioc_curr_switch value w).0
            (sys.ioctl thiz.gpio_fd oint_gpio_ioc_curr_switch value w).1)
    | inr low ↦ rw (switch_test value, low)
  ]

  -- A reset of the FPGA sends the reset command twice, first with the enabling and then with the
  -- disabling value, and nothing else: the current switch is not turned off. It returns RET_FAIL at
  -- the first `ioctl` that fails, without the second one.
  pub gather_board_reset_fpga-commands :
      (thiz : GatherBoard) (w : W)
      → gather_board_reset_fpga sys (some thiz) w ≡ (
          let first = sys.ioctl thiz.gpio_fd oint_gpio_ioc_fpga_reset fpga_reset_enable w in
          let second = sys.ioctl thiz.gpio_fd oint_gpio_ioc_fpga_reset fpga_reset_disable first.1 in
          if first.0
          then ok (if second.0 then ret_ok else ret_fail) second.1
          else ok ret_fail first.1)
  unfolding gather_board_reset_fpga gather_board_current_switch checked_ioctl ioctl_call
  gather_board_reset_fpga-commands thiz w =
      elim (Bool-cases (sys.ioctl thiz.gpio_fd oint_gpio_ioc_fpga_reset fpga_reset_enable w).0) [
        | inl done ↦ rw done (answer _ _)
        | inr failed ↦ rw failed refl
      ]
