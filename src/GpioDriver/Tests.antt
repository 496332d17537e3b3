-- ===== src/GpioDriver/Tests.antt =====
-- The theorems on drivers/gpio/oint_gpio.c in a kernel that grants three pins.
use wsn_test_platform.Shared.{
  ℕ, Bool, true, false, List, [], ◌∷◌, ◌++◌, ltb, ◌==◌, length, ◌≡◌, ◌⊎◌, refl, arith, Returns,
}
use wsn_test_platform.GpioDriver.{
  Pin, oint_gpios, IoctlCommand, ioc_write, Gpio, oint_gpio_ioctl, oint_gpio_init,
}
use wsn_test_platform.GpioDriver.Ioctl.{
  IsServed, Holds, IsRefused, IsRegistered, oint_gpio_ioctl-in_bounds, oint_gpio_init-held,
}

abbrev grant : Bool → Pin → List Pin → ℕ × List Pin
grant true p w = (0, w ++ (p ∷ []))
grant false p w = (16, w)

abbrev kernel : Gpio (List Pin)
kernel = record {
  gpio_request = λ p w. grant (ltb (length w) 3) p w;
  gpio_free = λ p w. w;
  gpio_set_value = λ p value w. w;
  gpio_get_value = λ p w. (0, w);
  gpio_direction_output = λ p value w. w;
  gpio_direction_input = λ p w. w;
  set_pull = λ p pull w. w;
  access_ok = λ address size w. true;
  put_user = λ value address w. w;
  misc_register = λ w. (0, w);
  misc_deregister = λ w. w;
}

grant-held :
    (b : Bool) (p : Pin) (w : List Pin) → (grant b p w).0 ≡ 0 → (grant b p w).1 ≡ w ++ (p ∷ [])
grant-held true p w e = refl
grant-held false p w e = absurd (omega (arith, e))

no_grant-held :
    (b : Bool) (p : Pin) (w : List Pin) → ((grant b p w).0 == 0) ≡ false → (grant b p w).1 ≡ w
no_grant-held true p w e = absurd (grind (arith, e))
no_grant-held false p w e = refl

kernel-Holds : Holds kernel (λ w. w)
kernel-Holds = record {
  requested = λ p w e. grant-held (ltb (length w) 3) p w e;
  not_requested = λ p w e. no_grant-held (ltb (length w) 3) p w e;
  output = λ p value w. refl;
  input = λ p w. refl;
  pulled = λ p pull w. refl;
  registered = λ w. refl;
}

-- The first number behind the table
abbrev last_command : IoctlCommand
last_command = record { dir = ioc_write; type = b'o'; nr = 19; size = 4 }

oint_gpio_ioctl-in_bounds_example :
    Returns (λ answer w. IsServed last_command answer) (oint_gpio_ioctl kernel last_command 1 [])
oint_gpio_ioctl-in_bounds_example = oint_gpio_ioctl-in_bounds kernel last_command 1 []

oint_gpio_init-held_example :
    IsRefused kernel (λ w. w) kernel-Holds [] oint_gpios (oint_gpio_init kernel [])
    ⊎ IsRegistered kernel (λ w. w) kernel-Holds [] oint_gpios (oint_gpio_init kernel [])
oint_gpio_init-held_example = oint_gpio_init-held kernel (λ w. w) kernel-Holds []
