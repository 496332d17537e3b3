-- ===== src/GpioDriver/Ioctl.antt =====
-- What the commands of drivers/gpio/oint_gpio.c reach, and what its set-up leaves requested.
use wsn_test_platform.Shared.{
  ℕ, ◌+◌, ◌<◌, Bool, true, false, not, List, [], ◌∷◌, ◌++◌, Cmd, ◌==◌, ltb, if◌then◌else◌, length,
  ◌≡◌, refl, ◌∙◌, sym, ap, arith, append_assoc, append-nil, Bool-cases, ◌⊎◌, inl, inr, Returns,
  returns, Returns-if, Returns-mono, drop_next,
}
use wsn_test_platform.GpioDriver.{
  Pin, oint_gpios, gpio_num, oint_gpio_ioc_magic, IoctlCommand, Pull, pull_up, pull_none, Gpio,
  Answer, success, einval, efault, is_output_case, is_status_case, with_pin, set_value, get_value,
  dispatch, is_refused_access, oint_gpio_ioctl, set_up_pin, init_loop, oint_gpio_init,
}

output_case_bound : (cmd : IoctlCommand) → is_output_case cmd ≡ true → cmd.nr < 19
unfolding is_output_case
output_case_bound cmd h = ground arith

status_case_bound : (cmd : IoctlCommand) → is_status_case cmd ≡ true → cmd.nr < 19
unfolding is_status_case
status_case_bound cmd h = ground arith

magic : (n : ℕ) → not (n == oint_gpio_ioc_magic) ≡ false → n ≡ oint_gpio_ioc_magic
magic n h = ground arith

-- A success: the command is one of this driver, and its number a place of the table.
abbrev pub IsServed : IoctlCommand → Answer → Type 0
IsServed cmd answer =
    answer ≡ success → (cmd.type ≡ oint_gpio_ioc_magic) × (cmd.nr < length oint_gpios)

refused : (cmd : IoctlCommand) → IsServed cmd einval
refused cmd e = grind arith

refused_access : (cmd : IoctlCommand) → IsServed cmd efault
refused_access cmd e = grind arith

module _ {W : Type 0} (gpio : Gpio W) where
  with_pin-Returns :
      (cmd : IoctlCommand) (use_pin : Pin → Cmd W Answer) (w : W)
      → cmd.type ≡ oint_gpio_ioc_magic
      → cmd.nr < 19
      → ((p : Pin) → Returns (λ answer w'. answer ≡ success) (use_pin p w))
      → Returns (λ answer w'. IsServed cmd answer) (with_pin gpio cmd.nr use_pin w)
  with_pin-Returns cmd use_pin w typed h used =
      let (p, at, rest) = drop_next oint_gpios cmd.nr h in
      rw at (Returns-mono (used p) (λ answer w' e f. (typed, h)))

  dispatch-in_bounds :
      (cmd : IoctlCommand) (arg : ℕ) (w : W)
      → cmd.type ≡ oint_gpio_ioc_magic
      → Returns (λ answer w'. IsServed cmd answer) (dispatch gpio cmd arg w)
  unfolding dispatch
  dispatch-in_bounds cmd arg w typed =
      Returns-if (is_output_case cmd) _ _ w
        (λ output.
          with_pin-Returns cmd (set_value gpio arg) w typed (output_case_bound cmd output)
            (λ p. returns refl))
        (λ no_output.
          Returns-if (is_status_case cmd) _ _ w
            (λ status.
              with_pin-Returns cmd (get_value gpio arg) w typed (status_case_bound cmd status)
                (λ p. returns refl))
            (λ no_status. returns (refused cmd)))

  -- Every `ioctl` of every command returns: the table is read at none of the numbers that lie behind
  -- it, though the test of the number lets the first of them through. A success is the answer only to a
  -- command of this driver with a number of the table.
  pub oint_gpio_ioctl-in_bounds :
      (cmd : IoctlCommand) (arg : ℕ) (w : W)
      → Returns (λ answer w'. IsServed cmd answer) (oint_gpio_ioctl gpio cmd arg w)
  unfolding oint_gpio_ioctl
  oint_gpio_ioctl-in_bounds cmd arg w = elim (Bool-cases (not (cmd.type == oint_gpio_ioc_magic))) [
    | inl other ↦ rw other (returns (refused cmd))
    | inr ours ↦ rw ours (elim (Bool-cases (ltb gpio_num cmd.nr)) [
      | inl far ↦ rw far (returns (refused cmd))
      | inr near ↦ rw near (elim (Bool-cases (is_refused_access gpio cmd arg w)) [
        | inl denied ↦ rw denied (returns (refused_access cmd))
        | inr allowed ↦ rw allowed (dispatch-in_bounds cmd arg w (magic cmd.type ours))
      ])
    ])
  ]

is_zero : (n : ℕ) → (n == 0) ≡ true → n ≡ 0
is_zero n h = ground arith

positive : (n : ℕ) → (n == 0) ≡ false → 0 < n
positive n h = ground arith

-- What the driver relies on: a request that is answered with 0 takes the pin, one that fails does
-- not, and the other calls take and release none.
pub record Holds {W : Type 0} (gpio : Gpio W) (held : W → List Pin) : Type 0 where
  pub requested :
      (p : Pin) (w : W)
      → (gpio.gpio_request p w).0 ≡ 0
      → held (gpio.gpio_request p w).1 ≡ held w ++ (p ∷ [])
  pub not_requested :
      (p : Pin) (w : W)
      → ((gpio.gpio_request p w).0 == 0) ≡ false
      → held (gpio.gpio_request p w).1 ≡ held w
  pub output : (p : Pin) (value : ℕ) (w : W) → held (gpio.gpio_direction_output p value w) ≡ held w
  pub input : (p : Pin) (w : W) → held (gpio.gpio_direction_input p w) ≡ held w
  pub pulled : (p : Pin) (pull : Pull) (w : W) → held (gpio.set_pull p pull w) ≡ held w
  pub registered : (w : W) → held (gpio.misc_register w).1 ≡ held w

module _ {W : Type 0} (gpio : Gpio W) (held : W → List Pin) (holds : Holds gpio held) where
  driven :
      (p : Pin) (value : ℕ) (w : W)
      → held (gpio.gpio_direction_output p value (gpio.set_pull p pull_up w)) ≡ held w
  driven p value w = holds.output p value (gpio.set_pull p pull_up w) ∙ holds.pulled p pull_up w

  if_held :
      (b : Bool) (x y w : W)
      → held x ≡ held w
      → held y ≡ held w
      → held (if b then x else y) ≡ held w
  if_held true x y w e f = e
  if_held false x y w e f = f

  set_up_pin-held : (i : ℕ) (p : Pin) (w : W) → held (set_up_pin gpio i p w) ≡ held w
  unfolding set_up_pin
  set_up_pin-held i p w = if_held (ltb i 16) _ _ w (driven p 1 w) (
      if_held (i == 16) _ _ w (driven p 0 w) (
        if_held (i == 17) _ _ w (driven p 1 w) (
          if_held (i == 18) _ _ w
            (holds.input p (gpio.set_pull p pull_none w) ∙ holds.pulled p pull_none w) refl)))

  -- A request was refused, and its answer is the end: the pins before it are held, and no other.
  abbrev pub IsRefused : List Pin → List Pin → ℕ × W → Type 0
  IsRefused before pins r =
      (pre post : List Pin) × (p : Pin) × (w : W) × (pins ≡ pre ++ (p ∷ post))
      × (held w ≡ before ++ pre)
      × (gpio.gpio_request p w ≡ r)
      × ((r.0 == 0) ≡ false)
      × (held r.1 ≡ before ++ pre)

  -- Every pin is held, and the answer is that of the registration.
  abbrev pub IsRegistered : List Pin → List Pin → ℕ × W → Type 0
  IsRegistered before pins r =
      (w : W) × (held w ≡ before ++ pins) × (gpio.misc_register w ≡ r) × (held r.1 ≡ before ++ pins)

  init_loop-held :
      (i : ℕ) (pins before : List Pin) (w : W)
      → held w ≡ before
      → IsRefused before pins (init_loop gpio i pins w)
        ⊎ IsRegistered before pins (init_loop gpio i pins w)
  unfolding init_loop
  init_loop-held i [] before w e =
      let now = e ∙ sym (append-nil before) in inr (w, now, refl, holds.registered w ∙ now)
  init_loop-held i (p ∷ pins) before w e = elim (Bool-cases ((gpio.gpio_request p w).0 == 0)) [
    | inl given ↦ rw given (
        let so = append_assoc before (p ∷ []) in
        elim (init_loop-held (i + 1) pins (before ++ (p ∷ []))
          (set_up_pin gpio i p (gpio.gpio_request p w).1)
          (set_up_pin-held i p (gpio.gpio_request p w).1
            ∙ holds.requested p w (is_zero (gpio.gpio_request p w).0 given)
            ∙ ap (λ h. h ++ (p ∷ [])) e)) [
              | inl (pre, post, q, w', split, before_it, refusal, failed, now) ↦ inl (
                p ∷ pre,
                post,
                q,
                w',
                ap (λ t. p ∷ t) split,
                before_it ∙ so pre,
                refusal,
                failed,
                now ∙ so pre,
              )
              | inr (w', before_it, answer, now) ↦
                  inr (w', before_it ∙ so pins, answer, now ∙ so pins)
            ])
    | inr failed ↦
        let now = e ∙ sym (append-nil before) in
        rw failed
          (inl ([], pins, p, w, refl, now, refl, failed, holds.not_requested p w failed ∙ now))
  ]

  -- How the set-up ends. Either the request of some pin of the table is refused: then its answer, not
  -- 0, is the set-up's, nothing is released, and the pins before it in the table stay requested on top
  -- of what was held before. Or every pin is held, and the answer is that of the registration.
  pub oint_gpio_init-held :
      (w : W)
      → IsRefused (held w) oint_gpios (oint_gpio_init gpio w)
        ⊎ IsRegistered (held w) oint_gpios (oint_gpio_init gpio w)
  unfolding oint_gpio_init
  oint_gpio_init-held w = init_loop-held 0 oint_gpios (held w) w refl
