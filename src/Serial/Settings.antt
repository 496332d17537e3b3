-- ===== src/Serial/Settings.antt =====
-- module/serial/serial.c and the settings of module/serial/main.c: what a line is set to.
use wsn_test_platform.Shared.{
  ℕ, true, false, some, ◌≡◌, refl, ap, ◌∙◌, Cmd, Returns, returns, Returns-and_then, Returns-mono,
}
use wsn_test_platform.Serial.{
  Tty, Termios, Status, zero_status, b9600, cs8, raw, set_attributes, serial_set_raw_mode,
  serial_set_speed, serial_set_parity,
}
use wsn_test_platform.Serial.Terminal.{setup}

-- What the documents say of the calls on a terminal: its attributes are those that were last set.
pub record IsTerminal {W : Type 0} (tty : Tty W) (fd : ℕ) (attributes : W → Termios) : Type 0 where
  pub is_terminal : (w : W) → tty.isatty (some fd) w ≡ true
  pub told : (w : W) → tty.tcgetattr (some fd) w ≡ some (attributes w)
  pub accepted : (options : Termios) (w : W) → (tty.tcsetattr (some fd) options w).0 ≡ true
  pub stored :
      (options : Termios) (w : W) → attributes (tty.tcsetattr (some fd) options w).1 ≡ options
  pub flush_keeps : (w : W) → attributes (tty.tcflush (some fd) w) ≡ attributes w

-- 9600 baud both ways, eight bits, no parity, one stop bit: no character is changed or has a meaning
-- on its way, there is no flow control, and a read waits for two seconds at most.
abbrev pub line_8n1 : Termios → Termios
line_8n1 before = record {
  c_cflag = record {
    csize = cs8;
    cstopb = false;
    cread = true;
    parenb = false;
    parodd = before.c_cflag.parodd;
    clocal = true;
    crtscts = false;
    other_cflag = before.c_cflag.other_cflag;
  };
  c_iflag = record {
    ignbrk = true;
    inpck = false;
    ixon = false;
    ixoff = false;
    ixany = false;
    other_iflag = 0;
  };
  c_lflag = 0;
  c_oflag = 0;
  vmin = 0;
  vtime = 20;
  ispeed = some b9600;
  ospeed = some b9600;
}

module _ {W : Type 0} (tty : Tty W) (fd : ℕ) (attributes : W → Termios)
    (is : IsTerminal tty fd attributes) where
  -- The attributes after a command that succeeds
  abbrev Sets : Termios → Status → W → Type 0
  Sets options status t = (status ≡ zero_status) × (attributes t ≡ options)

  set_attributes-Sets :
      (options : Termios) (next : Cmd W Status) (w : W)
      → ((t : W) → attributes t ≡ options → Returns (Sets options) (next t))
      → Returns (Sets options) (set_attributes tty (some fd) options next w)
  unfolding set_attributes
  set_attributes-Sets options next w after =
      rw (is.accepted options w) (after _ (is.stored options w))

  serial_set_raw_mode-raw :
      (w : W) → Returns (Sets (raw (attributes w))) (serial_set_raw_mode tty (some fd) w)
  unfolding serial_set_raw_mode
  serial_set_raw_mode-raw w =
      rw (is.is_terminal w) (rw (is.told w) (set_attributes-Sets _ _ _ (λ t e. returns (refl, e))))

  serial_set_speed-9600 :
      (w : W)
      → Returns
          (Sets (record (attributes w) { ispeed = some b9600; ospeed = some b9600 }))
          (serial_set_speed tty (some fd) 9600 w)
  unfolding serial_set_speed
  serial_set_speed-9600 w =
      rw (is.is_terminal w)
        (rw (is.told w) (set_attributes-Sets _ _ _ (λ t e. returns (refl, is.flush_keeps t ∙ e))))

  abbrev eight_n_one : Termios → Termios
  eight_n_one before = record before {
    c_cflag = record before.c_cflag { csize = cs8; parenb = false; cstopb = false };
    c_iflag = record before.c_iflag { inpck = false };
  }

  serial_set_parity-8n1 :
      (w : W)
      → Returns (Sets (eight_n_one (attributes w))) (serial_set_parity tty (some fd) 8 b'N' 1 w)
  unfolding serial_set_parity
  serial_set_parity-8n1 w =
      rw (is.is_terminal w) (rw (is.told w) (set_attributes-Sets _ _ _ (λ t e. returns (refl, e))))

  -- On a terminal whose calls succeed, the settings of `main` succeed and leave the line at 9600 baud
  -- with eight bits, no parity and one stop bit, raw and without flow control, whatever its attributes
  -- were before.
  pub setup-line_8n1 :
      (w : W)
      → Returns
          (λ status t. (status ≡ zero_status) × (attributes t ≡ line_8n1 (attributes w)))
          (setup tty (some fd) w)
  unfolding setup raw
  setup-line_8n1 w = Returns-and_then (serial_set_raw_mode-raw w) (λ _ t (_, e).
      Returns-and_then (serial_set_speed-9600 t) (λ _ u (_, f).
        Returns-mono (serial_set_parity-8n1 u) (λ status v (g, h). (
          g,
          h
              ∙ ap eight_n_one (
                  f
                  ∙ ap {A = Termios} (λ o. record o { ispeed = some b9600; ospeed = some b9600 })
                      e),
        ))))
