-- ===== src/Serial/Tests.antt =====
-- The theorems on module/serial at a line whose attributes are the whole state of the system.
use wsn_test_platform.Shared.{true, false, none, some, ◌≡◌, inl, inr, refl, ok, Returns, arith}
use wsn_test_platform.Serial.{
  Tty, Termios, zero_status, minus_one, cs5, serial_set_speed, serial_set_parity,
}
use wsn_test_platform.Serial.Terminal.{setup}
use wsn_test_platform.Serial.Settings.{IsTerminal, line_8n1, setup-line_8n1}
use wsn_test_platform.Serial.Refusals.{
  IsFormat, serial_set_parity-refused, serial_set_speed-unknown,
}

abbrev attributes_tty : Tty Termios
attributes_tty = record {
  open_device = λ name w. (some 3, w);
  isatty = λ fd w. true;
  tcgetattr = λ fd w. some w;
  tcsetattr = λ fd options w. (true, options);
  tcflush = λ fd w. w;
}

attributes_tty-IsTerminal : IsTerminal attributes_tty 3 (λ w. w)
attributes_tty-IsTerminal = record {
  is_terminal = λ w. refl;
  told = λ w. refl;
  accepted = λ options w. refl;
  stored = λ options w. refl;
  flush_keeps = λ w. refl;
}

abbrev cooked : Termios
cooked = record {
  c_cflag = record {
    csize = cs5;
    cstopb = true;
    cread = false;
    parenb = true;
    parodd = true;
    clocal = false;
    crtscts = true;
    other_cflag = 0;
  };
  c_iflag = record {
    ignbrk = false;
    inpck = true;
    ixon = true;
    ixoff = true;
    ixany = true;
    other_iflag = 256;
  };
  c_lflag = 35387;
  c_oflag = 5;
  vmin = 1;
  vtime = 0;
  ispeed = none;
  ospeed = none;
}

setup-line_8n1_example :
    Returns
      (λ status t. (status ≡ zero_status) × (t ≡ line_8n1 cooked))
      (setup attributes_tty (some 3) cooked)
setup-line_8n1_example = setup-line_8n1 attributes_tty 3 (λ w. w) attributes_tty-IsTerminal cooked

not_five : IsFormat 5 b'N' 1 → ⊥
not_five f = elim f.bits [ inl e ↦ omega arith | inr e ↦ omega arith ]

serial_set_parity-refused_example :
    serial_set_parity attributes_tty (some 3) 5 b'N' 1 cooked ≡ ok minus_one cooked
serial_set_parity-refused_example =
    serial_set_parity-refused attributes_tty (some 3) 5 b'N' 1 cooked not_five

serial_set_speed-unknown_example :
    serial_set_speed attributes_tty (some 3) 4800 cooked ≡ ok zero_status cooked
unfolding serial_set_speed
serial_set_speed-unknown_example =
    serial_set_speed-unknown attributes_tty (some 3) 4800 cooked cooked (omega arith) refl refl
