-- ===== src/Serial/Refusals.antt =====
-- module/serial: what the code refuses, and what it does not.
use wsn_test_platform.Shared.{
  ℕ, suc, ◌≤◌, Bool, true, Option, some, List, [], ◌∷◌, ◌≡◌, ◌≢◌, ◌⊎◌, inl, inr, refl, ok, fault,
  ◌==◌, length, arith, All, Option-cases, Bool-cases, ==_iff, le→ltb_false,
}
use wsn_test_platform.Protocol.{Bytes}
use wsn_test_platform.Serial.{
  Tty, Termios, zero_status, minus_one, Cflag, Iflag, Baud, CharSize, toupper, char_size, stop_flag,
  set_parity_flags, serial_set_speed, serial_set_parity, speed_loop, speeds,
}
use wsn_test_platform.Serial.Terminal.{Console, read_loop, buf_size}

-- A format that the code knows: seven or eight bits, no, even, odd or space parity in either case,
-- and one or two stop bits
pub record IsFormat (data_bits parity_type stop_bits : ℕ) : Type 0 where
  pub bits : (data_bits ≡ 7) ⊎ (data_bits ≡ 8)
  pub parity :
      (toupper parity_type ≡ b'N')
      ⊎ ((toupper parity_type ≡ b'E')
          ⊎ ((toupper parity_type ≡ b'O') ⊎ (toupper parity_type ≡ b'S')))
  pub stops : (stop_bits ≡ 1) ⊎ (stop_bits ≡ 2)

char_size_known : (n : ℕ) (c : CharSize) → char_size n ≡ some c → (n ≡ 7) ⊎ (n ≡ 8)
char_size_known n c e = ground arith

stop_flag_known : (n : ℕ) (b : Bool) → stop_flag n ≡ some b → (n ≡ 1) ⊎ (n ≡ 2)
stop_flag_known n b e = ground arith

set_parity_flags_known :
    (p : ℕ) (c : Cflag) (i : Iflag) (f : Cflag × Iflag)
    → set_parity_flags p c i ≡ some f
    → (toupper p ≡ b'N') ⊎ ((toupper p ≡ b'E') ⊎ ((toupper p ≡ b'O') ⊎ (toupper p ≡ b'S')))
unfolding set_parity_flags
set_parity_flags_known p c i f e = ground arith

module _ {W : Type 0} (tty : Tty W) where
  -- A format that is not known is answered with -1, and the line is left as it was: no call changes
  -- it. It does not matter whether the descriptor is a terminal.
  pub serial_set_parity-refused :
      (fd : Option ℕ) (data_bits parity_type stop_bits : ℕ) (w : W)
      → (IsFormat data_bits parity_type stop_bits → ⊥)
      → serial_set_parity tty fd data_bits parity_type stop_bits w ≡ ok minus_one w
  unfolding serial_set_parity
  serial_set_parity-refused fd data_bits parity_type stop_bits w h =
      elim (Bool-cases (tty.isatty fd w)) [
        | inr e ↦ rw e refl
        | inl e ↦ rw e (elim (Option-cases (tty.tcgetattr fd w)) [
          | inl f ↦ rw f refl
          | inr (options, f) ↦ rw f (elim (Option-cases (char_size data_bits)) [
            | inl g ↦ rw g refl
            | inr (size, g) ↦
                rw g
                  (elim (Option-cases (
                    set_parity_flags parity_type (record options.c_cflag { csize = size })
                      options.c_iflag)) [
                        | inl k ↦ rw k refl
                        | inr (flags, k) ↦ rw k (elim (Option-cases (stop_flag stop_bits)) [
                          | inl m ↦ rw m refl
                          | inr (two, m) ↦ absurd (
                              h (record {
                                bits = char_size_known data_bits size g;
                                parity =
                                    set_parity_flags_known parity_type
                                      (record options.c_cflag { csize = size }) options.c_iflag
                                      flags k;
                                stops = stop_flag_known stop_bits two m;
                              }))
                        ])
                      ])
          ])
        ])
      ]

  speed_loop-unknown :
      (entries : List (ℕ × Baud)) (fd : Option ℕ) (speed : ℕ) (options : Termios) (w : W)
      → All (λ entry. speed ≢ entry.0) entries
      → speed_loop tty entries fd speed options w ≡ ok zero_status w
  unfolding speed_loop
  speed_loop-unknown [] fd speed options w h = refl
  speed_loop-unknown ((name, baud) ∷ entries) fd speed options w (h, hs) =
      elim (Bool-cases (speed == name)) [
        | inl e ↦ absurd (h ((==_iff speed name).0 e))
        | inr e ↦ rw (e, speed_loop) (speed_loop-unknown entries fd speed options w hs)
      ]

  -- A speed that is not of the table is answered with 0, as if it had been set: on a terminal that
  -- tells its attributes nothing is changed.
  pub serial_set_speed-unknown :
      (fd : Option ℕ) (speed : ℕ) (options : Termios) (w : W)
      → All (λ entry. speed ≢ entry.0) speeds
      → tty.isatty fd w ≡ true
      → tty.tcgetattr fd w ≡ some options
      → serial_set_speed tty fd speed w ≡ ok zero_status w
  unfolding serial_set_speed
  serial_set_speed-unknown fd speed options w h e f =
      rw e (rw f (speed_loop-unknown speeds fd speed options w h))

module _ {W : Type 0} (console : Console W) where
  -- A read that fills the buffer is followed by a write beyond it.
  pub read_loop-full :
      (k : ℕ) (fd : Option ℕ) (b : ℕ) (bs : Bytes) (w : W)
      → (console.read fd w).0 ≡ some (b ∷ bs)
      → buf_size ≤ length (b ∷ bs)
      → read_loop console (suc k) fd w ≡ fault
  unfolding read_loop
  read_loop-full k fd b bs w e h =
      rw (e, read_loop) (rw (le→ltb_false (length (b ∷ bs)) buf_size h, read_loop) refl)
