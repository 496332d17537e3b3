-- ===== src/PcapFile/Names.antt =====
-- module/pcap/pcap_save_file.c: the name of a file, which `sprintf` writes into 30 bytes.
use wsn_test_platform.Shared.{
  ℕ, zero, suc, ◌+◌, ◌/◌, ◌%◌, ◌^◌, ◌≤◌, ◌<◌, [], ◌∷◌, decimal, decimal_digits, length,
  length-append, arith,
}
use wsn_test_platform.PcapFile.{Tm, time_name, name_buffer_size}

-- A date of the calendar, of a year below a thousand million
pub record IsDate (t : Tm) : Type 0 where
  pub year : t.tm_year + 1900 < 1000000000
  pub mon : t.tm_mon < 12
  pub mday : t.tm_mday ≤ 31
  pub hour : t.tm_hour < 24
  pub minute : t.tm_min < 60
  pub second : t.tm_sec ≤ 60

decimal_digits-length : (k d n : ℕ) → n < 10 ^ suc d → length (decimal_digits k n) ≤ suc d
unfolding decimal_digits
decimal_digits-length zero d n h = omega arith
decimal_digits-length (suc k) zero n h = ground arith
decimal_digits-length (suc k) (suc d) n h =
    let shorter = decimal_digits-length k d (n / 10) (omega arith) in
    ground (arith, length-append (decimal_digits k (n / 10)) ((b'0' + n % 10) ∷ []))

decimal-length : (d n : ℕ) → n < 10 ^ suc d → length (decimal n) ≤ suc d
unfolding decimal
decimal-length d n h = decimal_digits-length 20 d n h

-- The name of a date fits the buffer, its NUL included.
pub time_name-fits : (t : Tm) → IsDate t → length (time_name t) < name_buffer_size
unfolding time_name
time_name-fits t d = omega (
  arith,
  d.year,
  d.mon,
  d.mday,
  d.hour,
  d.minute,
  d.second,
  length-append {0},
  decimal-length 8 (t.tm_year + 1900) (omega (arith, d.year)),
  decimal-length 1 (t.tm_mon + 1) (omega (arith, d.mon)),
  decimal-length 1 t.tm_mday (omega (arith, d.mday)),
  decimal-length 1 t.tm_hour (omega (arith, d.hour)),
  decimal-length 1 t.tm_min (omega (arith, d.minute)),
  decimal-length 1 t.tm_sec (omega (arith, d.second)),
)
