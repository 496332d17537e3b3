-- ===== src/Logger.antt =====
-- common/logger.c: the log file and what is written to it. A FILE pointer is its address, NULL is 0.
pub mod Open
mod Tests
use wsn_test_platform.Shared.{
  ◌>>=◌, ◌>>◌, ℕ, not, ◌&&◌, Option, none, some, List, [], ◌∷◌, Ret, ret_ok, ret_fail, ok, fault,
  Cmd, pure, ◌==◌, if◌then◌else◌,
}
use wsn_test_platform.Protocol.{Bytes}

-- What the logger calls
pub record LogStreams (W : Type 0) : Type 0 where
  pub stdout : ℕ
  -- with "w+"
  pub fopen : Bytes → W → ℕ × W
  pub fclose : ℕ → W → W
  -- the text that the format and its arguments make
  pub vfprintf : ℕ → Bytes → W → W

pub record Logger (W : Type 0) : Type 0 where
  pub s_log_file : ℕ
  pub world : W

module _ {W : Type 0} (streams : LogStreams W) where
  unfoldable pub logger_close : Cmd (Logger W) (Unit {0})
  logger_close s =
      if not (s.s_log_file == 0) && not (s.s_log_file == streams.stdout)
      then ok tt (record { s_log_file = 0; world = streams.fclose s.s_log_file s.world })
      else ok tt s

  -- `fopen`, and what it answers
  unfoldable pub open_log : Bytes → Cmd (Logger W) Ret
  open_log log_path s =
      let (file, w) = streams.fopen log_path s.world in
      ok (if file == 0 then ret_fail else ret_ok) (record { s_log_file = file; world = w })

  abbrev pub use_stdout : Cmd (Logger W) Ret
  use_stdout s = ok ret_ok (record { s_log_file = streams.stdout; world = s.world })

  abbrev pub close_if_open : Cmd (Logger W) (Unit {0})
  close_if_open s = (if not (s.s_log_file == 0) then logger_close else pure tt) s

  unfoldable pub logger_init : Option Bytes → Cmd (Logger W) Ret
  unfolding logger_close open_log
  logger_init log_path = do
    close_if_open
    elim log_path [ some path ↦ open_log path | none ↦ use_stdout ]

  -- To write to NULL is a fault.
  unfoldable pub logger_printf : Bytes → Cmd (Logger W) (Unit {0})
  logger_printf text s =
      if s.s_log_file == 0
      then fault
      else ok tt
          (record { s_log_file = s.s_log_file; world = streams.vfprintf s.s_log_file text s.world })

-- A call of the logger
pub data LogCall : Type 0 where
  init : Option Bytes → LogCall
  close : LogCall
  printf : Bytes → LogCall

module _ {W : Type 0} (streams : LogStreams W) where
  unfoldable pub log_calls : List LogCall → Cmd (Logger W) (Unit {0})
  unfolding logger_init logger_close logger_printf
  log_calls [] = pure tt
  log_calls (init log_path ∷ calls) = do logger_init streams log_path; log_calls calls
  log_calls (close ∷ calls) = do logger_close streams; log_calls calls
  log_calls (printf t ∷ calls) = do logger_printf streams t; log_calls calls
