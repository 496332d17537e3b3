-- ===== src/Logger/Open.antt =====
-- common/logger.c: no log file stays open that the logger does not know.
use wsn_test_platform.Shared.{
  ℕ, not, ◌&&◌, Option, none, some, List, [], ◌∷◌, ◌≡◌, ◌≢◌, inl, inr, sym, ap, ◌∙◌, Ret, Cmd, Ends,
  ended, faulted, Ends-and_then, Ends-if, Ends-mono, ==_iff, ◌==◌, if◌then◌else◌, arith, Bool-cases,
}
use wsn_test_platform.Protocol.{Bytes}
use wsn_test_platform.Logger.{
  LogStreams, Logger, LogCall, init, close, printf, logger_init, logger_close, logger_printf,
  open_log, close_if_open, use_stdout, log_calls,
}

-- What the C library promises of the streams besides `stdout` that are open: a file that is opened is
-- new, and one that is closed was the only one.
pub record IsStreams {W : Type 0} (streams : LogStreams W) (files : W → List ℕ) : Type 0 where
  pub stdout_given : streams.stdout ≢ 0
  pub opened :
      (path : Bytes) (w : W)
      → (streams.fopen path w).0 ≢ 0
      → files (streams.fopen path w).1 ≡ (streams.fopen path w).0 ∷ files w
  pub new : (path : Bytes) (w : W) → (streams.fopen path w).0 ≢ streams.stdout
  pub refused :
      (path : Bytes) (w : W)
      → (streams.fopen path w).0 ≡ 0
      → files (streams.fopen path w).1 ≡ files w
  pub closed :
      (file : ℕ) (rest : List ℕ) (w : W)
      → files w ≡ file ∷ rest
      → files (streams.fclose file w) ≡ rest
  pub printed : (file : ℕ) (text : Bytes) (w : W) → files (streams.vfprintf file text w) ≡ files w

module _ {W : Type 0} (streams : LogStreams W) (files : W → List ℕ)
    (is : IsStreams streams files) where
  -- The files that the logger knows: the log file, if it is one
  abbrev pub known : ℕ → List ℕ
  known file = if not (file == 0) && not (file == streams.stdout) then file ∷ [] else []

  -- The files that are open are those that the logger knows.
  abbrev pub IsHeld : Logger W → Type 0
  IsHeld s = files s.world ≡ known s.s_log_file

  known_zero : (n : ℕ) → n ≡ 0 → known n ≡ []
  known_zero n h = ground arith

  known_stdout : known streams.stdout ≡ []
  known_stdout = ground arith

  known_file : (n : ℕ) → n ≢ 0 → n ≢ streams.stdout → known n ≡ n ∷ []
  known_file n h g = ground arith

  logger_close-None :
      (s : Logger W)
      → IsHeld s
      → Ends (λ _ t. (files t.world ≡ []) × IsHeld t) (logger_close streams s)
  unfolding logger_close
  logger_close-None s h =
      elim (Bool-cases (not (s.s_log_file == 0) && not (s.s_log_file == streams.stdout))) [
        | inl e ↦
            let gone =
              is.closed s.s_log_file [] s.world
                (h ∙ ap (λ b. if b then s.s_log_file ∷ [] else []) e) in
            rw e (ended (gone, gone))
        | inr e ↦ rw e (ended (h ∙ ap (λ b. if b then s.s_log_file ∷ [] else []) e, h))
      ]

  open_log-IsHeld :
      (path : Bytes) (s : Logger W)
      → files s.world ≡ []
      → Ends (λ _ t. IsHeld t) (open_log streams path s)
  unfolding open_log
  open_log-IsHeld path s h =
      let (file, w) = streams.fopen path s.world in
      elim (Bool-cases (file == 0)) [
        | inl e ↦
            let z = (==_iff file 0).0 e in
            ended (is.refused path s.world z ∙ h ∙ sym (known_zero file z))
        | inr e ↦
            let n : file ≢ 0 = λ z. ground (arith, z, e) in
            ended (
              is.opened path s.world n
              ∙ ap (λ xs. file ∷ xs) h
              ∙ sym (known_file file n (is.new path s.world)))
      ]

  close_if_open-none :
      (s : Logger W) → IsHeld s → Ends (λ _ t. files t.world ≡ []) (close_if_open streams s)
  close_if_open-none s h =
      Ends-if (not (s.s_log_file == 0)) _ _ s
        (λ e. Ends-mono (logger_close-None s h) (λ _ t g. g.0))
        (λ e. ended (h ∙ known_zero s.s_log_file (ground arith)))

  logger_init-IsHeld :
      (log_path : Option Bytes) (s : Logger W)
      → IsHeld s
      → Ends (λ _ t. IsHeld t) (logger_init streams log_path s)
  unfolding logger_init
  logger_init-IsHeld log_path s h = Ends-and_then _ (close_if_open-none s h) (λ _ t g.
      elim log_path
        as (λ p.
          Ends (λ _ t. IsHeld t)
            ((elim p as (λ x. Cmd (Logger W) Ret) [
              | some path ↦ open_log streams path
              | none ↦ use_stdout streams
            ])
              t)) [ none ↦ ended (g ∙ sym known_stdout) | some path ↦ open_log-IsHeld path t g ])

  logger_printf-IsHeld :
      (text : Bytes) (s : Logger W)
      → IsHeld s
      → Ends (λ _ t. IsHeld t) (logger_printf streams text s)
  unfolding logger_printf
  logger_printf-IsHeld text s h = elim (Bool-cases (s.s_log_file == 0)) [
    | inl e ↦ rw e faulted
    | inr e ↦ rw e (ended (is.printed s.s_log_file text s.world ∙ h))
  ]

  -- Whatever the calls of the logger, as long as none writes before the log is open, the files that
  -- are open afterwards are exactly the one that the logger knows, or none: no log file is lost.
  pub log_calls-IsHeld :
      (calls : List LogCall) (s : Logger W)
      → IsHeld s
      → Ends (λ _ t. IsHeld t) (log_calls streams calls s)
  unfolding log_calls
  log_calls-IsHeld [] s h = ended h
  log_calls-IsHeld (init log_path ∷ calls) s h =
      Ends-and_then (λ _. log_calls streams calls) (logger_init-IsHeld log_path s h)
        (λ _ t g. log_calls-IsHeld calls t g)
  log_calls-IsHeld (close ∷ calls) s h =
      Ends-and_then (λ _. log_calls streams calls) (logger_close-None s h)
        (λ _ t (_, g). log_calls-IsHeld calls t g)
  log_calls-IsHeld (printf text ∷ calls) s h =
      Ends-and_then (λ _. log_calls streams calls) (logger_printf-IsHeld text s h)
        (λ _ t g. log_calls-IsHeld calls t g)
