-- ===== src/Logger/Tests.antt =====
-- The theorem on common/logger.c at a run of calls, on a system that lists its open files.
use wsn_test_platform.Shared.{ℕ, none, some, List, [], ◌∷◌, refl, ap, Ends, arith}
use wsn_test_platform.Logger.{LogStreams, Logger, init, close, printf, log_calls}
use wsn_test_platform.Logger.Open.{IsStreams, IsHeld, log_calls-IsHeld}

abbrev without_first : List ℕ → List ℕ
without_first [] = []
without_first (file ∷ files) = files

abbrev listed : LogStreams (List ℕ)
listed = record {
  stdout = 1;
  fopen = λ path files. (7, 7 ∷ files);
  fclose = λ file files. without_first files;
  vfprintf = λ file text files. files;
}

listed-IsStreams : IsStreams listed (λ files. files)
listed-IsStreams = record {
  stdout_given = omega arith;
  opened = λ path w h. refl;
  new = λ path w. omega arith;
  refused = λ path w h. absurd (omega arith);
  closed = λ file rest w e. ap without_first e;
  printed = λ file text w. refl;
}

abbrev closed_log : Logger (List ℕ)
closed_log = record { s_log_file = 0; world = [] }

log_calls-IsHeld_example :
    Ends
      (λ _ t. IsHeld listed (λ files. files) listed-IsStreams t)
      (log_calls listed (init (some []) ∷ printf [] ∷ init none ∷ close ∷ []) closed_log)
log_calls-IsHeld_example =
    log_calls-IsHeld listed (λ files. files) listed-IsStreams
      (init (some []) ∷ printf [] ∷ init none ∷ close ∷ []) closed_log refl
