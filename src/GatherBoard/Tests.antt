-- ===== src/GatherBoard/Tests.antt =====
-- The theorems on app/gather_board.c with a driver that logs every command and accepts it.
use wsn_test_platform.Shared.{
  ℕ, true, none, some, List, [], ◌∷◌, ◌++◌, ret_invalid_params, ok, replicate, ◌≡◌,
}
use wsn_test_platform.Kernel.{System}
use wsn_test_platform.GatherBoard.{GatherBoard, gather_board_led_control}
use wsn_test_platform.GatherBoard.Guards.{gather_board_led_control-refused}

-- The log of the commands and their values
abbrev driver : System (List (ℕ × ℕ))
driver = record {
  malloc = λ n w. (some (replicate n 0), w);
  read = λ fd n w. (none, w);
  write = λ fd bs w. w;
  close = λ fd w. w;
  ioctl = λ fd command value w. (true, w ++ ((command, value) ∷ []));
  open_path = λ name w. (some name, w);
}

abbrev board : GatherBoard
board = record { gpio_fd = 3; spi_write_fd = 4; spi_read_fd = 5 }

gather_board_led_control-refused_example :
    gather_board_led_control driver (some board) 1 0 true [] ≡ ok ret_invalid_params []
gather_board_led_control-refused_example =
    gather_board_led_control-refused driver (some board) 1 0 true []
