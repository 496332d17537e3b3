-- ===== src/Reprogrammer/Tests.antt =====
-- The theorems on app/reprogrammer.c in a system with one message of the peer and a log of the
-- descriptors that are closed.
use wsn_test_platform.Shared.{
  ℕ, zero, suc, ◌^◌, true, none, some, List, [], ◌∷◌, ◌++◌, ret_ok, ret_invalid_params, ok, length,
  replicate, take, ◌≡◌, ◌≤◌, ◌≤◌, refl, arith, Returns,
}
use wsn_test_platform.Protocol.{Bytes}
use wsn_test_platform.Kernel.{System, Streams}
use wsn_test_platform.Reprogrammer.{
  Machine, ReprogStatus, reprog_command, reprogrammer_process, reprogrammer_node_program_setup,
  reprogrammer_node_program_doing, reprogrammer_node_program_end,
}
use wsn_test_platform.Reprogrammer.Session.{
  ReadFits, closed, connected, reprogrammer_process-Returns, reprogrammer_node_program-refused,
}

-- The command for node 3 and a file of one byte
abbrev command : Bytes
command = 3 ∷ b'P' ∷ b'R' ∷ b'O' ∷ b'G' ∷ b'V' ∷ b'3' ∷ 0 ∷ 0 ∷ 0 ∷ 1 ∷ []

abbrev peer : System (List ℕ)
peer = record {
  malloc = λ n w. (none, w);
  read = λ fd n w. (some (take n command), w);
  write = λ fd bs w. w;
  close = λ fd w. w ++ (fd ∷ []);
  ioctl = λ fd cmd value w. (true, w);
  open_path = λ name w. (none, w);
}

-- No file can be opened.
abbrev full_disk : Streams (List ℕ)
full_disk = record { fopen = λ path mode w. (0, w); contents = λ fd w. [] }

abbrev start : Machine (List ℕ)
start = record {
  address = 4096;
  thiz = record { hex_fd = none; server_socket = none; gather_board = none };
  world = [];
}

length-take : (n : ℕ) (xs : Bytes) → length (take n xs) ≤ n
length-take zero xs = omega arith
length-take (suc n) [] = omega arith
length-take (suc n) (x ∷ xs) = omega (arith, length-take n xs)

peer-ReadFits : ReadFits peer
peer-ReadFits fd n w bs e = grind (arith, length-take n command)

reprogrammer_process-Returns_example :
    Returns
      (λ ret m'.
        (ret ≡ ret_ok)
        × (m'.thiz.server_socket ≡ none)
        × (m'.thiz.hex_fd ≡ none)
        × ((state : ReprogStatus) × (k : Machine (List ℕ)) × (reprog_command peer full_disk
                (2 ^ 31)
                true
                ret_ok
                []
                (replicate 11 0)
                (connected peer full_disk (some 7) start)
              ≡ ok state k)
            × (m'.world
                ≡ closed peer full_disk k.thiz.hex_fd (closed peer full_disk (some 7) k.world))))
      (reprogrammer_process peer full_disk
        (2 ^ 31)
        true
        (some 7)
        true
        ret_ok
        []
        (replicate 11 0)
        start)
reprogrammer_process-Returns_example =
    reprogrammer_process-Returns peer full_disk (2 ^ 31) (some 7) true ret_ok [] (replicate 11 0)
      start peer-ReadFits refl (omega arith)

reprogrammer_node_program-refused_example :
    (reprogrammer_node_program_setup peer full_disk start ≡ ok ret_invalid_params start)
    × (reprogrammer_node_program_doing peer full_disk true ret_ok [] start
        ≡ ok ret_invalid_params start)
    × (reprogrammer_node_program_end peer full_disk start ≡ ok ret_invalid_params start)
reprogrammer_node_program-refused_example =
    reprogrammer_node_program-refused peer full_disk true ret_ok [] start
