-- ===== src/Reprogrammer/Session.antt =====
-- How a session of app/reprogrammer.c ends.
use wsn_test_platform.Shared.{
  ◌>>◌, ℕ, zero, suc, ◌+◌, ◌-◌, ◌^◌, ◌≤◌, ◌<◌, Bool, true, false, not, Option, none, some, [], ◌∷◌,
  ◌++◌, Ret, ret_ok, ret_invalid_params, ret_fail, ok, pure, ◌==◌, leb, take, drop, length, ◌≡◌,
  refl, arith, inl, inr, Bool-cases, Option-cases, Returns, returns, Returns-and_then, Returns-if,
  Returns-mono, Returns-value, ◌∙◌, Returns-option, Returns-ret, ==_self, ap,
}
use wsn_test_platform.Protocol.{Bytes}
use wsn_test_platform.Kernel.{System, Streams}
use wsn_test_platform.PacketTransfer.State.{memcpy_at}
use wsn_test_platform.Reprogrammer.{
  Machine, ReprogStatus, recv_buf_size, reprog_status_success, same_bytes, to_int, ntohl_at,
  reprog_cmd_prefix_str, hex_file_recv_path, close_fd, read_socket, write_hex, close_all,
  reprogrammer_node_program_setup, reprogrammer_node_program_doing, reprogrammer_node_program_end,
  receive_loop, reprogrammer_receive_hex_file, reprogram, reprog_command, reprogrammer_process,
}

-- A read delivers no more than it was asked for.
abbrev pub ReadFits : {W : Type 0} → System W → Type 0
ReadFits {W = W} sys =
    (fd n : ℕ) (w : W) (bs : Bytes) → (sys.read fd n w).0 ≡ some bs → length bs ≤ n

to_int_bound : (n : ℕ) → to_int n < 2 ^ 31
to_int_bound n = ground arith

leb_le : (a b : ℕ) → a ≤ b → leb a b ≡ true
leb_le a b h = ground arith

leb_zero : (n : ℕ) → leb n 0 ≡ false → 0 < n
leb_zero n h = ground arith

nonempty : (n : ℕ) → (n == 0) ≡ false → 0 < n
nonempty n h = ground arith

memcpy_fits :
    (bs stack : Bytes) → length bs ≤ length stack → (cs : Bytes) × (memcpy_at 0 bs stack ≡ some cs)
memcpy_fits bs stack h = (
  bs ++ drop (length bs) stack,
  rw (leb_le (0 + length bs) (length stack) (omega (arith, h)))
      (ap (λ n. some (bs ++ drop n stack)) (omega arith)),
)

module _ {W : Type 0} (sys : System W) (files : Streams W) where
  abbrev KeepsSocket : {A : Type 0} → Machine W → A → Machine W → Type 0
  KeepsSocket m a k = k.thiz.server_socket ≡ m.thiz.server_socket

  abbrev pub closed : Option ℕ → W → W
  closed fd w = elim fd [ none ↦ w | some d ↦ sys.close d w ]

  -- The machine with the socket that the call brings
  abbrev pub connected : Option ℕ → Machine W → Machine W
  connected socket m = record {
    address = m.address;
    thiz = record {
      hex_fd = m.thiz.hex_fd;
      server_socket = socket;
      gather_board = m.thiz.gather_board;
    };
    world = m.world;
  }

  read_socket-Returns :
      (n : ℕ) (m : Machine W) → Returns (KeepsSocket m) (read_socket sys files n m)
  read_socket-Returns n m = elim (Option-cases m.thiz.server_socket) [
    | inl shut ↦ rw shut (returns refl)
    | inr (fd, open_socket) ↦ rw open_socket (returns refl)
  ]

  write_hex-Returns :
      (bs : Bytes) (m : Machine W) → Returns (KeepsSocket m) (write_hex sys files bs m)
  write_hex-Returns bs m = elim (Option-cases m.thiz.hex_fd) [
    | inl shut ↦ rw shut (returns refl)
    | inr (fd, stream) ↦ rw stream (returns refl)
  ]

  receive_loop-Returns :
      (k n : ℕ) (m : Machine W) → n < k → Returns (KeepsSocket m) (receive_loop sys files k n m)
  unfolding receive_loop
  receive_loop-Returns zero n m h = absurd (omega arith)
  receive_loop-Returns (suc k) n m h =
      Returns-if (leb n 0) (pure ret_ok) _ m (λ done. returns refl)
        (λ more. Returns-and_then (read_socket-Returns recv_buf_size m) (λ received m' u.
          Returns-option received (pure ret_fail) _ m' (returns u) (λ bs got.
            Returns-if (length bs == 0) (pure ret_fail) _ m' (λ empty. returns u)
              (λ filled. Returns-and_then (write_hex-Returns bs m') (λ v m'' w.
                Returns-mono
                  (receive_loop-Returns k (n - length bs) m''
                    (omega (arith, h, leb_zero n more, nonempty (length bs) filled)))
                  (λ ret k' e. e ∙ w ∙ u))))))

  receive-Returns :
      (fuel n : ℕ) (m : Machine W)
      → n < fuel
      → Returns (KeepsSocket m) (reprogrammer_receive_hex_file sys files fuel n m)
  unfolding reprogrammer_receive_hex_file
  receive-Returns fuel n m h =
      elim (Bool-cases ((files.fopen hex_file_recv_path (b'w' ∷ b'+' ∷ []) m.world).0 == 0)) [
        | inl failed ↦ rw failed (returns refl)
        | inr opened ↦ rw opened (receive_loop-Returns fuel n _ h)
      ]

  -- No step of the programming runs: its three parts compare the object with itself and refuse with
  -- RET_INVALID_PARAMS, in every state, so that the received file is never read and no line of it
  -- reaches the callback.
  pub reprogrammer_node_program-refused :
      (memory : Bool) (indeterminate : Ret) (stale : Bytes) (m : Machine W)
      → (reprogrammer_node_program_setup sys files m ≡ ok ret_invalid_params m)
        × (reprogrammer_node_program_doing sys files memory indeterminate stale m
            ≡ ok ret_invalid_params m)
        × (reprogrammer_node_program_end sys files m ≡ ok ret_invalid_params m)
  unfolding reprogrammer_node_program_setup reprogrammer_node_program_doing
      reprogrammer_node_program_end
  reprogrammer_node_program-refused memory indeterminate stale m =
      (rw (==_self m.address), rw (==_self m.address), rw (==_self m.address))

  programmed :
      (memory : Bool) (indeterminate : Ret) (stale : Bytes) (m : Machine W)
      → (do
        reprogrammer_node_program_setup sys files
        reprogrammer_node_program_doing sys files memory indeterminate stale
        reprogrammer_node_program_end sys files
        pure reprog_status_success)
          m
        ≡ ok reprog_status_success m
  programmed memory indeterminate stale m =
      let (setup, doing, end) = reprogrammer_node_program-refused memory indeterminate stale m in
      rw (setup, doing, end)

  reprogram-Returns :
      (fuel : ℕ) (memory : Bool) (indeterminate : Ret) (stale header : Bytes) (m : Machine W)
      → 2 ^ 31 ≤ fuel
      → Returns (KeepsSocket m) (reprogram sys files fuel memory indeterminate stale header m)
  unfolding reprogram
  reprogram-Returns fuel memory indeterminate stale header m h =
      Returns-if (not (same_bytes (take 6 (drop 1 header)) reprog_cmd_prefix_str)) _ _ m
        (λ bad. returns refl)
        (λ good.
          Returns-and_then
            (receive-Returns fuel (to_int (ntohl_at 7 header)) m
              (omega (arith, h, to_int_bound (ntohl_at 7 header))))
            (λ ret m' u.
              Returns-ret ret _ _ m' (rw (programmed memory indeterminate stale m') (returns u))
                (returns u)))

  reprog_command-Returns :
      (fuel : ℕ) (memory : Bool) (indeterminate : Ret) (stale stack : Bytes) (m : Machine W)
      → ReadFits sys
      → length stack ≡ 11
      → 2 ^ 31 ≤ fuel
      → Returns (KeepsSocket m) (reprog_command sys files fuel memory indeterminate stale stack m)
  unfolding reprog_command
  reprog_command-Returns fuel memory indeterminate stale stack m fits n h =
      elim (Option-cases m.thiz.server_socket) [
        | inl shut ↦ rw (read_socket, shut) (returns shut)
        | inr (fd, socket) ↦
            rw (read_socket, socket)
              (Returns-option (sys.read fd 11 m.world).0 _ _ _ (returns socket) (λ bs got.
                let (header, copied) =
                  memcpy_fits bs stack (omega (arith, n, fits fd 11 m.world bs got)) in
                rw copied (
                  Returns-mono (reprogram-Returns fuel memory indeterminate stale header _ h)
                    (λ ret k e. e ∙ socket))))
      ]

  close_fd-closed : (fd : Option ℕ) (w : W) → (close_fd sys files fd w).1 ≡ closed fd w
  close_fd-closed none w = refl
  close_fd-closed (some fd) w = refl

  closes :
      (k : Machine W) (socket : Option ℕ)
      → k.thiz.server_socket ≡ socket
      → (close_fd sys files k.thiz.hex_fd (close_fd sys files k.thiz.server_socket k.world).1).1
        ≡ closed k.thiz.hex_fd (closed socket k.world)
  closes k socket same =
      close_fd-closed k.thiz.hex_fd (close_fd sys files k.thiz.server_socket k.world).1
      ∙ ap (closed k.thiz.hex_fd)
          (close_fd-closed k.thiz.server_socket k.world ∙ ap (λ fd. closed fd k.world) same)

  -- A session ends, if reads deliver no more than was asked for, the header's buffer has its eleven
  -- bytes, and there are 2^31 rounds of fuel: whatever failed on the way, `reprogrammer_process` comes
  -- to its end, closes the socket it was given and then the stream that the command has left, where
  -- they are not -1, sets both to -1 and returns RET_OK.
  pub reprogrammer_process-Returns :
      (fuel : ℕ) (socket : Option ℕ) (memory : Bool) (indeterminate : Ret) (stale stack : Bytes)
      (m : Machine W)
      → ReadFits sys
      → length stack ≡ 11
      → 2 ^ 31 ≤ fuel
      → Returns
          (λ ret m'.
            (ret ≡ ret_ok)
            × (m'.thiz.server_socket ≡ none)
            × (m'.thiz.hex_fd ≡ none)
            × ((state : ReprogStatus) × (k : Machine W) × (reprog_command sys files fuel memory
                    indeterminate stale stack
                    (connected socket m)
                  ≡ ok state k)
                × (m'.world ≡ closed k.thiz.hex_fd (closed socket k.world))))
          (reprogrammer_process sys files fuel true socket memory indeterminate stale stack m)
  unfolding reprogrammer_process close_all
  reprogrammer_process-Returns fuel socket memory indeterminate stale stack m fits n h =
      let (state, k, run, same) = Returns-value (
        reprog_command-Returns fuel memory indeterminate stale stack (connected socket m) fits n
          h) in
      rw run (returns (refl, refl, refl, (state, k, refl, closes k socket same)))

  -- A command with the right prefix whose file cannot be created: NULL is not -1, so that after the
  -- socket the descriptor 0, standard input, is closed; the answer is RET_OK.
  pub reprogrammer_process-closes_zero :
      (fuel socket : ℕ) (memory : Bool) (indeterminate : Ret) (stale stack bs header : Bytes)
      (m : Machine W)
      → (sys.read socket 11 m.world).0 ≡ some bs
      → memcpy_at 0 bs stack ≡ some header
      → same_bytes (take 6 (drop 1 header)) reprog_cmd_prefix_str ≡ true
      → (files.fopen hex_file_recv_path (b'w' ∷ b'+' ∷ []) (sys.read socket 11 m.world).1).0 ≡ 0
      → reprogrammer_process sys files fuel true (some socket) memory indeterminate stale stack m
        ≡ ok ret_ok (record {
          address = m.address;
          thiz = record { hex_fd = none; server_socket = none; gather_board = m.thiz.gather_board };
          world = sys.close 0 (
              sys.close socket
                (files.fopen hex_file_recv_path
                  (b'w' ∷ b'+' ∷ [])
                  (sys.read socket 11 m.world).1).1);
        })
  unfolding reprogrammer_process reprog_command reprogram reprogrammer_receive_hex_file close_all
  reprogrammer_process-closes_zero fuel socket memory indeterminate stale stack bs header m got
        copied prefix null =
      rw (got, copied, prefix, null)
