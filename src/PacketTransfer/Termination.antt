-- ===== src/PacketTransfer/Termination.antt =====
-- The end of `packet_transfer_process` of app/packet_transfer.c.
use wsn_test_platform.Shared.{
  ℕ, zero, suc, ◌+◌, ◌*◌, ◌≤◌, ◌<◌, true, false, Option, none, some, Ret, ret_ok, ret_fail, ok,
  fault, Cmd, pure, ◌>>◌, Ends, ended, faulted, Ends-and_then, Ends-mono, Ends-cases, Settles,
  settled, overrun, Settles-mono, Settles-and_then, get_elem?, get_or, length, ◌==◌, ◌≡◌, ◌∙◌, ap,
  refl, arith, Bool-cases, Option-cases, inl, inr, take, drop,
}
use wsn_test_platform.Protocol.{Bytes, node_payload_type_cmd_power_switch}
use wsn_test_platform.Kernel.{System}
use wsn_test_platform.PacketTransfer.State.{Command, Machine, memcpy_at}
use wsn_test_platform.PacketTransfer.Commands.{
  process_one_command, read_header, read_packet, read_socket, handle_command, append_command,
  parse_command, on_read, store_packet, store_header, on_read, store_packet, store_header,
}
use wsn_test_platform.PacketTransfer.Session.{
  packet_transfer_process, command_loop, is_ok, close_socket, with_socket,
}

-- The peer sends finitely many bytes: `left` bounds what is still to come, a read that succeeds uses
-- up what it delivers, and no other call brings more.
pub record IsFinite {W : Type 0} (sys : System W) (left : W → ℕ) : Type 0 where
  pub read_le : (fd n : ℕ) (w : W) → left (sys.read fd n w).1 ≤ left w
  pub read_some :
      (fd n : ℕ) (w : W) (bs : Bytes)
      → (sys.read fd n w).0 ≡ some bs
      → left (sys.read fd n w).1 + length bs ≤ left w
  pub malloc_le : (n : ℕ) (w : W) → left (sys.malloc n w).1 ≤ left w

nonzero : (n : ℕ) → (n == 0) ≡ false → 0 < n
nonzero n h = ground arith

only_ok : (ret : Ret) → is_ok ret ≡ true → ret ≡ ret_ok
only_ok ret h = grind arith

less : {a b c n : ℕ} → a + n ≤ b → 0 < n → c ≤ a → c < b
less h k l = omega arith

module _ {W : Type 0} (sys : System W) (left : W → ℕ) (finite : IsFinite sys left) where
  -- The machine with the socket that the call brings
  abbrev pub connected : ℕ → Machine W → Machine W
  connected socket m = record { transfer = with_socket (some socket) m.transfer; world = m.world }

  abbrev closed : W → Option ℕ → W
  closed w socket = elim socket [ none ↦ w | some fd ↦ sys.close fd w ]

  abbrev HasSocketOf : Machine W → Machine W → Type 0
  HasSocketOf m n = n.transfer.uploader_socket ≡ m.transfer.uploader_socket

  handle_command-left :
      (command : Command) (m : Machine W)
      → Ends (λ u n. (left n.world ≤ left m.world) × HasSocketOf m n) (handle_command sys command m)
  unfolding handle_command append_command
  handle_command-left command m =
      elim (Bool-cases (command.type == node_payload_type_cmd_power_switch)) [
        | inl power ↦ rw power (ended (omega arith, refl))
        | inr other ↦
            rw other (elim (Option-cases (get_elem? m.transfer.command_set command.port_id)) [
              | inl missing ↦ rw missing faulted
              | inr (commands, at) ↦ rw at (elim (Option-cases (sys.malloc 12 m.world).0) [
                | inl no_memory ↦ rw no_memory (ended (finite.malloc_le 12 m.world, refl))
                | inr (block, node) ↦ rw node (ended (finite.malloc_le 12 m.world, refl))
              ])
            ])
      ]

  read_socket-left :
      (n : ℕ) (m : Machine W)
      → Ends
          (λ r k.
            (left k.world ≤ left m.world)
            × HasSocketOf m k
            × ((bs : Bytes) → r ≡ some bs → left k.world + length bs ≤ left m.world))
          (read_socket sys n m)
  unfolding read_socket
  read_socket-left n m = elim (Option-cases m.transfer.uploader_socket) [
    | inl shut ↦ rw (read_socket, shut) (ended (omega arith, shut, λ bs e. absurd (grind arith)))
    | inr (fd, socket) ↦
        rw (read_socket, socket)
          (ended (finite.read_le fd n m.world, socket, λ bs e. finite.read_some fd n m.world bs e))
  ]

  -- The command goes on after a read that delivered something.
  after_read :
      {Q : Ret → Machine W → Type 0} (received : Option Bytes) (m : Machine W)
      (next : Bytes → Cmd (Machine W) Ret)
      → Q ret_fail m
      → ((bs : Bytes) → received ≡ some bs → (length bs == 0) ≡ false → Ends Q (next bs m))
      → Ends Q (on_read sys next received m)
  after_read none m next failed more = ended failed
  after_read (some bs) m next failed more = elim (Bool-cases (length bs == 0)) [
    | inl empty ↦ rw empty (ended failed)
    | inr some_bytes ↦ rw some_bytes (more bs refl some_bytes)
  ]

  read_packet-left :
      (block : Bytes) (len : ℕ) (m : Machine W)
      → Ends
          (λ ret n. (left n.world ≤ left m.world) × HasSocketOf m n)
          (read_packet sys block len m)
  unfolding read_packet
  read_packet-left block len m =
      Ends-and_then (on_read sys (store_packet sys block len)) (read_socket-left len m)
        (λ received n (le, same, used).
          after_read received n (store_packet sys block len) (le, same)
            (λ bs got filled. elim (Option-cases (memcpy_at 0 bs (take 50 (drop 4 block)))) [
              | inl overflow ↦ rw overflow faulted
              | inr (packet, stored) ↦ rw stored (
                  Ends-and_then (λ u. pure ret_ok)
                    (handle_command-left (parse_command len packet) n)
                    (λ u k (after, kept). ended (omega (arith, le, after), kept ∙ same)))
            ]))

  read_header-left :
      (block : Bytes) (m : Machine W)
      → Ends
          (λ ret n. (is_ok ret ≡ true → left n.world < left m.world) × HasSocketOf m n)
          (read_header sys block m)
  unfolding read_header
  read_header-left block m =
      Ends-and_then (on_read sys (store_header sys block)) (read_socket-left 2 m)
        (λ received n (le, same, used).
          after_read received n (store_header sys block) (λ e. absurd (grind arith), same)
            (λ bs got filled. elim (Option-cases (memcpy_at 0 bs (take 2 (drop 2 block)))) [
              | inl overflow ↦ rw overflow faulted
              | inr (header, stored) ↦ rw stored (
                  Ends-mono (read_packet-left block (get_or header 0 0 * 256 + get_or header 1 0) n)
                    (λ ret k (after, kept).
                      (λ e. less (used bs got) (nonzero (length bs) filled) after, kept ∙ same)))
            ]))

  process_one_command-left :
      (m : Machine W)
      → Ends
          (λ ret n. (is_ok ret ≡ true → left n.world < left m.world) × HasSocketOf m n)
          (process_one_command sys m)
  unfolding process_one_command
  process_one_command-left m = elim (Option-cases (sys.malloc 54 m.world).0) [
    | inl no_memory ↦ rw no_memory (ended (λ e. absurd (grind arith), refl))
    | inr (block, allocated) ↦ rw allocated (
        Ends-mono
          (read_header-left block
            (record { transfer = m.transfer; world = (sys.malloc 54 m.world).1 }))
          (λ ret n (after, kept). (λ e. omega (arith, after e, finite.malloc_le 54 m.world), kept)))
  ]

  -- The first commands of a connection, each answered with RET_OK, lead from one machine to another.
  pub data Serves : Machine W → Machine W → Type 0 where
    here : {m : Machine W} → Serves m m
    later : {m n k : Machine W} → process_one_command sys m ≡ ok ret_ok n → Serves n k → Serves m k

  -- The loop's end: a command that is not answered with RET_OK
  abbrev pub Stops : Machine W → Machine W → Type 0
  Stops m n =
      (k : Machine W) × (ret : Ret) × Serves m k
      × (process_one_command sys k ≡ ok ret n)
      × (is_ok ret ≡ false)

  -- A command that is a memory fault
  abbrev pub Faults : Machine W → Type 0
  Faults m = (k : Machine W) × Serves m k × (process_one_command sys k ≡ fault)

  command_loop-Ends :
      (k : ℕ) (m : Machine W)
      → left m.world < k
      → Settles (λ u n. Stops m n × HasSocketOf m n) (Faults m) (command_loop sys k m)
  unfolding command_loop
  command_loop-Ends zero m h = absurd (omega arith)
  command_loop-Ends (suc k) m h = elim (Ends-cases (process_one_command-left m)) [
    | inr faults ↦ rw faults (overrun (m, here, faults))
    | inl (ret, n, run, (down, same)) ↦ rw run (elim (Bool-cases (is_ok ret)) [
      | inl again ↦
          let one = run ∙ ap (λ r. ok r n) (only_ok ret again) in
          rw again (
            Settles-mono (command_loop-Ends k n (omega (arith, h, down again)))
              (λ u l ((j, stop, serves, last, bad), kept).
                ((j, stop, later one serves, last, bad), kept ∙ same))
              (λ (j, serves, faults). (j, later one serves, faults)))
      | inr stop ↦ rw stop (settled ((m, ret, here, run, stop), same))
    ])
  ]

  -- A connection whose peer sends finitely many bytes comes to its end, given more rounds than there
  -- are bytes: after commands that are answered with RET_OK comes one that is not, and
  -- `packet_transfer_process` closes the socket it was given, sets it to -1 and returns RET_OK; or
  -- one of the commands is a memory fault, and with it the whole.
  pub packet_transfer_process-Ends :
      (fuel socket : ℕ) (m : Machine W)
      → left m.world < fuel
      → Settles
          (λ ret n.
            (ret ≡ ret_ok)
            × (n.transfer.uploader_socket ≡ none)
            × ((k : Machine W) × Stops (connected socket m) k
                × (n.world ≡ sys.close socket k.world)))
          (Faults (connected socket m))
          (packet_transfer_process sys fuel (some socket) m)
  unfolding packet_transfer_process
  packet_transfer_process-Ends fuel socket m h =
      Settles-and_then (λ u. close_socket sys >> pure ret_ok)
        (command_loop-Ends fuel (connected socket m) h)
        (λ u k (stops, same). settled (refl, refl, (k, stops, ap (closed k.world) same)))
