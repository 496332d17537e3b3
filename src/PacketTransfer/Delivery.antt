-- ===== src/PacketTransfer/Delivery.antt =====
-- A command that arrives whole, in `process_one_command` of app/packet_transfer.c, and a response
-- without a pending command.
use wsn_test_platform.Shared.{
  ℕ, zero, suc, get_or, ◌%◌, refl, ap₂, append_assoc, ◌+◌, ◌*◌, ◌≤◌, ◌<◌, false, Option, none, some,
  List, [], ◌∷◌, ◌++◌, ret_ok, ok, fault, and_then, pure, Run, ◌≢◌, get_elem?, get_elem?_past,
  length, set, take, drop, ◌==◌, ◌≡◌, ap, ◌∙◌, arith, length-drop, length-take_of_le,
}
use wsn_test_platform.Protocol.{
  Bytes, node_payload_type_cmd_power_switch, node_payload_type_resp_node_id,
}
use wsn_test_platform.Kernel.{System}
use wsn_test_platform.PacketTransfer.Buffer.{memcpy_at-append}
use wsn_test_platform.PacketTransfer.State.{Command, Machine, call}
use wsn_test_platform.PacketTransfer.Commands.{
  process_one_command, read_header, read_packet, read_socket, handle_command, append_command,
  parse_command,
}
use wsn_test_platform.PacketTransfer.Packets.{with_commands}
use wsn_test_platform.PacketTransfer.Reassembly.{red_call, green_call}
use wsn_test_platform.PacketTransfer.Responses.{handle_response}

differs : (a b : ℕ) → a ≢ b → (a == b) ≡ false
differs a b h = ground arith

get_or-append : (xs ys : Bytes) (y n : ℕ) → length xs ≡ n → get_or (xs ++ (y ∷ ys)) n 0 ≡ y
get_or-append [] ys y zero h = refl
get_or-append [] ys y (suc n) h = absurd (omega (arith, h))
get_or-append (x ∷ xs) ys y zero h = absurd (omega (arith, h))
get_or-append (x ∷ xs) ys y (suc n) h = get_or-append xs ys y n (omega (arith, h))

-- What is stored of a command: the bytes, over what the block held
abbrev pub stored : ℕ → ℕ → ℕ → Bytes → Bytes → Command
stored port type len bs block = record {
  port_id = port;
  type = type;
  to_board_packet_len = len;
  to_board_packet = bs ++ drop (length bs) (take 50 (drop 4 block));
}

module _ {W : Type 0} (sys : System W) where
  -- What the system answers while a command arrives: a block of 54 bytes, the two bytes of the
  -- length, and the packet `bs`.
  pub record Arrives (fd a b : ℕ) (block bs : Bytes) (m : Machine W) (w w₁ w₂ : W) : Type 0 where
    pub socket : m.transfer.uploader_socket ≡ some fd
    pub allocated : sys.malloc 54 m.world ≡ (some block, w)
    pub header : sys.read fd 2 w ≡ (some (a ∷ b ∷ []), w₁)
    pub packet : sys.read fd (a * 256 + b) w₁ ≡ (some bs, w₂)
    pub block_size : length block ≡ 54
    pub nonempty : 0 < length bs
    pub fits : length bs ≤ 50

  -- The command as it is stored: the packet, over what the block held
  abbrev pub arrived : ℕ → ℕ → Bytes → Bytes → Command
  arrived a b block bs =
      parse_command (a * 256 + b) (bs ++ drop (length bs) (take 50 (drop 4 block)))

  nonzero : (n : ℕ) → 0 < n → (n == 0) ≡ false
  nonzero n h = ground arith

  read_socket-run :
      {fd : ℕ} {received : Option Bytes} {after : W} (n : ℕ) (m : Machine W)
      → m.transfer.uploader_socket ≡ some fd
      → sys.read fd n m.world ≡ (received, after)
      → read_socket sys n m ≡ ok received (record { transfer = m.transfer; world = after })
  unfolding read_socket
  read_socket-run {fd} {received} {after} n m socket got =
      ap
        (λ s. elim s as (λ o. Run (Machine W) (Option Bytes)) [
          | none ↦ ok none m
          | some d ↦ call (sys.read d n) m
        ])
        socket
      ∙ ap (λ r. ok r.0 (record { transfer = m.transfer; world = r.1 })) got

  -- A command that arrives whole, of at most fifty bytes, is handed over as the bytes that were read,
  -- over what the block held, and RET_OK is returned.
  process_one_command-arrived :
      {fd a b : ℕ} {block bs : Bytes} {m : Machine W} {w w₁ w₂ : W}
      → Arrives fd a b block bs m w w₁ w₂
      → process_one_command sys m
        ≡ and_then
            (handle_command sys
              (arrived a b block bs)
              (record { transfer = m.transfer; world = w₂ }))
            (λ u. pure ret_ok)
  unfolding process_one_command read_header read_packet
  process_one_command-arrived {a} {b} {block} {bs} {m} {w} {w₁} h =
      let header_room =
        length-take_of_le 2 (drop 2 block) (omega (arith, length-drop 2 block, h.block_size)) in
      let packet_room =
        length-take_of_le 50 (drop 4 block) (omega (arith, length-drop 4 block, h.block_size)) in
      rw (
        process_one_command,
        h.allocated,
        read_header,
        read_socket-run 2 (record { transfer = m.transfer; world = w }) h.socket h.header,
        memcpy_at-append [] (a ∷ b ∷ []) (take 2 (drop 2 block)) (omega (arith, header_room)),
        read_packet,
        read_socket-run (a * 256 + b) (record { transfer = m.transfer; world = w₁ }) h.socket
            h.packet,
        nonzero (length bs) h.nonempty,
        memcpy_at-append [] bs (take 50 (drop 4 block)) (omega (arith, packet_room, h.fits)),
      )

  arrived-stored :
      (a b q type : ℕ) (mid rest block : Bytes)
      → q < 256
      → length mid ≡ 10
      → arrived a b block (suc q ∷ (mid ++ (type ∷ rest)))
        ≡ stored q type (a * 256 + b) (suc q ∷ (mid ++ (type ∷ rest))) block
  arrived-stored a b q type mid rest block small size =
      let bs = suc q ∷ (mid ++ (type ∷ rest)) in
      let free = drop (length bs) (take 50 (drop 4 block)) in
      let port : (suc q + 255) % 256 ≡ q = omega (arith, small) in
      ap₂
        (λ p t. record {
          port_id = p;
          type = t;
          to_board_packet_len = a * 256 + b;
          to_board_packet = bs ++ free;
        })
        port
        (ap (λ l. get_or l 10 0) (append_assoc mid (type ∷ rest) free)
          ∙ get_or-append mid (rest ++ free) type 10 size)

  -- A command of at least twelve and at most fifty bytes that arrives whole, while `malloc` grants the
  -- block of 54 bytes and the list node of 12. Its first byte is q + 1, there is a list q, and its
  -- twelfth byte is not the type of a power switch. Then it is appended to the list q, one below the
  -- number in the packet, as the port q, that type, the length that was announced and the bytes that
  -- arrived, over what the block held. All other lists stay as they are, and RET_OK is returned.
  pub process_one_command-appends :
      {fd a b q type : ℕ} {block : Bytes} {m : Machine W} {w w₁ w₂ w₃ : W} (mid rest node : Bytes)
      (commands : List Command)
      → Arrives fd a b block (suc q ∷ (mid ++ (type ∷ rest))) m w w₁ w₂
      → q < 256
      → length mid ≡ 10
      → type ≢ node_payload_type_cmd_power_switch
      → get_elem? m.transfer.command_set q ≡ some commands
      → sys.malloc 12 w₂ ≡ (some node, w₃)
      → process_one_command sys m
        ≡ ok ret_ok (record {
          transfer =
              with_commands
                (set m.transfer.command_set q (
                  commands
                  ++ (stored q type (a * 256 + b) (suc q ∷ (mid ++ (type ∷ rest))) block ∷ [])))
                m.transfer;
          world = w₃;
        })
  unfolding handle_command append_command
  process_one_command-appends {a} {b} {q} {type} {block} {m} {w₂} mid rest node commands h small
        size other at room =
      process_one_command-arrived h
      ∙ ap
          (λ c.
            and_then (handle_command sys c (record { transfer = m.transfer; world = w₂ }))
              (λ u. pure ret_ok))
          (arrived-stored a b q type mid rest block small size)
      ∙ rw (
        handle_command,
        differs type node_payload_type_cmd_power_switch other,
        at,
        append_command,
        room,
      )

  -- A command of at least twelve and at most fifty bytes that arrives whole, while `malloc` grants the
  -- block of 54 bytes, whose first byte is 0 and whose twelfth is not the type of a power switch, is a
  -- memory fault where there are eight lists: 0 less one is 255 in a byte, and there is no such list.
  pub process_one_command-port_zero :
      {fd a b type : ℕ} {block : Bytes} {m : Machine W} {w w₁ w₂ : W} (mid rest : Bytes)
      → Arrives fd a b block (0 ∷ (mid ++ (type ∷ rest))) m w w₁ w₂
      → length mid ≡ 10
      → type ≢ node_payload_type_cmd_power_switch
      → length m.transfer.command_set ≡ 8
      → process_one_command sys m ≡ fault
  unfolding handle_command append_command
  process_one_command-port_zero {a} {b} {type} {block} {m} {w₂} mid rest h size other eight =
      let free = drop (length (0 ∷ (mid ++ (type ∷ rest)))) (take 50 (drop 4 block)) in
      let type_eq : (arrived a b block (0 ∷ (mid ++ (type ∷ rest)))).type ≡ type =
        ap (λ l. get_or l 10 0) (append_assoc mid (type ∷ rest) free)
        ∙ get_or-append mid (rest ++ free) type 10 size in
      process_one_command-arrived h
      ∙ rw (
        handle_command,
        type_eq,
        differs type node_payload_type_cmd_power_switch other,
        get_elem?_past m.transfer.command_set 255 (omega (arith, eight)),
      )

  -- A response whose port has no pending command is undefined behaviour: `handle_response` deletes
  -- from an empty list, whatever the response's type.
  pub handle_response-faults :
      (m : Machine W)
      → get_elem? m.transfer.command_set m.transfer.response.port_id ≡ some []
      → handle_response sys m ≡ fault
  unfolding handle_response
  handle_response-faults m at = rw (
    red_call sys (m.transfer.response.type == node_payload_type_resp_node_id) m
        (m.transfer.response.port_id + 1),
    green_call sys m (m.transfer.response.port_id + 1),
    at,
  )
