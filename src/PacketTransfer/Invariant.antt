-- ===== src/PacketTransfer/Invariant.antt =====
-- The bounds of the state of app/packet_transfer.c: the packet buffer, its length and the number of
-- command lists; and the packets from the board that end in a memory fault.
use wsn_test_platform.Shared.{
  ◌>>◌, ℕ, ◌+◌, ◌%◌, ◌≤◌, ◌<◌, true, Option, none, some, List, [], ◌∷◌, and_then, pure, ret_ok, Run,
  Cmd, ◌≢◌, Settles, settled, overrun, Settles-and_then, Settles-mono, length, take, ◌⊎◌,
  if◌then◌else◌, ◌≡◌, ◌∙◌, Bool-cases, inl, inr, length-set, Option-cases, get_elem?, get_or, ◌==◌,
  refl, ap, subst, arith,
}
use wsn_test_platform.Protocol.{Bytes, node_payload_type_resp_node_id}
use wsn_test_platform.PacketTransfer.Reassembly.{red_call, green_call}
use wsn_test_platform.DList.Client.{find_datum, delete_datum}
use wsn_test_platform.Kernel.{System}
use wsn_test_platform.Util.Parity.{even_check-parity, parity}
use wsn_test_platform.PacketTransfer.State.{
  PacketState, in_packet, out_packet, PacketTransfer, Response, Machine, put_transfer, or_fault,
}
use wsn_test_platform.PacketTransfer.Responses.{
  process_one_response, accepted, current_response, data_packet, handle_response,
}
use wsn_test_platform.PacketTransfer.Packets.{
  current_packet, first_fragment, next_fragment, is_first, is_last, is_invalid, is_current,
  with_response, response_find_cb, node_type_convert_resp_to_cmd, resp_b_get_data_len,
}
use wsn_test_platform.PacketTransfer.Fits.{
  IsBounded, Fits, FitsIfAny, current_packet-Fits, first_fragment-Fits, next_fragment-Fits,
  is_short,
}
use wsn_test_platform.PacketTransfer.Room.{
  current_packet-some, first_fragment-some, next_fragment-none, next_fragment-port_id,
}

-- No command is pending at a port: it has no list, or an empty one.
abbrev pub IsIdle : PacketTransfer → ℕ → Type 0
IsIdle t port = (get_elem? t.command_set port ≡ none) ⊎ (get_elem? t.command_set port ≡ some [])

-- The packets that do damage: inside a packet, one with more bytes than the buffer has room for, or the
-- last, with fewer than ten bytes or a delimiter at its end, where no command is pending at the port.
abbrev pub Damages : Bytes → PacketTransfer → Type 0
Damages f t =
    (t.packet_state ≡ in_packet)
    × ((256 < t.response.node_packet_len + get_or f 0 0 % 16)
        ⊎ (((get_or f 0 0 % 16 ≢ 10) ⊎ (get_or f 14 0 ≡ 0x7e)) × IsIdle t t.response.port_id))

ends_packet : (f : Bytes) → is_last f ≡ true → (get_or f 0 0 % 16 ≢ 10) ⊎ (get_or f 14 0 ≡ 0x7e)
ends_packet f h = elim (Bool-cases (get_or f 0 0 % 16 == 10)) [
  | inl full ↦ inr (ground arith)
  | inr short ↦ inl (λ e. ground arith)
]

empty_list :
    {A : Type 0} (j : ℕ) (commands : List A) → delete_datum j commands ≡ none → commands ≡ []
empty_list j [] e = refl
empty_list j (c ∷ commands) e = absurd (grind arith)

or_fault-Settles :
    {W B : Type 0} {Q : B → Machine W → Type 0} {F : Type 0} (o : Option Response)
    (k : Response → Cmd (Machine W) B) (m : Machine W)
    → FitsIfAny o
    → (o ≡ none → F)
    → ((r : Response) → o ≡ some r → Fits r → Settles Q F (k r m))
    → Settles Q F (and_then (or_fault o m) k)
or_fault-Settles none k m h damage next = overrun (damage refl)
or_fault-Settles (some r) k m h damage next = next r refl h

abbrev Bounded : {W A : Type 0} → Type 0 → Run (Machine W) A → Type 0
Bounded F = Settles (λ a n. IsBounded n.transfer) F

module _ {W : Type 0} (sys : System W) where
  handle_response-IsBounded :
      (m : Machine W)
      → IsBounded m.transfer
      → Bounded (IsIdle m.transfer m.transfer.response.port_id) (handle_response sys m)
  unfolding handle_response
  handle_response-IsBounded m h =
      rw
        (
          red_call sys (m.transfer.response.type == node_payload_type_resp_node_id) m
              (m.transfer.response.port_id + 1),
          green_call sys m (m.transfer.response.port_id + 1),
        )
        (elim (Option-cases (get_elem? m.transfer.command_set m.transfer.response.port_id)) [
          | inl none_there ↦ rw none_there (overrun (inl refl))
          | inr (commands, at) ↦
              rw at
                (elim (Option-cases (
                  delete_datum
                    (find_datum
                      (response_find_cb (node_type_convert_resp_to_cmd m.transfer.response.type))
                      commands)
                    commands)) [
                      | inl empty ↦ rw empty (overrun (inr (ap some (empty_list _ commands empty))))
                      | inr (left, done) ↦ rw done (
                          settled (record {
                            buffer = h.buffer;
                            len = h.len;
                            ports =
                                length-set m.transfer.command_set m.transfer.response.port_id left
                                ∙ h.ports;
                          }))
                    ])
        ])

  same_port : {a b : ℕ} (m : Machine W) → a ≡ b → IsIdle m.transfer a → IsIdle m.transfer b
  same_port m e idle = subst (λ p. IsIdle m.transfer p) e idle

  fragment-IsBounded :
      (f : Bytes) (m : Machine W) (state : PacketState)
      → length f ≡ 16
      → resp_b_get_data_len (get_or f 0 0) ≤ 10
      → IsBounded m.transfer
      → m.transfer.packet_state ≡ state
      → Bounded (Damages f m.transfer) (data_packet sys f m.transfer state m)
  unfolding data_packet
  fragment-IsBounded f m out_packet size short h now = elim (Bool-cases (is_first f)) [
    | inr other ↦ rw other (settled h)
    | inl first ↦ rw first (
        or_fault-Settles (first_fragment f)
          (λ response. do put_transfer (with_response response in_packet m.transfer); pure ret_ok) m
          (first_fragment-Fits f) (λ e. absurd (first_fragment-some f size short e))
          (λ r e fits. settled (record { buffer = fits.buffer; len = fits.len; ports = h.ports })))
  ]
  fragment-IsBounded f m in_packet size short h now =
      or_fault-Settles (next_fragment m.transfer.response f (is_last f))
        (λ response. do
          put_transfer
              (with_response response (if is_last f then out_packet else in_packet) m.transfer)
          (if is_last f then handle_response sys else pure tt)
          pure ret_ok)
        m
        (next_fragment-Fits m.transfer.response f (is_last f) size short
          (record { buffer = h.buffer; len = h.len }))
        (λ e.
          (now, inl (next_fragment-none m.transfer.response f (is_last f) h.buffer size short e)))
        (λ r e fits. elim (Bool-cases (is_last f)) [
          | inr more ↦
              rw more (settled (record { buffer = fits.buffer; len = fits.len; ports = h.ports }))
          | inl last ↦ rw last (
              Settles-and_then (λ u. pure ret_ok)
                (Settles-mono
                  (handle_response-IsBounded
                    (record { transfer = with_response r out_packet m.transfer; world = m.world })
                    (record { buffer = fits.buffer; len = fits.len; ports = h.ports }))
                  (λ u n bounded. bounded)
                  (λ idle. (
                    now,
                    inr (
                      ends_packet f last,
                      same_port m (next_fragment-port_id m.transfer.response r f (is_last f) e)
                          idle,
                    ),
                  )))
                (λ u n bounded. settled bounded))
        ])

  -- After a packet of sixteen bytes, whatever they are, the bounds hold if they held before it:
  -- `process_one_response` returns, and the packet buffer has its 256 bytes, the packet's length is at
  -- most that, and there are eight command lists. The only packets that end in a memory fault instead
  -- come inside a packet: one with more bytes than the buffer has room for, and a last one where no
  -- command is pending at the port.
  pub process_one_response-IsBounded :
      (f : Bytes) (m : Machine W)
      → length f ≡ 16
      → IsBounded m.transfer
      → Settles
          (λ ret n. IsBounded n.transfer)
          (Damages f m.transfer)
          (process_one_response sys f m)
  unfolding process_one_response accepted current_response
  process_one_response-IsBounded f m size h =
      rw (even_check-parity f 15 (omega (arith, size)))
        (elim (Bool-cases (parity (take 16 f) == 0)) [
          | inr odd ↦ rw odd (settled h)
          | inl even ↦ rw even (elim (Bool-cases (is_invalid f)) [
            | inl invalid ↦ rw invalid (settled h)
            | inr valid ↦ rw valid (elim (Bool-cases (is_current f)) [
              | inl current ↦ rw current (
                  or_fault-Settles (current_packet m.transfer.response f)
                    (λ response. do
                      put_transfer (with_response response m.transfer.packet_state m.transfer)
                      pure ret_ok)
                    m (current_packet-Fits m.transfer.response f h.buffer)
                    (λ e. absurd (current_packet-some m.transfer.response f h.buffer h.len size e))
                    (λ r e fits.
                      settled (record { buffer = fits.buffer; len = fits.len; ports = h.ports })))
              | inr payload ↦ rw payload (
                  fragment-IsBounded f m m.transfer.packet_state size
                    (is_short (get_or f 0 0) valid payload) h refl)
            ])
          ])
        ])
