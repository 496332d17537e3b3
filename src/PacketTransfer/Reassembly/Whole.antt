-- ===== src/PacketTransfer/Reassembly/Whole.antt =====
-- A whole node packet through `process_one_response` of app/packet_transfer.c, and what the field
-- `type` of the response really is.
use wsn_test_platform.Shared.{
  ℕ, zero, suc, ◌+◌, ◌≤◌, ◌<◌, true, false, some, List, [], ◌∷◌, ◌++◌, Cmd, pure, ◌>>◌, get_elem?,
  get_or, take, length, ◌≡◌, refl, sym, ap, ◌∙◌, arith, Returns, returns, Returns-and_then,
  Returns-mono, All, append-nil, append_assoc, length-append, ◌==◌, bit_xor,
}
use wsn_test_platform.Protocol.{Bytes}
use wsn_test_platform.Kernel.{System}
use wsn_test_platform.Util.Parity.{parity, parity-append, even_check-parity, parity_one}
use wsn_test_platform.Util.Xor.{bit_xor_self, bit_xor-cancel}
use wsn_test_platform.PacketTransfer.State.{PacketTransfer, Command, out_packet, Machine}
use wsn_test_platform.PacketTransfer.Responses.{process_one_response}
use wsn_test_platform.PacketTransfer.Packets.{fragment_data, is_first, is_last, resp_b_get_port_id}
use wsn_test_platform.PacketTransfer.Reassembly.{first_step, middle_step, last_step}
use wsn_test_platform.PacketTransfer.Fragments.{IsData, Inside, Complete}

unfoldable pub all_data : List Bytes → Bytes
all_data [] = []
all_data (f ∷ fs) = fragment_data f ++ all_data fs

-- A fragment in the middle of a packet
pub record IsMiddle (f : Bytes) : Type 0 where
  pub is_data : IsData f
  pub more : is_last f ≡ false

take_snoc :
    (xs : Bytes) (n d : ℕ) → n < length xs → take (suc n) xs ≡ take n xs ++ (get_or xs n d ∷ [])
take_snoc [] n d h = absurd (omega arith)
take_snoc (x ∷ xs) zero d h = refl
take_snoc (x ∷ xs) (suc n) d h = ap (λ r. x ∷ r) (take_snoc xs n d (omega arith))

zero_of_test : (x : ℕ) → some (x == 0) ≡ some true → x ≡ 0
zero_of_test x h = ground arith

parity_byte : (f : Bytes) → IsData f → get_or f 15 0 ≡ parity (take 15 f)
unfolding parity
parity_byte f is =
    let sum =
      zero_of_test (parity (take 16 f))
        (sym (even_check-parity f 15 (omega (arith, is.size))) ∙ is.even) in
    let split =
      ap parity (take_snoc f 15 0 (omega (arith, is.size)))
      ∙ parity-append (take 15 f) (get_or f 15 0 ∷ []) in
    bit_xor-cancel (parity (take 15 f)) (get_or f 15 0) (parity (take 15 f)) (
      ap (bit_xor (parity (take 15 f))) (sym (parity_one (get_or f 15 0)))
      ∙ sym split
      ∙ sum
      ∙ sym (bit_xor_self (parity (take 15 f))))

module _ {W : Type 0} (sys : System W) where
  -- The packets from the board one after another
  unfoldable pub receive : List Bytes → Cmd (Machine W) (Unit {0})
  receive [] = pure tt
  receive (f ∷ fs) = do process_one_response sys f; receive fs

  rest_of_packet :
      {before : PacketTransfer} {port type : ℕ} (bs : Bytes) (fs : List Bytes) (last : Bytes)
      (c : Command) (cs : List Command) (m : Machine W)
      → Inside before port type bs m.transfer
      → All IsMiddle fs
      → IsData last
      → is_last last ≡ true
      → length bs + length (all_data fs) + length (fragment_data last) ≤ 256
      → get_elem? before.command_set port ≡ some (c ∷ cs)
      → Returns
          (λ u n. Complete port type (bs ++ all_data fs ++ fragment_data last) n.transfer)
          (receive (fs ++ (last ∷ [])) m)
  unfolding receive all_data
  rest_of_packet bs [] last c cs m inside middle is end fits pending =
      Returns-and_then (last_step sys bs last c cs m inside is end (omega arith) pending)
        (λ ret n complete. returns (rw (append-nil bs) complete))
  rest_of_packet {port} {type} bs (f ∷ fs) last c cs m inside (here, there) is end fits pending =
      Returns-and_then
        (middle_step sys bs f m inside here.is_data here.more
          (omega (arith, length-append (fragment_data f) (all_data fs))))
        (λ ret n after. rw (sym (append_assoc bs (fragment_data f) (all_data fs))) (
          rest_of_packet (bs ++ fragment_data f) fs last c cs n after there is end
            (omega (
              arith,
              length-append (fragment_data f) (all_data fs),
              length-append bs (fragment_data f),
            ))
            pending))

  -- Outside a packet, a first fragment, fragments in the middle and a last one, of at most 256 bytes
  -- of data together, leave the response finished with exactly their data in order, the port of the
  -- first, and the state machine outside a packet, if a command is pending at that port.
  pub process_one_response-reassembles :
      (first : Bytes) (fs : List Bytes) (last : Bytes) (c : Command) (cs : List Command)
      (m : Machine W)
      → m.transfer.packet_state ≡ out_packet
      → IsData first
      → is_first first ≡ true
      → All IsMiddle fs
      → IsData last
      → is_last last ≡ true
      → length (fragment_data first) + length (all_data fs) + length (fragment_data last) ≤ 256
      → get_elem? m.transfer.command_set (resp_b_get_port_id (get_or first 0 0)) ≡ some (c ∷ cs)
      → Returns
          (λ u n.
            Complete
              (resp_b_get_port_id (get_or first 0 0))
              (get_or first 15 0)
              (fragment_data first ++ all_data fs ++ fragment_data last)
              n.transfer)
          (receive (first ∷ (fs ++ (last ∷ []))) m)
  unfolding receive
  process_one_response-reassembles first fs last c cs m out is head middle is_end end fits pending =
      Returns-and_then (first_step sys first m out is head) (λ ret n inside.
        rest_of_packet (fragment_data first) fs last c cs n inside middle is_end end fits pending)

  -- The `type` that the first fragment of a packet leaves in the response is the exclusive or of the
  -- fragment's first fifteen bytes, its parity byte, and not the type of the packet's payload.
  pub process_one_response-type :
      (f : Bytes) (m : Machine W)
      → m.transfer.packet_state ≡ out_packet
      → IsData f
      → is_first f ≡ true
      → Returns
          (λ ret n. n.transfer.response.type ≡ parity (take 15 f))
          (process_one_response sys f m)
  process_one_response-type f m out is head =
      Returns-mono (first_step sys f m out is head)
        (λ ret n inside. inside.type_eq ∙ parity_byte f is)
