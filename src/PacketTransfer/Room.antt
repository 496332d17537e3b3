-- ===== src/PacketTransfer/Room.antt =====
-- The copies of app/packet_transfer.c that cannot leave the packet buffer: those of a current packet
-- and of a first fragment; and when the copy of a further fragment does.
use wsn_test_platform.Shared.{
  ℕ, ◌+◌, ◌%◌, ◌≤◌, ◌<◌, Bool, true, false, Option, none, some, [], ◌∷◌, ◌++◌, length, take, drop,
  leb, ◌≡◌, ◌≢◌, refl, sym, ap, ◌∙◌, arith, length-drop, length-take_of_le, length-replicate,
  replicate, get_or, Bool-cases, inl, inr,
}
use wsn_test_platform.Protocol.{Bytes}
use wsn_test_platform.Util.Escape.{escape, length-escape, copy_with_process_delimiter-escape}
use wsn_test_platform.PacketTransfer.State.{Response, memcpy_at, response_zero}
use wsn_test_platform.PacketTransfer.Packets.{
  current_packet, first_fragment, next_fragment, copy_into, current_header, current_end,
  current_response_of, crc_bytes, fragment_data, resp_b_get_port_id, resp_b_get_data_len,
}
use wsn_test_platform.PacketTransfer.Fits.{length-memcpy_at}

-- A buffer that is there, with its 256 bytes
abbrev Present : Option Bytes → Type 0
Present o = (x : Bytes) × (o ≡ some x) × (length x ≡ 256)

leb_le : (a b : ℕ) → a ≤ b → leb a b ≡ true
leb_le a b h = ground arith

leb_lt : (a b : ℕ) → leb a b ≡ false → b < a
leb_lt a b h = ground arith

memcpy_at-fits :
    (at : ℕ) (bs buf : Bytes)
    → at + length bs ≤ length buf
    → memcpy_at at bs buf ≡ some (take at buf ++ bs ++ drop (at + length bs) buf)
memcpy_at-fits at bs buf h = rw (leb_le (at + length bs) (length buf) h) refl

inside_le : (a b : ℕ) → leb a b ≡ true → a ≤ b
inside_le a b h = ground arith

memcpy_at-none :
    (at : ℕ) (bs buf : Bytes) → memcpy_at at bs buf ≡ none → length buf < at + length bs
memcpy_at-none at bs buf e = elim (Bool-cases (leb (at + length bs) (length buf))) [
  | inl inside ↦
      absurd
        (grind (arith, memcpy_at-fits at bs buf (inside_le (at + length bs) (length buf) inside)))
  | inr outside ↦ leb_lt (at + length bs) (length buf) outside
]

copy_into-Present :
    (at : ℕ) (bs : Bytes) (o : Option Bytes)
    → at + length bs ≤ 256
    → Present o
    → Present (copy_into at bs o)
copy_into-Present at bs none h (x, e, size) = absurd (grind arith)
copy_into-Present at bs (some buf) h (x, e, size) =
    let whole : length buf ≡ 256 = ap (λ o. elim o [ none ↦ 256 | some y ↦ length y ]) e ∙ size in
    let stored = memcpy_at-fits at bs buf (omega (arith, h, whole)) in
    (
      take at buf ++ bs ++ drop (at + length bs) buf,
      stored,
      (length-memcpy_at at bs buf _ stored).0 ∙ whole,
    )

header_Present :
    (r : Response) (port : ℕ)
    → length r.node_packet ≡ 256
    → r.node_packet_len ≤ 256
    → Present (current_header r port)
unfolding current_header
header_Present r port h len = copy_into-Present 10 (0x19 ∷ []) _ (omega arith) (
    copy_into-Present 7 (3 ∷ []) _ (omega arith) (
      copy_into-Present 5 ((port + 1) % 256 ∷ []) _ (omega arith) (
        copy_into-Present 1 (0x45 ∷ []) _ (omega arith) (
          copy_into-Present 0 (0x7e ∷ []) _ (omega arith) (
            copy_into-Present 0 (replicate r.node_packet_len 0) (some r.node_packet)
              (omega (arith, len, length-replicate {A = ℕ} r.node_packet_len 0))
              (r.node_packet, refl, h))))))

current_end-some :
    (r : Response) (f : Bytes) (index : ℕ) (o : Option Bytes)
    → index ≤ 253
    → Present o
    → current_end r f index o ≢ none
unfolding current_end
current_end-some r f index none small (x, e, size) failed = grind arith
current_end-some r f index (some buf) small present failed =
    let (x, e, size) =
      copy_into-Present (index + 2) (0x7e ∷ []) _ (omega arith)
        (copy_into-Present index (crc_bytes buf index) (some buf) (omega arith) present) in
    let stored : current_end r f index (some buf) ≡ some _ =
      ap
        (λ o. elim o [
          | none ↦ none
          | some bytes ↦ some (current_response_of r f (index + 2) bytes)
        ])
        e in
    grind arith

-- A current packet is always put together.
pub current_packet-some :
    (r : Response) (f : Bytes)
    → length r.node_packet ≡ 256
    → r.node_packet_len ≤ 256
    → length f ≡ 16
    → current_packet r f ≢ none
unfolding current_packet
current_packet-some r f h len size =
    let current = take 2 (drop 5 f) in
    let (low, high) = length-escape current in
    let taken = length-take_of_le 2 (drop 5 f) (omega (arith, length-drop 5 f, size)) in
    let port = resp_b_get_port_id (get_or f 0 0) in
    rw
      (
        current_packet,
        copy_with_process_delimiter-escape 256 2 (drop 5 f) (omega arith)
            (omega (arith, length-drop 5 f, size)) (omega arith),
      )
      (current_end-some r f (11 + length (escape current))
        (copy_into 11 (escape current) (current_header r port)) (omega (arith, high, taken))
        (copy_into-Present 11 (escape current) (current_header r port) (omega (arith, high, taken))
          (header_Present r port h len)))

-- A first fragment is always put into the buffer.
pub first_fragment-some :
    (f : Bytes) → length f ≡ 16 → resp_b_get_data_len (get_or f 0 0) ≤ 10 → first_fragment f ≢ none
unfolding first_fragment
first_fragment-some f size short =
    let taken =
      length-take_of_le (resp_b_get_data_len (get_or f 0 0)) (drop 5 f)
        (omega (arith, length-drop 5 f, size, short)) in
    rw
      (
        first_fragment,
        memcpy_at-fits 0 (fragment_data f) response_zero.node_packet
            (omega (arith, taken, short, length-replicate {A = ℕ} 256 0)),
      )
      (λ e. grind arith)

not_built :
    (o : Option Bytes) (make : Bytes → Response)
    → elim o [ none ↦ none | some x ↦ some (make x) ] ≡ none
    → o ≡ none
not_built none make e = refl
not_built (some x) make e = absurd (grind arith)

-- A further fragment that is not copied would leave the buffer.
pub next_fragment-none :
    (r : Response) (f : Bytes) (last : Bool)
    → length r.node_packet ≡ 256
    → length f ≡ 16
    → resp_b_get_data_len (get_or f 0 0) ≤ 10
    → next_fragment r f last ≡ none
    → 256 < r.node_packet_len + resp_b_get_data_len (get_or f 0 0)
unfolding next_fragment
next_fragment-none r f last h size short e =
    let taken =
      length-take_of_le (resp_b_get_data_len (get_or f 0 0)) (drop 5 f)
        (omega (arith, length-drop 5 f, size, short)) in
    omega (
      arith,
      h,
      taken,
      memcpy_at-none r.node_packet_len (fragment_data f) r.node_packet
          (not_built (memcpy_at r.node_packet_len (fragment_data f) r.node_packet) _ e),
    )

built-port_id :
    {next : Response} (port : ℕ) (o : Option Bytes) (make : Bytes → Response)
    → ((x : Bytes) → (make x).port_id ≡ port)
    → elim o [ none ↦ none | some x ↦ some (make x) ] ≡ some next
    → next.port_id ≡ port
built-port_id port none make same e = absurd (grind arith)
built-port_id port (some x) make same e =
    sym (ap (λ o. elim o [ none ↦ port | some r ↦ r.port_id ]) e) ∙ same x

-- A further fragment leaves the port as it is.
pub next_fragment-port_id :
    (r next : Response) (f : Bytes) (last : Bool)
    → next_fragment r f last ≡ some next
    → next.port_id ≡ r.port_id
unfolding next_fragment
next_fragment-port_id r next f last e =
    built-port_id r.port_id (memcpy_at r.node_packet_len (fragment_data f) r.node_packet) _
      (λ x. refl) e
