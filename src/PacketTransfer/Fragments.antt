-- ===== src/PacketTransfer/Fragments.antt =====
-- The fragments of a node packet in app/packet_transfer.c: what a response holds after each.
use wsn_test_platform.Shared.{
  ℕ, ◌+◌, ◌%◌, ◌≤◌, Bool, true, false, not, ◌||◌, ◌&&◌, some, ◌++◌, ◌==◌, ltb, if◌then◌else◌,
  get_or, drop, length, ◌≡◌, refl, ap₂, ◌∙◌, arith, length-append, length-drop, length-take_of_le,
}
use wsn_test_platform.Protocol.{Bytes}
use wsn_test_platform.Util.{even_check}
use wsn_test_platform.PacketTransfer.Buffer.{memcpy_at-append}
use wsn_test_platform.PacketTransfer.State.{
  PacketTransfer, Response, in_packet, out_packet, memcpy_at,
}
use wsn_test_platform.PacketTransfer.Packets.{fragment_data, next_fragment, resp_b_get_data_len}

-- A well-formed fragment of a node packet: sixteen bytes of even parity, ten bytes of data at most.
pub record IsData (f : Bytes) : Type 0 where
  pub size : length f ≡ 16
  pub short : resp_b_get_data_len (get_or f 0 0) ≤ 10
  pub even : even_check f 16 ≡ some true

-- A response holds the bytes `bs`, at the front of its buffer of 256.
pub record Holds (bs : Bytes) (r : Response) : Type 0 where
  pub len : r.node_packet_len ≡ length bs
  pub rest : Bytes
  pub buffer : r.node_packet ≡ bs ++ rest
  pub room : length bs + length rest ≡ 256

pub not_invalid :
    (header : ℕ)
    → header % 16 ≤ 10
    → (header == 0xff || ltb 10 (header % 16) && not (header % 16 == 0xf)) ≡ false
not_invalid header h = ground arith

pub not_current : (len : ℕ) → len ≤ 10 → (len == 0xf) ≡ false
not_current len h = ground arith

pub length-fragment_data :
    (f : Bytes) → IsData f → length (fragment_data f) ≡ resp_b_get_data_len (get_or f 0 0)
length-fragment_data f is =
    length-take_of_le _ (drop 5 f) (omega (arith, length-drop 5 f, is.size, is.short))

-- The response after one more fragment, when it held `bs` before
abbrev pub extend : Bytes → Bytes → Response → Bytes → Bool → Response
extend bs rest r f last = record {
  port_id = r.port_id;
  type = r.type;
  time_stamp = r.time_stamp;
  node_packet_len = length (bs ++ fragment_data f);
  node_packet = bs ++ fragment_data f ++ drop (length (fragment_data f)) rest;
  is_finished = if last then true else r.is_finished;
}

pub next_fragment-extend :
    (bs : Bytes) (r : Response) (f : Bytes) (last : Bool) (h : Holds bs r)
    → IsData f
    → length bs + length (fragment_data f) ≤ 256
    → next_fragment r f last ≡ some (extend bs h.rest r f last)
unfolding next_fragment
next_fragment-extend bs r f last h is fits =
    let len : (r.node_packet_len + resp_b_get_data_len (get_or f 0 0)) % 65536
        ≡ length (bs ++ fragment_data f) =
      omega (arith, h.len, length-fragment_data f is, length-append bs (fragment_data f)) in
    let copied : memcpy_at r.node_packet_len (fragment_data f) r.node_packet
        ≡ some (bs ++ fragment_data f ++ drop (length (fragment_data f)) h.rest) =
      ap₂ (λ n buf. memcpy_at n (fragment_data f) buf) h.len h.buffer
      ∙ memcpy_at-append bs (fragment_data f) h.rest (omega (arith, h.room)) in
    rw (next_fragment, copied, len)

pub extend-Holds :
    (bs : Bytes) (r : Response) (f : Bytes) (last : Bool) (h : Holds bs r)
    → length bs + length (fragment_data f) ≤ 256
    → Holds (bs ++ fragment_data f) (extend bs h.rest r f last)
extend-Holds bs r f last h fits = record {
  len = refl;
  rest = drop (length (fragment_data f)) h.rest;
  buffer = refl;
  room = omega (
    arith,
    h.room,
    length-append bs (fragment_data f),
    length-drop (length (fragment_data f)) h.rest,
  );
}

-- The transfer is inside a packet of which it holds `bs`.
pub record Inside (before : PacketTransfer) (port type : ℕ) (bs : Bytes) (t : PacketTransfer)
    : Type 0 where
  pub state : t.packet_state ≡ in_packet
  pub holds : Holds bs t.response
  pub port_eq : t.response.port_id ≡ port
  pub type_eq : t.response.type ≡ type
  pub commands : t.command_set ≡ before.command_set

-- The packet is whole: the response holds `bs` and is finished.
pub record Complete (port type : ℕ) (bs : Bytes) (t : PacketTransfer) : Type 0 where
  pub state : t.packet_state ≡ out_packet
  pub holds : Holds bs t.response
  pub port_eq : t.response.port_id ≡ port
  pub type_eq : t.response.type ≡ type
  pub finished : t.response.is_finished ≡ true
