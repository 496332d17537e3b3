-- ===== src/PacketTransfer/Fits.antt =====
-- The packet buffers of app/packet_transfer.c: the responses that `process_one_response` builds fit.
use wsn_test_platform.Shared.{
  ℕ, ◌+◌, ◌%◌, ◌≤◌, Bool, true, false, not, ◌&&◌, ◌||◌, ltb, Option, none, some, [], ◌∷◌, ◌++◌, ok,
  fault, out_of_fuel, length, take, drop, leb, if◌then◌else◌, ◌≡◌, refl, sym, ap, ◌∙◌, arith,
  length-append, length-drop, length-take_of_le, replicate, get_or, ◌==◌,
}
use wsn_test_platform.Protocol.{Bytes}
use wsn_test_platform.Util.{copy_with_process_delimiter}
use wsn_test_platform.PacketTransfer.State.{PacketTransfer, Response, memcpy_at, response_zero}
use wsn_test_platform.PacketTransfer.Packets.{
  current_packet, first_fragment, next_fragment, poke, copy_into, current_header, current_end,
  current_response_of, crc_bytes, fragment_data, resp_b_get_port_id, resp_b_get_data_len,
}

-- The buffer has 256 bytes, the packet fits into it, and there are eight command lists.
pub record IsBounded (t : PacketTransfer) : Type 0 where
  pub buffer : length t.response.node_packet ≡ 256
  pub len : t.response.node_packet_len ≤ 256
  pub ports : length t.command_set ≡ 8

-- A response that fits
pub record Fits (r : Response) : Type 0 where
  pub buffer : length r.node_packet ≡ 256
  pub len : r.node_packet_len ≤ 256

pub guarded :
    {A : Type 0} (b : Bool) (x out : A)
    → (if b then some x else none) ≡ some out
    → (b ≡ true) × (x ≡ out)
guarded true x out e = (refl, ap (λ o. elim o [ none ↦ x | some a ↦ a ]) e)
guarded false x out e = absurd (grind arith)

pub fits : (a b : ℕ) → leb a b ≡ true → a ≤ b
fits a b h = ground arith

pub length-memcpy_at :
    (at : ℕ) (bs buf out : Bytes)
    → memcpy_at at bs buf ≡ some out
    → (length out ≡ length buf) × (at + length bs ≤ length buf)
length-memcpy_at at bs buf out e =
    let (inside, same) =
      guarded (leb (at + length bs) (length buf)) (take at buf ++ bs ++ drop (at + length bs) buf)
        out e in
    let room = fits (at + length bs) (length buf) inside in
    (
      sym (ap length same)
          ∙ omega (
            arith,
            room,
            length-append (take at buf ++ bs) (drop (at + length bs) buf),
            length-append (take at buf) bs,
            length-take_of_le at buf (omega arith),
            length-drop (at + length bs) buf,
          ),
      room,
    )

-- A buffer that may be missing has 256 bytes when it is there.
abbrev pub Whole : Option Bytes → Type 0
Whole none = Unit
Whole (some bytes) = length bytes ≡ 256

pub Whole-of : (o : Option Bytes) → ((x : Bytes) → o ≡ some x → length x ≡ 256) → Whole o
Whole-of none h = tt
Whole-of (some x) h = h x refl

pub copy_into-Whole : (at : ℕ) (bs : Bytes) (o : Option Bytes) → Whole o → Whole (copy_into at bs o)
copy_into-Whole at bs none h = tt
copy_into-Whole at bs (some buf) h =
    Whole-of (memcpy_at at bs buf) (λ x e. (length-memcpy_at at bs buf x e).0 ∙ h)

abbrev pub FitsIfAny : Option Response → Type 0
FitsIfAny none = Unit
FitsIfAny (some r) = Fits r

pub built :
    (o : Option Bytes) (make : Bytes → Response)
    → ((x : Bytes) → o ≡ some x → Fits (make x))
    → FitsIfAny (elim o [ none ↦ none | some x ↦ some (make x) ])
built none make h = tt
built (some x) make h = h x refl

pub poke-Whole : (at v : ℕ) (o : Option Bytes) → Whole o → Whole (poke at v o)
poke-Whole at v o h = copy_into-Whole at (v ∷ []) o h

pub header_Whole :
    (r : Response) (port : ℕ) → length r.node_packet ≡ 256 → Whole (current_header r port)
unfolding current_header
header_Whole r port h = poke-Whole 10 0x19 _ (
    poke-Whole 7 3 _ (
      poke-Whole 5 ((port + 1) % 256) _ (
        poke-Whole 1 0x45 _ (
          poke-Whole 0 0x7e _
            (copy_into-Whole 0 (replicate r.node_packet_len 0) (some r.node_packet) h)))))

pub finished :
    (at : ℕ) (o : Option Bytes) (make : Bytes → Response)
    → Whole o
    → ((x : Bytes) → (make x).node_packet ≡ x)
    → ((x : Bytes) → (make x).node_packet_len ≡ at + 1)
    → FitsIfAny (elim (poke at 0x7e o) [ none ↦ none | some x ↦ some (make x) ])
finished at none make h buffer len = tt
finished at (some buf) make h buffer len = built (memcpy_at at (0x7e ∷ []) buf) make (λ x e.
    let (same, room) = length-memcpy_at at (0x7e ∷ []) buf x e in
    record { buffer = ap length (buffer x) ∙ same ∙ h; len = omega (arith, len x, room, h) })

pub current_end-Fits :
    (r : Response) (f : Bytes) (index : ℕ) (o : Option Bytes)
    → Whole o
    → FitsIfAny (current_end r f index o)
unfolding current_end
current_end-Fits r f index none h = tt
current_end-Fits r f index (some buf) h =
    finished (index + 2) _ (current_response_of r f (index + 2))
      (copy_into-Whole index (crc_bytes buf index) (some buf) h) (λ x. refl) (λ x. refl)

pub current_packet-Fits :
    (r : Response) (f : Bytes) → length r.node_packet ≡ 256 → FitsIfAny (current_packet r f)
unfolding current_packet
current_packet-Fits r f h =
    let header = current_header r (resp_b_get_port_id (get_or f 0 0)) in
    elim (copy_with_process_delimiter 256 (drop 5 f) 2 [])
      as (λ run. FitsIfAny (elim run [
        | ok n copied ↦ current_end r f (11 + length copied) (copy_into 11 copied header)
        | fault ↦ none
        | out_of_fuel ↦ none
      ])) [
        | ok n copied ↦ current_end-Fits r f (11 + length copied) (copy_into 11 copied header) (
            copy_into-Whole 11 copied header (header_Whole r (resp_b_get_port_id (get_or f 0 0)) h))
        | fault ↦ tt
        | out_of_fuel ↦ tt
      ]

pub first_fragment-Fits : (f : Bytes) → FitsIfAny (first_fragment f)
unfolding first_fragment
first_fragment-Fits f = built (memcpy_at 0 (fragment_data f) response_zero.node_packet) _ (λ x e.
    let (same, room) = length-memcpy_at 0 (fragment_data f) response_zero.node_packet x e in
    record { buffer = same; len = omega arith })

pub next_fragment-Fits :
    (r : Response) (f : Bytes) (last : Bool)
    → length f ≡ 16
    → resp_b_get_data_len (get_or f 0 0) ≤ 10
    → Fits r
    → FitsIfAny (next_fragment r f last)
unfolding next_fragment
next_fragment-Fits r f last size short h =
    built (memcpy_at r.node_packet_len (fragment_data f) r.node_packet) _ (λ x e.
      let (same, room) = length-memcpy_at r.node_packet_len (fragment_data f) r.node_packet x e in
      let taken =
        length-take_of_le (resp_b_get_data_len (get_or f 0 0)) (drop 5 f)
          (omega (arith, length-drop 5 f, size, short)) in
      record { buffer = same ∙ h.buffer; len = omega (arith, room, taken, h.buffer) })

pub is_short :
    (header : ℕ)
    → (header == 0xff || ltb 10 (header % 16) && not (header % 16 == 0xf)) ≡ false
    → (header % 16 == 0xf) ≡ false
    → header % 16 ≤ 10
is_short header e f = ground arith
