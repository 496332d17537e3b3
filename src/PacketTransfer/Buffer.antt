-- ===== src/PacketTransfer/Buffer.antt =====
-- Copies into the packet buffers of app/packet_transfer.c.
use wsn_test_platform.Shared.{
  ℕ, suc, ◌+◌, ◌≤◌, some, [], ◌∷◌, ◌++◌, length, drop, leb, ◌≡◌, ap, subst, arith, true,
  length-append, take-append_length,
}
use wsn_test_platform.Protocol.{Bytes}
use wsn_test_platform.PacketTransfer.State.{memcpy_at}

drop-append_add : (xs ys : Bytes) (n : ℕ) → drop (length xs + n) (xs ++ ys) ≡ drop n ys
drop-append_add [] ys n = ap (λ k. drop k ys) (omega arith)
drop-append_add (x ∷ xs) ys n =
    let next : suc (length xs + n) ≡ length (x ∷ xs) + n = omega arith in
    subst (λ k. drop k (x ∷ (xs ++ ys)) ≡ drop n ys) next (drop-append_add xs ys n)

fits : (a b : ℕ) → a ≤ b → leb a b ≡ true
fits a b h = ground arith

-- A copy behind the first bytes of a buffer overwrites what follows them and keeps the rest.
pub memcpy_at-append :
    (xs bs rest : Bytes)
    → length bs ≤ length rest
    → memcpy_at (length xs) bs (xs ++ rest) ≡ some (xs ++ bs ++ drop (length bs) rest)
memcpy_at-append xs bs rest h = rw (
  fits (length xs + length bs) (length (xs ++ rest)) (omega (arith, length-append xs rest)),
  take-append_length xs rest,
  drop-append_add xs rest (length bs),
)
