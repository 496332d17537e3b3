-- ===== src/Util/Parity.antt =====
-- The parity check of app/util.c: `even_check` against the exclusive or of all bytes.
use native.Mathlib.Numerals.{add-one}
use wsn_test_platform.Shared.{
  ℕ, zero, suc, ◌+◌, ◌-◌, ◌≤◌, true, false, some, [], ◌∷◌, ◌++◌, length, take, drop, ◌==◌, bit_xor,
  ◌≡◌, ◌≢◌, refl, sym, ap, ◌∙◌, arith, length-append, drop_next, take_all,
}
use wsn_test_platform.Protocol.{Bytes}
use wsn_test_platform.Util.{even_loop, even_check}
use wsn_test_platform.Util.Xor.{
  zero-bit_xor, bit_xor_comm, bit_xor_assoc, bit_xor_self, bit_xor-cancel,
}

-- The exclusive or of all bytes
unfoldable pub parity : Bytes → ℕ
parity [] = 0
parity (b ∷ bs) = bit_xor b (parity bs)

pub parity_one : (b : ℕ) → bit_xor b 0 ≡ b
parity_one b = bit_xor_comm b 0 ∙ zero-bit_xor b

pub parity-append : (xs ys : Bytes) → parity (xs ++ ys) ≡ bit_xor (parity xs) (parity ys)
unfolding parity
parity-append [] ys = sym (zero-bit_xor (parity ys))
parity-append (x ∷ xs) ys = rw (parity-append xs ys, bit_xor_assoc x (parity xs) (parity ys))

even_loop-parity :
    (k : ℕ) (buf : Bytes) (i result : ℕ)
    → i + k ≤ length buf
    → even_loop k buf i result ≡ some (bit_xor result (parity (take k (drop i buf))))
unfolding even_loop parity
even_loop-parity zero buf i result h = ap some (sym (parity_one result))
even_loop-parity (suc k) buf i result h =
    let (b, at, split) = drop_next buf i (omega arith) in
    rw (
      even_loop,
      at,
      split,
      add-one i,
      even_loop-parity k buf (suc i) (bit_xor result b) (omega arith),
      bit_xor_assoc result b (parity (take k (drop (suc i) buf))),
    )

pred_suc : (n : ℕ) → suc n - 1 ≡ n
pred_suc n = omega arith

-- Where the buffer holds the bytes that are asked for, one at least, `even_check` returns, and its
-- answer is whether the exclusive or of those bytes is zero.
pub even_check-parity :
    (buf : Bytes) (n : ℕ)
    → suc n ≤ length buf
    → even_check buf (suc n) ≡ some (parity (take (suc n) buf) == 0)
unfolding even_check parity
even_check-parity [] n h = absurd (omega arith)
even_check-parity (b ∷ buf) n h =
    rw (even_check, pred_suc n, even_loop-parity n (b ∷ buf) 1 b (omega arith))

check_all :
    (buf : Bytes) (n : ℕ) → suc n ≡ length buf → even_check buf (suc n) ≡ some (parity buf == 0)
check_all buf n h = rw (even_check-parity buf n (omega (arith, h)), h, take_all buf)

parity_middle :
    (pre post : Bytes) (b : ℕ) → parity (pre ++ (b ∷ post)) ≡ bit_xor b (parity (pre ++ post))
unfolding parity
parity_middle [] post b = refl
parity_middle (x ∷ pre) post b = rw (
  parity_middle pre post b,
  sym (bit_xor_assoc x b (parity (pre ++ post))),
  bit_xor_comm x b,
  bit_xor_assoc b x (parity (pre ++ post)),
)

check_middle :
    (pre post : Bytes) (b : ℕ)
    → even_check (pre ++ (b ∷ post)) (suc (length pre + length post))
      ≡ some (bit_xor b (parity (pre ++ post)) == 0)
check_middle pre post b =
    check_all (pre ++ (b ∷ post)) (length pre + length post)
      (omega (arith, length-append pre (b ∷ post)))
    ∙ ap (λ p. some (p == 0)) (parity_middle pre post b)

-- A parity byte that is the exclusive or of a message's bytes makes the check of the whole succeed,
-- wherever it stands.
pub even_check-parity_byte :
    (pre post : Bytes)
    → even_check (pre ++ (parity (pre ++ post) ∷ post)) (suc (length pre + length post)) ≡ some true
even_check-parity_byte pre post =
    rw (check_middle pre post (parity (pre ++ post)), bit_xor_self (parity (pre ++ post)))

zero_of_test : (x : ℕ) → some (x == 0) ≡ some true → x ≡ 0
zero_of_test x h = ground arith

unequal : (x : ℕ) → x ≢ 0 → (x == 0) ≡ false
unequal x h = ground arith

-- A packet that passes the parity check does not pass it any more once one of its bytes has
-- another value.
pub even_check-detects :
    (pre post : Bytes) (b c : ℕ)
    → even_check (pre ++ (b ∷ post)) (suc (length pre + length post)) ≡ some true
    → b ≢ c
    → even_check (pre ++ (c ∷ post)) (suc (length pre + length post)) ≡ some false
even_check-detects pre post b c h ne =
    let rest = parity (pre ++ post) in
    let passed : bit_xor b rest ≡ 0 =
      zero_of_test (bit_xor b rest) (sym (check_middle pre post b) ∙ h) in
    check_middle pre post c
    ∙ ap some (
        unequal (bit_xor c rest) (λ zero_too. ne (
          bit_xor-cancel rest b c
            (bit_xor_comm rest b ∙ passed ∙ sym zero_too ∙ bit_xor_comm c rest))))
