-- ===== src/Util/Xor.antt =====
-- Exclusive or of bytes, by its lowest digit: what the parity check of app/util.c stands on.
use Prim.Native.Nat.{digits, differ, bit_xor-bitwise}
use wsn_test_platform.Shared.{
  ℕ, zero, suc, ◌+◌, ◌*◌, ◌/◌, ◌%◌, ◌≤◌, ◌<◌, bit_xor, ◌≡◌, refl, sym, ap, ◌∙◌, arith,
}

abbrev xor_digits : ℕ → ℕ → ℕ → ℕ
xor_digits n a b = digits (λ b. b) differ n a b

differ_of_lt : (p q : ℕ) → p < 2 → q < 2 → differ p q ≡ (p + q) % 2
differ_of_lt zero zero h k = refl
differ_of_lt zero (suc zero) h k = refl
differ_of_lt (suc zero) zero h k = refl
differ_of_lt (suc zero) (suc zero) h k = refl
differ_of_lt (suc (suc p)) q h k = absurd (omega arith)
differ_of_lt zero (suc (suc q)) h k = absurd (omega arith)
differ_of_lt (suc zero) (suc (suc q)) h k = absurd (omega arith)

xor_digits_fuel : (n m a b : ℕ) → a ≤ n → a ≤ m → xor_digits n a b ≡ xor_digits m a b
xor_digits_fuel zero zero a b p q = refl
xor_digits_fuel zero (suc m) zero b p q = refl
xor_digits_fuel zero (suc m) (suc a) b p q = absurd (omega arith)
xor_digits_fuel (suc n) zero zero b p q = refl
xor_digits_fuel (suc n) zero (suc a) b p q = absurd (omega arith)
xor_digits_fuel (suc n) (suc m) zero b p q = refl
xor_digits_fuel (suc n) (suc m) (suc a) b p q =
    omega (arith, xor_digits_fuel n m (suc a / 2) (b / 2) (omega arith) (omega arith))

pub zero-bit_xor : (b : ℕ) → bit_xor 0 b ≡ b
zero-bit_xor b = bit_xor-bitwise 0 b

pub bit_xor_step : (a b : ℕ) → bit_xor a b ≡ bit_xor (a / 2) (b / 2) * 2 + (a + b) % 2
bit_xor_step zero b = omega (arith, zero-bit_xor b, zero-bit_xor (b / 2))
bit_xor_step (suc a) b = omega (
  arith,
  bit_xor-bitwise (suc a) b,
  bit_xor-bitwise (suc a / 2) (b / 2),
  xor_digits_fuel a (suc a / 2) (suc a / 2) (b / 2) (omega arith) (omega arith),
  differ_of_lt (suc a % 2) (b % 2) (omega arith) (omega arith),
)

comm_fuel : (n a b : ℕ) → a + b ≤ n → bit_xor a b ≡ bit_xor b a
comm_fuel zero zero zero h = refl
comm_fuel zero (suc a) b h = absurd (omega arith)
comm_fuel zero zero (suc b) h = absurd (omega arith)
comm_fuel (suc n) zero zero h = refl
comm_fuel (suc n) zero (suc b) h =
    omega (
      arith,
      bit_xor_step 0 (suc b),
      bit_xor_step (suc b) 0,
      comm_fuel n 0 (suc b / 2) (omega arith),
    )
comm_fuel (suc n) (suc a) b h = omega (
  arith,
  bit_xor_step (suc a) b,
  bit_xor_step b (suc a),
  comm_fuel n (suc a / 2) (b / 2) (omega arith),
)

pub bit_xor_comm : (a b : ℕ) → bit_xor a b ≡ bit_xor b a
bit_xor_comm a b = comm_fuel (a + b) a b (omega arith)

self_fuel : (n a : ℕ) → a ≤ n → bit_xor a a ≡ 0
self_fuel n zero h = refl
self_fuel zero (suc a) h = absurd (omega arith)
self_fuel (suc n) (suc a) h =
    omega (arith, bit_xor_step (suc a) (suc a), self_fuel n (suc a / 2) (omega arith))

pub bit_xor_self : (a : ℕ) → bit_xor a a ≡ 0
bit_xor_self a = self_fuel a a (omega arith)

half_bit_xor : (a b : ℕ) → bit_xor a b / 2 ≡ bit_xor (a / 2) (b / 2)
half_bit_xor a b = omega (arith, bit_xor_step a b)

parity-bit_xor : (a b : ℕ) → bit_xor a b % 2 ≡ (a + b) % 2
parity-bit_xor a b = omega (arith, bit_xor_step a b)

assoc_fuel : (n a b c : ℕ) → a + b + c ≤ n → bit_xor (bit_xor a b) c ≡ bit_xor a (bit_xor b c)
assoc_fuel zero zero b c h = rw (zero-bit_xor b, zero-bit_xor (bit_xor b c))
assoc_fuel zero (suc a) b c h = absurd (omega arith)
assoc_fuel (suc n) zero b c h = rw (zero-bit_xor b, zero-bit_xor (bit_xor b c))
assoc_fuel (suc n) (suc a) b c h =
    let outer_left : bit_xor (bit_xor (suc a) b) c
        ≡ bit_xor (bit_xor (suc a / 2) (b / 2)) (c / 2) * 2 + (bit_xor (suc a) b + c) % 2 =
      rw (bit_xor_step (bit_xor (suc a) b) c, half_bit_xor (suc a) b) in
    let outer_right : bit_xor (suc a) (bit_xor b c)
        ≡ bit_xor (suc a / 2) (bit_xor (b / 2) (c / 2)) * 2 + (suc a + bit_xor b c) % 2 =
      rw (bit_xor_step (suc a) (bit_xor b c), half_bit_xor b c) in
    omega (
      arith,
      outer_left,
      outer_right,
      parity-bit_xor (suc a) b,
      parity-bit_xor b c,
      assoc_fuel n (suc a / 2) (b / 2) (c / 2) (omega arith),
    )

pub bit_xor_assoc : (a b c : ℕ) → bit_xor (bit_xor a b) c ≡ bit_xor a (bit_xor b c)
bit_xor_assoc a b c = assoc_fuel (a + b + c) a b c (omega arith)

-- Equal exclusive ors have equal last operands.
pub bit_xor-cancel : (a b c : ℕ) → bit_xor a b ≡ bit_xor a c → b ≡ c
bit_xor-cancel a b c h =
    let undo : (x : ℕ) → bit_xor a (bit_xor a x) ≡ x =
      λ x. rw (sym (bit_xor_assoc a a x), bit_xor_self a, zero-bit_xor x) in
    sym (undo b) ∙ ap (bit_xor a) h ∙ undo c
