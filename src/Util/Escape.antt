-- ===== src/Util/Escape.antt =====
-- The escaping copy of app/util.c: what `copy_with_process_delimiter` writes, against a list function.
use native.Mathlib.Nat.{add-zero}
use wsn_test_platform.Shared.{
  ℕ, zero, suc, ◌+◌, ◌*◌, ◌%◌, ◌≤◌, ◌<◌, Bool, true, false, ◌||◌, Option, none, some, [], ◌∷◌, ◌++◌,
  length, take, drop, All, ok, ◌==◌, if◌then◌else◌, ◌≡◌, ◌≢◌, refl, ap, ap₂, ◌∙◌, arith, drop_next,
  append_assoc, append-nil, Bool-cases, inl, inr, Returns, returns, lt→ltb, le→ltb_false,
}
use wsn_test_platform.Protocol.{Bytes, node_delimiter, node_escape}
use wsn_test_platform.Util.{copy_loop, copy_with_process_delimiter, node_delimiter_transfer}

abbrev pub is_special : ℕ → Bool
is_special b = b == node_delimiter || b == node_escape

-- Every delimiter and escape byte becomes two bytes.
unfoldable pub escape : Bytes → Bytes
escape [] = []
escape (b ∷ bs) =
    let rest = escape bs in
    if is_special b then node_escape ∷ node_delimiter_transfer b ∷ rest else b ∷ rest

-- The receiver's reading of an escaped text: the flag is set after an escape byte.
unfoldable unescape_from : Bool → Bytes → Option Bytes
unescape_from true [] = none
unescape_from false [] = some []
unescape_from true (b ∷ bs) = elim (unescape_from false bs) [
  | none ↦ none
  | some text ↦ some ((b + 0x20) % 256 ∷ text)
]
unescape_from false (b ∷ bs) =
    let after_escape = unescape_from true bs in
    let plain = unescape_from false bs in
    if b == node_escape
    then after_escape
    else elim plain [ none ↦ none | some text ↦ some (b ∷ text) ]

unfoldable pub unescape : Bytes → Option Bytes
unfolding unescape_from
unescape bs = unescape_from false bs

same_run :
    (out text rest : Bytes) (p q : ℕ)
    → p ≡ q
    → ok p ((out ++ text) ++ rest) ≡ ok q (out ++ (text ++ rest))
same_run out text rest p q h = ap₂ (λ a s. ok a s) h (append_assoc out text rest)

copy_loop-escape :
    (j k : ℕ) (src : Bytes) (n i index : ℕ) (out : Bytes)
    → i + j ≡ n
    → n < 256
    → n ≤ length src
    → j < k
    → copy_loop k src n i index out
      ≡ ok (index + length (escape (take j (drop i src)))) (out ++ escape (take j (drop i src)))
unfolding copy_loop escape
copy_loop-escape j zero src n i index out e small room fuel = absurd (omega arith)
copy_loop-escape zero (suc k) src n i index out e small room fuel =
    rw (copy_loop, le→ltb_false i n (omega arith), append-nil out, add-zero index)
copy_loop-escape (suc j) (suc k) src n i index out e small room fuel =
    let (b, at, split) = drop_next src i (omega arith) in
    let next : (i + 1) % 256 ≡ suc i = omega arith in
    elim (Bool-cases (is_special b)) [
      | inl special ↦
          rw (copy_loop, lt→ltb i n (omega arith), at, split, special, next)
            (copy_loop-escape j k src n (suc i) (index + 2)
                (out ++ (node_escape ∷ node_delimiter_transfer b ∷ [])) (omega arith) small room
                (omega arith)
              ∙ same_run out (node_escape ∷ node_delimiter_transfer b ∷ [])
                  (escape (take j (drop (suc i) src))) _ _ (omega arith))
      | inr plain ↦
          rw (copy_loop, lt→ltb i n (omega arith), at, split, plain, next)
            (copy_loop-escape j k src n (suc i) (index + 1) (out ++ (b ∷ [])) (omega arith) small
                room (omega arith)
              ∙ same_run out (b ∷ []) (escape (take j (drop (suc i) src))) _ _ (omega arith))
    ]

-- A copy of at most 255 bytes, all of them in the source buffer, to the start of `dest` ends after one
-- round for each byte: it writes the escaped bytes from `dest[0]` on, nothing else, and answers how
-- many they are.
pub copy_with_process_delimiter-escape :
    (fuel n : ℕ) (src : Bytes)
    → n < 256
    → n ≤ length src
    → n < fuel
    → copy_with_process_delimiter fuel src n []
      ≡ ok (length (escape (take n src))) (escape (take n src))
unfolding copy_with_process_delimiter
copy_with_process_delimiter-escape fuel n src small room enough =
    copy_loop-escape n fuel src n 0 0 [] (omega arith) small room enough
    ∙ ap (λ a. ok a (escape (take n src))) (omega arith)

transfer_clear : (b : ℕ) → is_special b ≡ true → node_delimiter_transfer b ≢ node_delimiter
transfer_clear b h e = ground arith

plain_clear : (b : ℕ) → is_special b ≡ false → b ≢ node_delimiter
plain_clear b h e = ground arith

-- An escaped text holds no delimiter, whatever the bytes it was made from.
pub escape-no_delimiter : (bs : Bytes) → All (λ b. b ≢ node_delimiter) (escape bs)
unfolding escape
escape-no_delimiter [] = tt
escape-no_delimiter (b ∷ bs) = elim (Bool-cases (is_special b)) [
  | inl special ↦
      rw special ((λ e. ground arith), (transfer_clear b special, escape-no_delimiter bs))
  | inr plain ↦ rw plain (plain_clear b plain, escape-no_delimiter bs)
]

transfer_back : (b : ℕ) → is_special b ≡ true → (node_delimiter_transfer b + 0x20) % 256 ≡ b
transfer_back b h = ground arith

plain_escape : (b : ℕ) → is_special b ≡ false → (b == node_escape) ≡ false
plain_escape b h = ground arith

-- The receiver reads back from an escaped text the bytes it was made from.
pub unescape-escape : (bs : Bytes) → unescape (escape bs) ≡ some bs
unfolding escape unescape unescape_from
unescape-escape [] = refl
unescape-escape (b ∷ bs) = elim (Bool-cases (is_special b)) [
  | inl special ↦ rw (special, unescape-escape bs, transfer_back b special)
  | inr plain ↦ rw (plain, plain_escape b plain, unescape-escape bs)
]

-- What a copy of at most 255 bytes writes into an empty buffer holds no delimiter, is as long as the
-- copy answers, and is read back by the receiver as the bytes that were copied.
pub copy_with_process_delimiter-unescape :
    (fuel n : ℕ) (src : Bytes)
    → n < 256
    → n ≤ length src
    → n < fuel
    → Returns
        (λ count out.
          (count ≡ length out)
          × (unescape out ≡ some (take n src))
          × All (λ b. b ≢ node_delimiter) out)
        (copy_with_process_delimiter fuel src n [])
copy_with_process_delimiter-unescape fuel n src small room enough =
    rw (copy_with_process_delimiter-escape fuel n src small room enough)
      (returns (refl, unescape-escape (take n src), escape-no_delimiter (take n src)))

-- An escaped text has at least as many bytes as the text and at most twice as many.
pub length-escape :
    (bs : Bytes) → (length bs ≤ length (escape bs)) × (length (escape bs) ≤ 2 * length bs)
unfolding escape
length-escape [] = (omega arith, omega arith)
length-escape (b ∷ bs) =
    let (low, high) = length-escape bs in
    elim (Bool-cases (is_special b)) [
      | inl special ↦ rw special (omega arith, omega arith)
      | inr plain ↦ rw plain (omega arith, omega arith)
    ]
