-- ===== src/PacketTransfer/Rejects.antt =====
-- The packets from the board that `process_one_response` of app/packet_transfer.c discards.
use wsn_test_platform.Shared.{
  ℕ, zero, suc, ◌+◌, ◌%◌, ◌<◌, ◌≤◌, true, false, some, [], ◌∷◌, ◌++◌, ret_fail, ok, length, ◌≡◌,
  ◌≢◌, refl, sym, arith, subst, Bool-cases, ◌⊎◌, inl, inr, get_or, ◌==◌, take, ap, ◌∙◌,
}
use wsn_test_platform.Protocol.{Bytes}
use wsn_test_platform.Kernel.{System}
use wsn_test_platform.Util.{even_check}
use wsn_test_platform.Util.Parity.{even_check-detects, even_check-parity, parity}
use wsn_test_platform.PacketTransfer.State.{PacketState, out_packet, Machine}
use wsn_test_platform.PacketTransfer.Responses.{process_one_response, accepted, data_packet}
use wsn_test_platform.PacketTransfer.Packets.{is_first, is_invalid, is_current}

-- The bytes of a packet in which it is discarded. The first is the header, whose low half is the number
-- of data bytes, at most 10, or the mark 15 of a current packet; the data begins at the sixth byte.
abbrev pub IsInvalid : Bytes → Type 0
IsInvalid f = (get_or f 0 0 ≡ 255) ⊎ ((10 < get_or f 0 0 % 16) × (get_or f 0 0 % 16 ≢ 15))

-- Neither a current packet nor the first fragment of a packet from a node
abbrev pub IsNoStart : Bytes → Type 0
IsNoStart f =
    (get_or f 0 0 % 16 ≢ 15)
    × ((get_or f 5 0 ≢ 0x7e) ⊎ (get_or f 6 0 ≢ 0x45) ⊎ (get_or f 0 0 % 16 ≢ 10))

abbrev pub IsDiscarded : Bytes → PacketState → Type 0
IsDiscarded f state = (parity f ≢ 0) ⊎ IsInvalid f ⊎ ((state ≡ out_packet) × IsNoStart f)

IsInvalid-invalid : (f : Bytes) → IsInvalid f → is_invalid f ≡ true
IsInvalid-invalid f (inl none_there) = ground arith
IsInvalid-invalid f (inr (long, other)) = ground arith

IsNoStart-current : (f : Bytes) → IsNoStart f → is_current f ≡ false
IsNoStart-current f (other, no_first) = ground arith

IsNoStart-first : (f : Bytes) → IsNoStart f → is_first f ≡ false
IsNoStart-first f (other, inl first) = ground arith
IsNoStart-first f (other, inr (inl second)) = ground arith
IsNoStart-first f (other, inr (inr size)) = ground arith

nonzero : (n : ℕ) → n ≢ 0 → (n == 0) ≡ false
nonzero n h = ground arith

take_whole : (xs : Bytes) (n : ℕ) → length xs ≤ n → take n xs ≡ xs
take_whole [] zero h = refl
take_whole [] (suc n) h = refl
take_whole (x ∷ xs) zero h = absurd (omega (arith, h))
take_whole (x ∷ xs) (suc n) h = ap (λ r. x ∷ r) (take_whole xs n (omega (arith, h)))

module _ {W : Type 0} (sys : System W) where
  accepted-discards :
      (f : Bytes) (m : Machine W)
      → IsInvalid f ⊎ ((m.transfer.packet_state ≡ out_packet) × IsNoStart f)
      → accepted sys f m ≡ ok ret_fail m
  unfolding accepted data_packet
  accepted-discards f m (inl invalid) = rw (accepted, IsInvalid-invalid f invalid) refl
  accepted-discards f m (inr (out, no_start)) = elim (Bool-cases (is_invalid f)) [
    | inl invalid ↦ rw (accepted, invalid) refl
    | inr valid ↦
        rw (accepted, valid, IsNoStart-current f no_start, out, IsNoStart-first f no_start) refl
  ]

  -- A packet of sixteen bytes is discarded where the exclusive or of its bytes is not zero, or its
  -- header is 0xff or announces more than ten data bytes without the mark of a current packet, or
  -- where no packet is being put together and it is neither a current packet nor a first fragment of
  -- ten data bytes that begins with 0x7e, 0x45: `process_one_response` returns RET_FAIL and changes
  -- nothing.
  pub process_one_response-discards :
      (f : Bytes) (m : Machine W)
      → length f ≡ 16
      → IsDiscarded f m.transfer.packet_state
      → process_one_response sys f m ≡ ok ret_fail m
  unfolding process_one_response
  process_one_response-discards f m size discarded =
      let whole : take 16 f ≡ f = take_whole f 16 (omega (arith, size)) in
      let check =
        even_check-parity f 15 (omega (arith, size)) ∙ ap (λ g. some (parity g == 0)) whole in
      rw check (elim (Bool-cases (parity f == 0)) [
        | inr odd ↦ rw odd refl
        | inl even ↦ rw even (elim discarded [
          | inl odd ↦ absurd (grind (arith, nonzero (parity f) odd))
          | inr why ↦ accepted-discards f m why
        ])
      ])

  -- A packet of sixteen bytes that passes the parity check is discarded, without any change, once
  -- one of its bytes has another value. The check is the same for every kind of packet, a current
  -- packet included, whatever stands in its last byte.
  pub process_one_response-corrupted :
      (pre post : Bytes) (b c : ℕ) (m : Machine W)
      → length pre + length post ≡ 15
      → even_check (pre ++ (b ∷ post)) 16 ≡ some true
      → b ≢ c
      → process_one_response sys (pre ++ (c ∷ post)) m ≡ ok ret_fail m
  unfolding process_one_response
  process_one_response-corrupted pre post b c m size passed ne =
      let check =
        subst (λ n. even_check (pre ++ (c ∷ post)) (suc n) ≡ some false) size
          (even_check-detects pre post b c
            (subst (λ n. even_check (pre ++ (b ∷ post)) (suc n) ≡ some true) (sym size) passed)
            ne) in
      rw check refl
