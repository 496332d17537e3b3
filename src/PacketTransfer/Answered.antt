-- ===== src/PacketTransfer/Answered.antt =====
-- The pending command that `handle_response` of app/packet_transfer.c takes for answered.
use wsn_test_platform.Shared.{
  ℕ, ◌+◌, ◌%◌, true, false, some, List, [], ◌∷◌, ◌++◌, ok, ◌==◌, get_elem?, set, ◌≡◌, ◌≢◌, refl, ap,
  arith, Bool-cases, ◌⊎◌, inl, inr, All,
}
use wsn_test_platform.Kernel.{System}
use wsn_test_platform.DList.Positions.{delete_at}
use wsn_test_platform.DList.Client.{find_datum}
use wsn_test_platform.PacketTransfer.State.{Command, Machine}
use wsn_test_platform.PacketTransfer.Responses.{handle_response}
use wsn_test_platform.PacketTransfer.Packets.{with_commands, response_find_cb}
use wsn_test_platform.PacketTransfer.Reassembly.{handle_response-deletes}

-- No command of the list has the type.
abbrev pub IsMissing : ℕ → List Command → Type 0
IsMissing type commands = All (λ c. c.type ≢ type) commands

-- The first command of a type is taken out of a list, and the others keep their order; a list without
-- such a command stays as it is.
abbrev pub IsTakenOut : ℕ → List Command → List Command → Type 0
IsTakenOut type commands left =
    ((pre post : List Command) × (c : Command) × (commands ≡ pre ++ (c ∷ post))
      × IsMissing type pre
      × (c.type ≡ type)
      × (left ≡ pre ++ post))
    ⊎ (IsMissing type commands × (left ≡ commands))

same : (a b : ℕ) → (a == b) ≡ true → a ≡ b
same a b h = ground arith

differs : (a b : ℕ) → (a == b) ≡ false → a ≢ b
differs a b h e = ground arith

found-IsTakenOut :
    (type : ℕ) (commands : List Command)
    → IsTakenOut type commands (delete_at (find_datum (response_find_cb type) commands) commands)
found-IsTakenOut type [] = inr (tt, refl)
found-IsTakenOut type (c ∷ commands) = elim (Bool-cases (c.type == type)) [
  | inl this ↦ rw this (inl ([], commands, c, refl, tt, same c.type type this, refl))
  | inr other ↦ rw other (elim (found-IsTakenOut type commands) [
    | inl (pre, post, d, split, missing, is, left) ↦ inl (
      c ∷ pre,
      post,
      d,
      ap (λ t. c ∷ t) split,
      (differs c.type type other, missing),
      is,
      ap (λ t. c ∷ t) left,
    )
    | inr (missing, left) ↦ inr ((differs c.type type other, missing), ap (λ t. c ∷ t) left)
  ])
]

module _ {W : Type 0} (sys : System W) where
  -- Where commands are pending at the port of the response, `handle_response` takes out of that port's
  -- list the first command whose type is the low byte of the response's type plus 0x20, and no other;
  -- without such a command the list stays as it is. The other lists, the response, the state and the
  -- world are what they were: no LED is switched.
  pub handle_response-answered :
      (m : Machine W) (c : Command) (cs : List Command)
      → get_elem? m.transfer.command_set m.transfer.response.port_id ≡ some (c ∷ cs)
      → (left : List Command) × IsTakenOut ((m.transfer.response.type + 32) % 256) (c ∷ cs) left
        × (handle_response sys m
            ≡ ok tt (record {
              transfer =
                  with_commands
                    (set m.transfer.command_set m.transfer.response.port_id left)
                    m.transfer;
              world = m.world;
            }))
  handle_response-answered m c cs at =
      let type = (m.transfer.response.type + 32) % 256 in
      (
        delete_at (find_datum (response_find_cb type) (c ∷ cs)) (c ∷ cs),
        found-IsTakenOut type (c ∷ cs),
        handle_response-deletes sys m c cs at,
      )
