-- ===== src/PacketTransfer/Reset.antt =====
-- What `packet_transfer_reset` of app/packet_transfer.c does to the command lists.
use wsn_test_platform.Shared.{
  ℕ, zero, suc, ◌+◌, ◌≤◌, ◌<◌, none, some, List, [], ◌∷◌, Ret, ret_ok, Run, ok, fault, out_of_fuel,
  get_elem?, length, ◌≡◌, ◌≢◌, refl, ap, arith, lt→ltb, le→ltb_false,
}
use wsn_test_platform.Kernel.{System}
use wsn_test_platform.PacketTransfer.State.{Command, Machine, response_zero}
use wsn_test_platform.PacketTransfer.Packets.{with_response}
use wsn_test_platform.PacketTransfer.Session.{
  packet_transfer_reset, reset_lists, reset_list, and_lists, with_socket,
}

-- No list has more commands than its port's number, counted from `i`.
abbrev pub AllShort : ℕ → List (List Command) → Type 0
AllShort i [] = Unit
AllShort i (commands ∷ set) = (length commands ≤ i) × AllShort (i + 1) set

data Stuck {S A : Type 0} : Run S A → Type 0 where
  by_fault : Stuck fault
  by_fuel : Stuck out_of_fuel

Stuck-ok : {S A : Type 0} {r : Run S A} {a : A} {s : S} → Stuck r → r ≢ ok a s
Stuck-ok by_fault e = grind arith
Stuck-ok by_fuel e = grind arith

reset_list-Stuck :
    (k i j size : ℕ) (commands : List Command) → i < size → Stuck (reset_list k i j size commands)
unfolding reset_list
reset_list-Stuck zero i j size commands h = by_fuel
reset_list-Stuck (suc k) i j size [] h = rw (lt→ltb i size h) by_fault
reset_list-Stuck (suc k) i j size (c ∷ commands) h =
    rw (lt→ltb i size h) (reset_list-Stuck k i (j + 1) size _ h)

first_Stuck :
    (r : Run (List Command) (Unit {0})) (rest : Run (Unit {0}) (List (List Command)))
    → Stuck r
    → Stuck (and_lists r rest)
first_Stuck (ok u left) rest stuck = elim stuck [ ]
first_Stuck fault rest by_fault = by_fault
first_Stuck out_of_fuel rest by_fuel = by_fuel

rest_Stuck :
    (r : Run (List Command) (Unit {0})) (rest : Run (Unit {0}) (List (List Command)))
    → Stuck rest
    → Stuck (and_lists r rest)
rest_Stuck (ok u left) (ok lefts v) stuck = elim stuck [ ]
rest_Stuck (ok u left) fault by_fault = by_fault
rest_Stuck (ok u left) out_of_fuel by_fuel = by_fuel
rest_Stuck fault rest stuck = by_fault
rest_Stuck out_of_fuel rest stuck = by_fuel

reset_lists-Stuck :
    (fuel i n : ℕ) (set : List (List Command)) (commands : List Command)
    → get_elem? set n ≡ some commands
    → i + n < length commands
    → Stuck (reset_lists fuel i set)
unfolding reset_lists
reset_lists-Stuck fuel i n [] commands at h = absurd (grind arith)
reset_lists-Stuck fuel i zero (c ∷ set) commands at h =
    let same : length c ≡ length commands =
      ap (λ o. elim o [ none ↦ length c | some a ↦ length a ]) at in
    first_Stuck _ _ (reset_list-Stuck fuel i 0 (length c) c (omega (arith, same)))
reset_lists-Stuck fuel i (suc n) (c ∷ set) commands at h =
    rest_Stuck _ _ (reset_lists-Stuck fuel (i + 1) n set commands at (omega arith))

reset-Stuck :
    {W : Type 0} {r : Run (Unit {0}) (List (List Command))}
    (k : List (List Command) → Run (Machine W) Ret)
    → Stuck r
    → Stuck (elim r [ ok lists u ↦ k lists | fault ↦ fault | out_of_fuel ↦ out_of_fuel ])
reset-Stuck k by_fault = by_fault
reset-Stuck k by_fuel = by_fuel

reset_lists-AllShort :
    (fuel i : ℕ) (set : List (List Command))
    → AllShort i set
    → reset_lists (suc fuel) i set ≡ ok set tt
unfolding reset_lists reset_list
reset_lists-AllShort fuel i [] h = refl
reset_lists-AllShort fuel i (commands ∷ set) (here, there) = rw (
  reset_lists,
  reset_list,
  le→ltb_false i (length commands) here,
  reset_lists-AllShort fuel (i + 1) set there,
)

module _ {W : Type 0} (sys : System W) where
  -- Where no list is longer than its port's number, `packet_transfer_reset` returns RET_OK, clears
  -- the response and closes the socket, and deletes no command.
  pub packet_transfer_reset-keeps_commands :
      (fuel : ℕ) (m : Machine W)
      → AllShort 0 m.transfer.command_set
      → packet_transfer_reset sys (suc fuel) m
        ≡ ok ret_ok (record {
          transfer =
              with_socket none (with_response response_zero m.transfer.packet_state m.transfer);
          world = elim m.transfer.uploader_socket [
            | none ↦ m.world
            | some fd ↦ sys.close fd m.world
          ];
        })
  unfolding packet_transfer_reset
  packet_transfer_reset-keeps_commands fuel m h =
      rw (packet_transfer_reset, reset_lists-AllShort fuel 0 m.transfer.command_set h)

  -- Where the list of some port has more commands than the port's number, `packet_transfer_reset`
  -- does not return, whatever the rounds it is given.
  pub packet_transfer_reset-never_returns :
      (fuel port : ℕ) (commands : List Command) (ret : Ret) (m n : Machine W)
      → get_elem? m.transfer.command_set port ≡ some commands
      → port < length commands
      → packet_transfer_reset sys fuel m ≢ ok ret n
  unfolding packet_transfer_reset
  packet_transfer_reset-never_returns fuel port commands ret m n at long = Stuck-ok (
      reset-Stuck _
        (reset_lists-Stuck fuel 0 port m.transfer.command_set commands at (omega arith)))
