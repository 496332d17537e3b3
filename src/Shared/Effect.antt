-- ===== src/Shared/Effect.antt =====
-- Runs of stateful code: a value with the state after it, a memory fault (undefined behaviour of
-- the C code), or a loop that has used up its fuel.
use mathlib.Core.Path.{◌≡◌, refl, ap}
use native.Mathlib.Omega.{arith}
use mathlib.Core.Logic.{◌≢◌, ◌⊎◌, inl, inr}
use mathlib.Core.Bool.{Bool, true, false}
use mathlib.Core.Option.{Option, none, some}
use wsn_test_platform.Shared.Tests.{if◌then◌else◌}
use wsn_test_platform.Shared.Codes.{Ret, ret_ok, ret_oom, ret_stop, ret_invalid_params, ret_fail}

pub data Run (S A : Type 0) : Type 0 where
  ok : A → S → Run S A
  fault : Run S A
  out_of_fuel : Run S A

abbrev pub Cmd : Type 0 → Type 0 → Type 0
Cmd S A = S → Run S A

module _ {S : Type 0} where
  abbrev pub pure : {A : Type 0} → A → Cmd S A
  pure = ok

  abbrev pub and_then : {A B : Type 0} → Run S A → (A → Cmd S B) → Run S B
  and_then (ok a s) k = k a s
  and_then fault k = fault
  and_then out_of_fuel k = out_of_fuel

  infixl 5 ◌>>=◌ ◌>>◌
  abbrev pub ◌>>=◌ : {A B : Type 0} → Cmd S A → (A → Cmd S B) → Cmd S B
  m >>= k = λ s. and_then (m s) k

  abbrev pub ◌>>◌ : {A B : Type 0} → Cmd S A → Cmd S B → Cmd S B
  m >> n = m >>= λ _. n

-- `return_val_if_fail(p != NULL, RET_INVALID_PARAMS)` for a pointer that may be NULL
abbrev pub given : {S A : Type 0} → Option A → (A → Cmd S Ret) → Cmd S Ret
given none use_it = pure ret_invalid_params
given (some a) use_it = use_it a

module _ {S A B : Type 0} where
  -- What a command goes on with once its first part is known to return
  pub bind_ok :
      (m : Cmd S A) (k : A → Cmd S B) {s t : S} {a : A} → m s ≡ ok a t → (m >>= k) s ≡ k a t
  bind_ok m k e = ap (λ r. and_then r k) e

-- The run ends with a value and a state that meet `P`: no fault, and enough fuel.
pub data Returns {S A : Type 0} (P : A → S → Type 0) : Run S A → Type 0 where
  returns : {a : A} {s : S} → P a s → Returns P (ok a s)

module _ {S A : Type 0} {P : A → S → Type 0} where
  pub Returns-and_then :
      {B : Type 0} {Q : B → S → Type 0} {r : Run S A} {k : A → Cmd S B}
      → Returns P r
      → ((a : A) (s : S) → P a s → Returns Q (k a s))
      → Returns Q (and_then r k)
  Returns-and_then (returns p) next = next _ _ p

  pub Returns-mono :
      {Q : A → S → Type 0} {r : Run S A}
      → Returns P r
      → ((a : A) (s : S) → P a s → Q a s)
      → Returns Q r
  Returns-mono (returns p) weaken = returns (weaken _ _ p)

  pub Returns-value : {r : Run S A} → Returns P r → (a : A) × (s : S) × (r ≡ ok a s) × P a s
  Returns-value (returns {a} {s} p) = (a, s, refl, p)

-- The run comes to an end: with a value and a state that meet `P`, or with a memory fault.
pub data Ends {S A : Type 0} (P : A → S → Type 0) : Run S A → Type 0 where
  ended : {a : A} {s : S} → P a s → Ends P (ok a s)
  faulted : Ends P fault

module _ {S A : Type 0} {P : A → S → Type 0} where
  pub Ends-and_then :
      {B : Type 0} {Q : B → S → Type 0} {r : Run S A} (k : A → Cmd S B)
      → Ends P r
      → ((a : A) (s : S) → P a s → Ends Q (k a s))
      → Ends Q (and_then r k)
  Ends-and_then k (ended p) next = next _ _ p
  Ends-and_then k faulted next = faulted

  pub Ends-out_of_fuel : {r : Run S A} → Ends P r → r ≢ out_of_fuel
  Ends-out_of_fuel (ended p) e = grind arith
  Ends-out_of_fuel faulted e = grind arith

  pub Returns-Ends : {r : Run S A} → Returns P r → Ends P r
  Returns-Ends (returns p) = ended p

  pub Ends-mono :
      {Q : A → S → Type 0} {r : Run S A} → Ends P r → ((a : A) (s : S) → P a s → Q a s) → Ends Q r
  Ends-mono (ended p) weaken = ended (weaken _ _ p)
  Ends-mono faulted weaken = faulted

-- A run after a test, for each of its answers
module _ {S A : Type 0} {P : A → S → Type 0} where
  pub Returns-if :
      (b : Bool) (first second : Cmd S A) (s : S)
      → (b ≡ true → Returns P (first s))
      → (b ≡ false → Returns P (second s))
      → Returns P ((if b then first else second) s)
  Returns-if true first second s p q = p refl
  Returns-if false first second s p q = q refl

  pub Returns-option :
      {B : Type 0} (o : Option B) (missing : Cmd S A) (found : B → Cmd S A) (s : S)
      → Returns P (missing s)
      → ((b : B) → o ≡ some b → Returns P (found b s))
      → Returns P ((elim o as (λ x. Cmd S A) [ none ↦ missing | some b ↦ found b ]) s)
  Returns-option none missing found s p q = p
  Returns-option (some b) missing found s p q = q b refl

  pub Returns-ret :
      (ret : Ret) (good bad : Cmd S A) (s : S)
      → Returns P (good s)
      → Returns P (bad s)
      → Returns P ((elim ret as (λ x. Cmd S A) [ ret_ok ↦ good | other ↦ bad ]) s)
  Returns-ret ret_ok good bad s p q = p
  Returns-ret ret_oom good bad s p q = q
  Returns-ret ret_stop good bad s p q = q
  Returns-ret ret_invalid_params good bad s p q = q
  Returns-ret ret_fail good bad s p q = q

module _ {S A : Type 0} {P : A → S → Type 0} where
  pub Ends-if :
      (b : Bool) (first second : Cmd S A) (s : S)
      → (b ≡ true → Ends P (first s))
      → (b ≡ false → Ends P (second s))
      → Ends P ((if b then first else second) s)
  Ends-if true first second s p q = p refl
  Ends-if false first second s p q = q refl

  pub Ends-option :
      {B : Type 0} (o : Option B) (missing : Cmd S A) (found : B → Cmd S A) (s : S)
      → (o ≡ none → Ends P (missing s))
      → ((b : B) → o ≡ some b → Ends P (found b s))
      → Ends P ((elim o as (λ x. Cmd S A) [ none ↦ missing | some b ↦ found b ]) s)
  Ends-option none missing found s p q = p refl
  Ends-option (some b) missing found s p q = q b refl

-- A run that comes to its end: with a value and a state that meet `P`, or with a memory fault for the
-- reason `F`.
pub data Settles {S A : Type 0} (P : A → S → Type 0) (F : Type 0) : Run S A → Type 0 where
  settled : {a : A} {s : S} → P a s → Settles P F (ok a s)
  overrun : F → Settles P F fault

module _ {S A : Type 0} {P : A → S → Type 0} {F : Type 0} where
  pub Settles-mono :
      {Q : A → S → Type 0} {G : Type 0} {r : Run S A}
      → Settles P F r
      → ((a : A) (s : S) → P a s → Q a s)
      → (F → G)
      → Settles Q G r
  Settles-mono (settled p) f g = settled (f _ _ p)
  Settles-mono (overrun p) f g = overrun (g p)

  pub Settles-and_then :
      {B : Type 0} {Q : B → S → Type 0} {r : Run S A} (k : A → Cmd S B)
      → Settles P F r
      → ((a : A) (s : S) → P a s → Settles Q F (k a s))
      → Settles Q F (and_then r k)
  Settles-and_then k (settled p) next = next _ _ p
  Settles-and_then k (overrun p) next = overrun p

  pub Settles-option :
      {B : Type 0} (o : Option B) (missing : Cmd S A) (found : B → Cmd S A) (s : S)
      → (o ≡ none → Settles P F (missing s))
      → ((b : B) → o ≡ some b → Settles P F (found b s))
      → Settles P F ((elim o as (λ x. Cmd S A) [ none ↦ missing | some b ↦ found b ]) s)
  Settles-option none missing found s p q = p refl
  Settles-option (some b) missing found s p q = q b refl

pub Ends-cases :
    {S A : Type 0} {P : A → S → Type 0} {r : Run S A}
    → Ends P r
    → ((a : A) × (s : S) × (r ≡ ok a s) × P a s) ⊎ (r ≡ fault)
Ends-cases (ended {a} {s} p) = inl (a, s, refl, p)
Ends-cases faulted = inr refl
