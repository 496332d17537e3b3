-- ===== src/TelnetCommander/Waiting.antt =====
-- The wait for a text in deployer/telnet_commander.c comes to an end.
use wsn_test_platform.Shared.{
  ℕ, ◌+◌, ◌≤◌, ◌<◌, Option, none, some, List, [], Ret, ret_ok, ret_fail, Run, ok, length, ◌≡◌,
  Returns,
}
use wsn_test_platform.Protocol.{Bytes}
use wsn_test_platform.TelnetCommander.{TelnetSystem, Machine, take_block, text_of, recv_buffer_size}
use wsn_test_platform.TelnetCommander.Matching.{match_list}

-- A peer that sends finitely many bytes: `left` counts those to come, and no other call adds to them.
pub record IsFinite {W : Type 0} (sys : TelnetSystem W) (left : W → ℕ) : Type 0 where
  pub recv_le : (fd : Option ℕ) (n : ℕ) (w : W) → left (sys.recv fd n w).1 ≤ left w
  pub recv_some :
      (fd : Option ℕ) (n : ℕ) (w : W) (bs : Bytes)
      → (sys.recv fd n w).0 ≡ some bs
      → left (sys.recv fd n w).1 + length bs ≤ left w
  pub send_le : (fd : Option ℕ) (bs : Bytes) (w : W) → left (sys.send fd bs w).1 ≤ left w
  pub telnet_recv_le :
      (telnet : Option ℕ) (bs : Bytes) (w : W) → left (sys.telnet_recv telnet bs w).1 ≤ left w
  pub telnet_ttype_is_le :
      (telnet : Option ℕ) (w : W) → left (sys.telnet_ttype_is telnet w).1 ≤ left w

module _ {W : Type 0} (sys : TelnetSystem W) (left : W → ℕ) (finite : IsFinite sys left) where
  -- The socket of the machine delivers a block next.
  abbrev pub Delivers : Bytes → Machine W → Type 0
  Delivers bs m = (sys.recv m.thiz.socket recv_buffer_size m.world).0 ≡ some bs

  abbrev pub received : Machine W → Machine W
  received m = record { thiz = m.thiz; world = (sys.recv m.thiz.socket recv_buffer_size m.world).1 }

  -- Blocks that are not empty arrive one after the other, the protocol handles each of them, and none
  -- holds a wanted text.
  pub data Passes (desire_list : List Bytes) : Machine W → Machine W → Type 0 where
    here : {m : Machine W} → Passes desire_list m m
    later :
        {m n k : Machine W} (bs : Bytes)
        → Delivers bs m
        → 0 < length bs
        → take_block sys bs (received m) ≡ ok (some tt) n
        → match_list (text_of sys bs) desire_list ≡ none
        → Passes desire_list n k
        → Passes desire_list m k

  -- How the wait ends in a machine: the connection is broken or closed, the process has exited while
  -- the next block was handled, or that block holds a wanted text, of which the first is told.
  pub data IsAnswer (desire_list : List Bytes) (k : Machine W)
      : Option (Ret × Option ℕ) → Machine W → Type 0 where
    broken :
        (sys.recv k.thiz.socket recv_buffer_size k.world).0 ≡ none
        → IsAnswer desire_list k (some (ret_fail, none)) (received k)
    closed : Delivers [] k → IsAnswer desire_list k (some (ret_fail, none)) (received k)
    exited :
        {n : Machine W} (bs : Bytes)
        → Delivers bs k
        → take_block sys bs (received k) ≡ ok none n
        → IsAnswer desire_list k none n
    found :
        {n : Machine W} (bs : Bytes) (index : ℕ)
        → Delivers bs k
        → take_block sys bs (received k) ≡ ok (some tt) n
        → match_list (text_of sys bs) desire_list ≡ some index
        → IsAnswer desire_list k (some (ret_ok, some index)) n

  abbrev pub Answers : List Bytes → Machine W → Option (Ret × Option ℕ) → Machine W → Type 0
  Answers desire_list m r n = (k : Machine W) × Passes desire_list m k × IsAnswer desire_list k r n

  -- A block of 1024 bytes or more, behind which the NUL is not in the buffer
  abbrev pub Overruns : List Bytes → Machine W → Type 0
  Overruns desire_list m =
      (k : Machine W) × (bs : Bytes) × Passes desire_list m k × Delivers bs k × (1024 ≤ length bs)

  -- At most so much is left after the run.
  abbrev Keeps : {A : Type 0} → ℕ → Run (Machine W) (Option A) → Type 0
  Keeps n run = Returns (λ r m. left m.world ≤ n) run
