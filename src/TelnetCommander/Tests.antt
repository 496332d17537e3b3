-- ===== src/TelnetCommander/Tests.antt =====
-- The theorem on deployer/telnet_commander.c with a peer that has two blocks to send.
use wsn_test_platform.Shared.{ℕ, ◌+◌, true, Option, none, some, List, [], ◌∷◌, length}
use wsn_test_platform.Protocol.{Bytes}
use wsn_test_platform.TelnetCommander.{TelnetSystem, Machine, prompt}

abbrev next_block : List Bytes → Option Bytes × List Bytes
next_block [] = (none, [])
next_block (block ∷ blocks) = (some block, blocks)

abbrev bytes_left : List Bytes → ℕ
bytes_left [] = 0
bytes_left (block ∷ blocks) = length block + bytes_left blocks

abbrev peer : TelnetSystem (List Bytes)
peer = record {
  telnet_init = λ w. (some 1, w);
  telnet_free = λ address w. w;
  telnet_recv = λ telnet bs w. ([], w);
  telnet_send = λ telnet bs w. ([], w);
  telnet_ttype_is = λ telnet w. ([], w);
  socket = λ w. (some 3, w);
  connect = λ fd address port w. (true, w);
  send = λ fd bs w. (some (length bs), w);
  recv = λ fd n w. next_block w;
  close = λ fd w. w;
}

-- A greeting, and then the prompt
abbrev start : Machine (List Bytes)
start = record {
  thiz = record { telnet = some 1; socket = some 3 };
  world = (b'h' ∷ b'i' ∷ []) ∷ (32 ∷ prompt) ∷ [];
}
