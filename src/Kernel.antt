-- ===== src/Kernel.antt =====
-- The system calls that the programs make, as a parameter of the model: `W` is the state of the
-- system outside the process.
use wsn_test_platform.Shared.{ℕ, Bool, Option}
use wsn_test_platform.Protocol.{Bytes}

pub record System (W : Type 0) : Type 0 where
  -- the block's initial, indeterminate bytes; `none` is NULL
  pub malloc : ℕ → W → Option Bytes × W
  -- the bytes that were read, `some []` for 0; `none` is -1
  pub read : ℕ → ℕ → W → Option Bytes × W
  pub write : ℕ → Bytes → W → W
  pub close : ℕ → W → W
  -- descriptor, command, value; false is -1
  pub ioctl : ℕ → ℕ → ℕ → W → Bool × W
  -- the device's number in the source's order of DEV_NAME_*; `none` is -1
  pub open_path : ℕ → W → Option ℕ × W

-- The calls on the C library's streams. A FILE pointer is its address, NULL is 0.
pub record Streams (W : Type 0) : Type 0 where
  -- path and mode
  pub fopen : Bytes → Bytes → W → ℕ × W
  -- what is to be read of a stream from its start on
  pub contents : ℕ → W → Bytes

-- The socket calls of the deployer; a descriptor of -1 is `none`, and a call that answers -1 false or
-- `none`.
pub record Net (W : Type 0) : Type 0 where
  pub socket : W → Option ℕ × W
  -- the address as text, and the port
  pub connect : Option ℕ → Bytes → ℕ → W → Bool × W
  pub read : Option ℕ → ℕ → W → Option Bytes × W
  pub write : Option ℕ → Bytes → W → Bool × W
  -- a write whose length is -1, after a read that failed
  pub write_failed_read : Option ℕ → W → Bool × W
  pub close : Option ℕ → W → W
