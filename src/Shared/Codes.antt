-- ===== src/Shared/Codes.antt =====
-- The return codes of common/common.h.
pub data Ret : Type 0 where
  ret_ok ret_oom ret_stop ret_invalid_params ret_fail : Ret
