-- ===== src/Exception/Code.antt =====
-- `ErrorCode` of exception/error_code.go; a status stands for its HTTP number.
use social_network_micro_ser.Prelude.{ℕ, String}

pub record ErrorCode : Type 0 where
  pub code : ℕ
  pub message : String
  pub error : String
  pub status : ℕ
