-- ===== src/Jwt/Failure.antt =====
-- `AuthFailure` of core/src/auth.rs.

pub data AuthFailure : Type 0 where
  missing_credentials malformed_credentials invalid_credentials expired_credentials : AuthFailure
  not_yet_valid missing_signature invalid_signature stale_signature : AuthFailure
