-- ===== src/Model/Auth.antt =====
-- backend/app/models/auth.py, as far as the retention reads it: sign-in sessions and the counters of
-- sign-in attempts.
use v_cx_credit_guard.Prelude.{ℕ, String}
use v_cx_credit_guard.Model.Calendar.{DateTime}

pub record UtilitySession : Type 0 where
  pub id : ℕ
  pub absolute_expires_at : DateTime

pub record LoginAttempt : Type 0 where
  pub id : ℕ
  pub identifier : String
  pub ip_address : String
  pub window_started_at : DateTime
  pub attempt_count : ℕ
  pub last_attempt_at : DateTime
