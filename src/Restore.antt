-- ===== src/Restore.antt =====
-- Why a versioned restore failed (app/crates/ironstate/src/error.rs).
use ironstate.Prelude.{ℕ, String}

-- `decode` has the message of the boxed source.
pub data RestoreError : Type 0 where
  newer_than_binary : (found supports : ℕ) → RestoreError
  unknown_version : (found : ℕ) → RestoreError
  decode : (version : ℕ) → String → RestoreError
