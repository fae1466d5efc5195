-- ===== src/Platform/Journal.antt =====
-- internal/platform/audit and internal/platform/outbox: an audit entry and an outbox event, with what
-- identifies them.
use Prim.Native.String.{String}
use kue_preorder.Prelude.{ℕ, ℤ}

pub record AuditEntry : Type 0 where
  pub action : String
  pub entity_id : ℕ
  pub actor_id : ℕ
  pub at : ℤ

pub record Event : Type 0 where
  pub type_name : String
  pub entity_id : ℕ
  pub at : ℤ
