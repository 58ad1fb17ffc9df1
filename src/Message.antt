-- ===== src/Message.antt =====
-- message.go: client requests and replies. `channel` stands for the reply channel of a request,
-- which the receiver makes; the properties of a request are never read by the protocols.
use paxi.Common.{ℕ, List, Bytes}
use paxi.Id.{NodeId}
use paxi.Db.{Command, Value}

pub record Request : Type 0 where
  pub command : Command
  pub timestamp : ℕ
  pub node_id : NodeId
  pub channel : ℕ

-- `Err` is never set by the protocols.
pub record Reply : Type 0 where
  pub command : Command
  pub value : Value
  pub properties : List (Bytes × Bytes)
  pub timestamp : ℕ
