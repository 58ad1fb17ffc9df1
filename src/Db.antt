-- ===== src/Db.antt =====
-- db.go: commands, the multi-version key-value store that executes them, and the conflict test.
pub mod Commute
pub mod History
use paxi.Common.{
  ℕ, suc, ◌+◌, Bool, true, false, not, ◌&&◌, ◌||◌, Option, none, some, List, [], ◌∷◌, ◌++◌, Bytes,
  bytes_eq, ◌==◌, if◌then◌else◌, put,
}
use paxi.Id.{NodeId}

-- type Key int, as its 64-bit pattern; keys are only compared.
abbrev pub Key : Type 0
Key = ℕ

-- type Value []byte, where none is the nil slice.
abbrev pub Value : Type 0
Value = Option Bytes

pub record Command : Type 0 where
  pub key : Key
  pub value : Value
  pub client_id : NodeId
  pub command_id : ℕ

abbrev pub is_nil : Value → Bool
is_nil none = true
is_nil (some v) = false

-- Command.Empty
unfoldable pub empty : Command → Bool
empty c = c.key == 0 && (is_nil c.value && (bytes_eq c.client_id [] && c.command_id == 0))

unfoldable pub is_read : Command → Bool
is_read c = is_nil c.value

-- bytes.Equal takes a nil slice for an empty one.
abbrev pub contents : Value → Bytes
contents none = []
contents (some v) = v

-- Command.Equal
unfoldable pub equal : Command → Command → Bool
equal c a =
    c.key == a.key
    && (bytes_eq (contents c.value) (contents a.value)
        && (bytes_eq c.client_id a.client_id && c.command_id == a.command_id))

-- A missing key reads as nil, and nil is never stored. The mutex makes each method one step.
pub record Database : Type 0 where
  pub values : Key → Value
  pub version : ℕ
  pub multiversion : Bool
  pub history : Key → List Bytes

unfoldable pub new_database : Bool → Database
new_database multi = record {
  values = λ k. none;
  version = 0;
  multiversion = multi;
  history = λ k. [];
}

-- database.put
unfoldable pub write : Database → Key → Value → Database
write d k none = d
write d k (some v) = record d {
  values = put d.values k (some v);
  version = suc d.version;
  history = if d.multiversion then put d.history k (d.history k ++ v ∷ []) else d.history;
}

-- The value before the command is what Execute returns.
unfoldable pub execute : Database → Command → Database × Value
execute d c = (write d c.key c.value, d.values c.key)

-- database.Get
unfoldable pub get : Database → Key → Value
get d k = d.values k

-- database.Put
unfoldable pub put_value : Database → Key → Value → Database
put_value d k v = write d k v

-- database.Version, which does not read its key.
unfoldable pub get_version : Database → Key → ℕ
get_version d k = d.version

-- database.History
unfoldable pub get_history : Database → Key → List Bytes
get_history d k = d.history k

unfoldable pub conflict : Command → Command → Bool
conflict gamma delta =
    if gamma.key == delta.key
    then (if not (is_read gamma) || not (is_read delta) then true else false)
    else false

-- The inner loop of ConflictBatch, over the second batch.
unfoldable pub conflict_any : Command → List Command → Bool
conflict_any c [] = false
conflict_any c (d ∷ ds) = if conflict c d then true else conflict_any c ds

unfoldable pub conflict_batch : List Command → List Command → Bool
conflict_batch [] batch = false
conflict_batch (c ∷ cs) batch = if conflict_any c batch then true else conflict_batch cs batch

-- Executing commands in order.
unfoldable pub execute_all : Database → List Command → Database
execute_all d [] = d
execute_all d (c ∷ cs) = execute_all (execute d c).0 cs
