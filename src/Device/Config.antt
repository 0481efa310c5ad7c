-- ===== src/Device/Config.antt =====
-- device/node/base.go: the fields of baseNode that do not change once the node is built. A callback
-- that may be nil is an Option; the one for public keys may read the node database.
use meshtastic_go.Common.{ℕ, Bool, Option, Bytes}
use meshtastic_go.Channel.{ChannelDef}
use meshtastic_go.NodeDb.{NodeDb}
use meshtastic_go.Proto.{SignaturePolicy}

pub record BaseConfig : Type 0 where
  pub node_id : ℕ
  pub ok_to_mqtt : Bool
  pub hop_limit : ℕ
  pub primary : ChannelDef
  -- `b.db != nil`
  pub has_db : Bool
  pub signature_policy : SignaturePolicy
  pub licensed : Bool
  pub private_key_for : Option (ℕ → Option Bytes)
  pub public_key_for : Option (NodeDb → ℕ → Option Bytes)
