-- ===== src/Device/Bridge/Identity.antt =====
-- What a bridge tells about its identities.
use meshtastic_go.Common.{ℕ, ◌⊎◌, Bytes, ◌≡◌, true, ◌||◌, none, some, ◌==◌, if◌then◌else◌, length}
use meshtastic_go.Device.Bridge.{BridgeConfig}
use meshtastic_go.NodeId.{matches_public_key}
use meshtastic_go.NodeId.Text.{string, mac_bytes}
use meshtastic_go.Proto.{User, ProtoCodec}

-- A NodeInfo that a peer can tie to its sender: it names the node, its key, if it has one, derives
-- the node's id, and only the bridge's own is that of a base station that takes no messages.
abbrev pub IsOwn : BridgeConfig → ℕ → User → Type 0
IsOwn cfg id user =
    (user.id ≡ string id)
    × (user.macaddr ≡ mac_bytes id)
    × (length user.public_key == 0 || matches_public_key id user.public_key ≡ true)
    × (user.role ≡ (if id == cfg.node_id then 12 else 1))
    × (user.is_unmessagable ≡ (if id == cfg.node_id then some true else none))

module _ (codec : ProtoCodec) (cfg : BridgeConfig) where
  -- A step that does nothing, or that is a given step on the encoding of a node's own User.
  abbrev pub OwnOrNone : {S : Type 0} → ℕ → S → (Bytes → S) → S → Type 0
  OwnOrNone id nothing step result =
      (result ≡ nothing)
      ⊎ ((user : User) × (payload : Bytes) × IsOwn cfg id user
          × (codec.marshal_user user ≡ some payload)
          × (result ≡ step payload))
