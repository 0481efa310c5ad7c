-- ===== src/Device/Bridge/Send/NodeInfo.antt =====
-- device/node/bridge.go: the NodeInfo of an identity that the bridge manages.
use meshtastic_go.Common.{
  not, ℕ, Bool, true, false, Option, none, some, List, [], ◌==◌, if◌then◌else◌, length, Bytes,
}
use meshtastic_go.Device.Base.{Env, BaseState}
use meshtastic_go.Device.Bridge.{BridgeConfig, NodeNames, ask_key}
use meshtastic_go.Device.Bridge.Request.{plain_send, encrypt_psk, encrypt_pki, EncryptionMode}
use meshtastic_go.Device.Bridge.Send.{send_as, relay_packet}
use meshtastic_go.Device.Config.{BaseConfig}
use meshtastic_go.Device.Node.Options.{SendOption, apply_send_options}
use meshtastic_go.NodeId.{matches_public_key}
use meshtastic_go.NodeId.Text.{string, mac_bytes}
use meshtastic_go.Proto.{
  User, empty_data, MeshPacket, empty_packet, decoded, ProtoCodec, Ciphers, nodeinfo_app,
}

-- `true` is a nil error.
unfoldable pub check_node_info_identity : ℕ → User → Bool
unfolding matches_public_key
check_node_info_identity as_node user =
    if length user.public_key == 0 then true else matches_public_key as_node user.public_key

abbrev or_no_key : Option Bytes → Bytes
or_no_key none = []
or_no_key (some key) = key

-- The User of an identity, with its role and its flag. The roles are CLIENT_MUTE and CLIENT_BASE.
abbrev pub user_of : BridgeConfig → ℕ → Option NodeNames → Option User
user_of cfg as_node none = none
user_of cfg as_node (some names) =
    let own = as_node == cfg.node_id in
    some (record {
      id = string as_node;
      long_name = names.long_name;
      short_name = names.short_name;
      macaddr = mac_bytes as_node;
      hw_model = cfg.hw_model;
      role = (if own then 12 else 1);
      public_key = names.public_key;
      is_unmessagable = (if own then some true else none);
    })

abbrev pub ask_names : Option (ℕ → Option NodeNames) → ℕ → Option NodeNames
ask_names none as_node = none
ask_names (some f) as_node = f as_node

abbrev pub own_names : BridgeConfig → NodeNames
own_names cfg = record {
  long_name = cfg.long_name;
  short_name = cfg.short_name;
  public_key = or_no_key (ask_key cfg.public_key_for_node cfg.node_id);
}

unfoldable pub build_user_for : BridgeConfig → ℕ → Option User
unfolding string mac_bytes
build_user_for cfg as_node = user_of cfg as_node (
    if as_node == cfg.node_id
    then some (own_names cfg)
    else ask_names cfg.node_info_for_node as_node)

-- encModeFor
abbrev pub enc_mode_for : Bool → EncryptionMode
enc_mode_for use_pki = if use_pki then encrypt_pki else encrypt_psk

module _ (codec : ProtoCodec) (c : Ciphers) (b : BaseConfig) (cfg : BridgeConfig) where
  abbrev pub info_packet : ℕ → ℕ → ℕ → Bytes → MeshPacket
  info_packet as_node to request_id payload = record empty_packet {
    from = as_node;
    to = to;
    payload_variant =
        decoded (record empty_data {
          portnum = nodeinfo_app;
          payload = payload;
          request_id = request_id;
        });
  }

  abbrev pub answer_with : Env → ℕ → ℕ → ℕ → Option Bytes → BaseState → BaseState
  answer_with env as_node to request_id none st = st
  answer_with env as_node to request_id (some payload) st =
      (relay_packet codec c b cfg env as_node (info_packet as_node to request_id payload) st).0

  -- The answer of an identity with a User, unless its key does not derive its id.
  abbrev pub answer_as : Env → ℕ → ℕ → ℕ → Option User → BaseState → BaseState
  answer_as env as_node to request_id none st = st
  answer_as env as_node to request_id (some user) st =
      if not (check_node_info_identity as_node user)
      then st
      else answer_with env as_node to request_id (codec.marshal_user user) st

  unfoldable pub send_node_info_response : Env → ℕ → ℕ → ℕ → BaseState → BaseState
  unfolding build_user_for check_node_info_identity relay_packet
  send_node_info_response env as_node to request_id st =
      answer_as env as_node to request_id (build_user_for cfg as_node) st

  abbrev pub announce :
      Env → ℕ → ℕ → ℕ → List SendOption → Option Bytes → BaseState → BaseState × (ℕ × Bool)
  announce env draw from to opts none st = (st, (0, false))
  announce env draw from to opts (some payload) st =
      let o = apply_send_options opts in
      send_as codec c b cfg env draw
        (record (plain_send from to nodeinfo_app payload (enc_mode_for o.use_pki)) {
          channel = o.channel;
          want_response = o.want_response;
        })
        st

  abbrev pub announce_as :
      Env → ℕ → ℕ → ℕ → List SendOption → Option User → BaseState → BaseState × (ℕ × Bool)
  announce_as env draw from to opts none st = (st, (0, false))
  announce_as env draw from to opts (some user) st =
      if not (check_node_info_identity from user)
      then (st, (0, false))
      else announce env draw from to opts (codec.marshal_user user) st

  unfoldable pub send_node_info_as :
      Env → ℕ → ℕ → ℕ → List SendOption → BaseState → BaseState × (ℕ × Bool)
  unfolding build_user_for check_node_info_identity send_as
  send_node_info_as env draw from to opts st =
      announce_as env draw from to opts (build_user_for cfg from) st
