-- ===== src/Device/Node.antt =====
-- device/node/node.go, pki.go and send.go: a Node. Config.validate and New.
pub mod Options
pub mod Send
pub mod Receive
pub mod Identity
mod Examples
use meshtastic_go.Common.{
  ℕ, zero, suc, ◌+◌, ◌-◌, ◌*◌, ◌/◌, ◌%◌, ◌^◌, ◌≤◌, ◌<◌, bit_and, bit_or, bit_xor, ◌≡◌, refl, sym,
  ap, ◌∙◌, ◌≢◌, ◌↔◌, ◌⊎◌, inl, inr, Bool, true, false, not, ◌&&◌, ◌||◌, Option, none, some, List,
  [], ◌∷◌, ◌++◌, map, arith, ltb, leb, ◌==◌, if◌then◌else◌, bool_eq, ==_iff, ==_refl, Bool-cases,
  Option-cases, is_some, length, get_elem?, get_or, take, drop, replicate, select, find_first, All,
  length-append, Bytes, bytes_eq, bytes_eq_iff, bytes_eq_refl, text,
}
use meshtastic_go.Channel.{
  ChannelDef, Channel, channel_def, channel_from_settings, ChannelRegistry, new_channel_registry,
  register,
}
use meshtastic_go.Dedupe.{new_deduplicator}
use meshtastic_go.Device.Config.{BaseConfig}
use meshtastic_go.Device.Base.{BaseState}
use meshtastic_go.NodeDb.{NodeDb, get}
use meshtastic_go.NodeId.{node_id_from_public_key, matches_public_key}
use meshtastic_go.NodeId.Text.{default_long_name, default_short_name}
use meshtastic_go.Crypto.Keys.{public_key_size}
use meshtastic_go.Proto.{ChannelSettings, NodeInfo, User, SignaturePolicy}
use meshtastic_go.Throttle.{new_request_throttle}

abbrev pub max_hops : ℕ
max_hops = 7

abbrev pub default_hop_limit : ℕ
default_hop_limit = 3

-- HardwareModel_PRIVATE_HW
abbrev pub private_hw : ℕ
private_hw = 255

-- The fields that the packet path reads. A nil ChannelSet is `none`; the settings in it are not nil.
-- A nil key is the empty byte string.
pub record Config : Type 0 where
  pub has_transport : Bool
  pub node_id : ℕ
  pub long_name : Bytes
  pub short_name : Bytes
  pub hw_model : ℕ
  pub channels : Option (List ChannelSettings)
  pub position_latitude_i : ℕ
  pub position_longitude_i : ℕ
  pub position_altitude : ℕ
  pub private_key : Bytes
  pub public_key : Bytes
  pub signature_policy : SignaturePolicy
  pub licensed : Bool
  pub default_hop_limit : ℕ
  pub ok_to_mqtt : Bool

pub data Validated : Type 0 where
  valid : Config → Validated
  identity_mismatch refused : Validated

abbrev or_zero : Option ℕ → ℕ
or_zero none = 0
or_zero (some n) = n

-- The configuration once its node id is filled in from the key.
abbrev pub identified : Config → Config
identified cfg =
    if cfg.node_id == 0 && length cfg.public_key == public_key_size
    then record cfg { node_id = or_zero (node_id_from_public_key cfg.public_key) }
    else cfg

abbrev pub or_text : Bytes → Bytes → Bytes
or_text s t = if length s == 0 then t else s

abbrev pub capped_hops : ℕ → ℕ
capped_hops n =
    let hops = if n == 0 then default_hop_limit else n in
    if ltb max_hops hops then max_hops else hops

-- The defaults at the end of `validate`.
abbrev pub filled : Config → Config
filled cfg = record cfg {
  long_name = or_text cfg.long_name (default_long_name cfg.node_id);
  short_name = or_text cfg.short_name (default_short_name cfg.node_id);
  hw_model = (if cfg.hw_model == 0 then private_hw else cfg.hw_model);
  default_hop_limit = capped_hops cfg.default_hop_limit;
}

abbrev pub with_channels : Config → Option (List ChannelSettings) → Validated
with_channels cfg none = refused
with_channels cfg (some []) = refused
with_channels cfg (some (s ∷ l)) = valid (filled cfg)

unfoldable pub validate : Config → Validated
unfolding node_id_from_public_key matches_public_key default_long_name default_short_name
validate cfg =
    if not cfg.has_transport
    then refused
    else if ltb 0 (length cfg.public_key) && not (length cfg.public_key == public_key_size)
    then refused
    else if (identified cfg).node_id == 0
    then refused
    else if ltb 0 (length cfg.public_key)
        && not (matches_public_key (identified cfg).node_id cfg.public_key)
    then identity_mismatch
    else with_channels (identified cfg) cfg.channels

abbrev stored_key : Option User → Option Bytes
stored_key none = none
stored_key (some user) = if ltb 0 (length user.public_key) then some user.public_key else none

abbrev info_key : Option NodeInfo → Option Bytes
info_key none = none
info_key (some info) = stored_key info.user

-- `n.lookupPublicKey`, whose nil is `none`.
unfoldable pub lookup_public_key : NodeDb → ℕ → Option Bytes
unfolding get
lookup_public_key db id = info_key (get id db)

-- The channel of `core.ChannelFromSettings(settings)`.
abbrev pub settings_def : ChannelSettings → Option ChannelDef
settings_def settings = elim (channel_from_settings (some settings)) [
  | none ↦ none
  | some ch ↦ some (channel_def ch)
]

abbrev register_settings : Option ChannelDef → ChannelRegistry → ChannelRegistry
register_settings none r = r
register_settings (some ch) r = register ch r

unfoldable pub register_all : List ChannelSettings → ChannelRegistry → ChannelRegistry
unfolding channel_from_settings register channel_def
register_all [] r = r
register_all (settings ∷ l) r = register_all l (register_settings (settings_def settings) r)

abbrev pub hour : ℕ
hour = 3_600_000_000_000

abbrev pub nil_key : Bytes → Option Bytes
nil_key key = if length key == 0 then none else some key

abbrev pub base_config : Config → ChannelDef → BaseConfig
base_config cfg primary = record {
  node_id = cfg.node_id;
  ok_to_mqtt = cfg.ok_to_mqtt;
  hop_limit = cfg.default_hop_limit;
  primary = primary;
  has_db = true;
  signature_policy = cfg.signature_policy;
  licensed = cfg.licensed;
  private_key_for = some (λ id. if id == cfg.node_id then nil_key cfg.private_key else none);
  public_key_for = some lookup_public_key;
}

abbrev pub start : Config → ChannelRegistry → BaseState
start cfg channels = record {
  channels = channels;
  dedup = new_deduplicator (2 * hour);
  packet_ids = record { counter = 0 };
  throttle = new_request_throttle;
  db = record {
    self_node = cfg.node_id;
    long_name = cfg.long_name;
    short_name = cfg.short_name;
    nodes = [];
    channels = [];
  };
  last_send = none;
  sent = [];
}

-- A Node as New builds it: its configuration, the fixed part of its base, and its state.
pub record Built : Type 0 where
  pub config : Config
  pub base : BaseConfig
  pub state : BaseState

abbrev pub build : Config → Option (List ChannelSettings) → Option Built
build cfg none = none
build cfg (some []) = none
build cfg (some (s ∷ l)) = elim (settings_def s) [
  | none ↦ none
  | some primary ↦ some (record {
    config = cfg;
    base = base_config cfg primary;
    state = start cfg (register_all (s ∷ l) new_channel_registry);
  })
]

abbrev pub build_valid : Validated → Option Built
build_valid (valid cfg) = build cfg cfg.channels
build_valid identity_mismatch = none
build_valid refused = none

unfoldable pub new : Config → Option Built
unfolding validate register_all channel_from_settings channel_def lookup_public_key new_deduplicator
    new_channel_registry
new cfg = build_valid (validate cfg)
