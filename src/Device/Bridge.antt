-- ===== src/Device/Bridge.antt =====
-- device/node/bridge.go: a BridgeNode. BridgeConfig.validate and NewBridge, and the packet ids and
-- calls that the world gives a bridge.
pub mod Context
pub mod Request
pub mod Send
pub mod Route
pub mod Respond
pub mod Receive
pub mod Identity
mod Examples
use meshtastic_go.Common.{
  ℕ, zero, suc, ◌+◌, ◌-◌, ◌*◌, ◌/◌, ◌%◌, ◌^◌, ◌≤◌, ◌<◌, bit_and, bit_or, bit_xor, ◌≡◌, refl, sym,
  ap, ◌∙◌, ◌≢◌, ◌↔◌, ◌⊎◌, inl, inr, Bool, true, false, not, ◌&&◌, ◌||◌, Option, none, some, List,
  [], ◌∷◌, ◌++◌, map, arith, ltb, leb, ◌==◌, if◌then◌else◌, bool_eq, ==_iff, ==_refl, Bool-cases,
  Option-cases, is_some, length, get_elem?, get_or, take, drop, replicate, select, find_first, All,
  length-append, Bytes, bytes_eq, bytes_eq_iff, bytes_eq_refl, text,
}
use meshtastic_go.Channel.{ChannelDef, ChannelRegistry, new_channel_registry, lookup_pair, register}
use meshtastic_go.Dedupe.{new_deduplicator}
use meshtastic_go.Device.Config.{BaseConfig}
use meshtastic_go.Device.Base.{Env, BaseState}
use meshtastic_go.Device.Node.{or_text, capped_hops, private_hw, settings_def, register_all, hour}
use meshtastic_go.NodeDb.{NodeDb, get, update, set_channel}
use meshtastic_go.NodeId.Text.{default_long_name, default_short_name}
use meshtastic_go.Proto.{ChannelSettings, NodeInfo, User, Telemetry, SignaturePolicy}
use meshtastic_go.Throttle.{new_request_throttle}

-- What NodeInfoForNode returns with ok.
pub record NodeNames : Type 0 where
  pub long_name : Bytes
  pub short_name : Bytes
  pub public_key : Bytes

-- A callback that may be nil is an Option, and so are a nil key and an error. Callbacks depend on
-- their arguments alone, and the one for host metrics on the time.
pub record BridgeConfig : Type 0 where
  pub has_transport : Bool
  pub node_id : ℕ
  pub long_name : Bytes
  pub short_name : Bytes
  pub hw_model : ℕ
  pub channels : Option (List ChannelSettings)
  pub default_hop_limit : ℕ
  pub ok_to_mqtt : Bool
  pub is_managed_node : Option (ℕ → Bool)
  pub private_key_for_node : Option (ℕ → Option Bytes)
  pub public_key_for_node : Option (ℕ → Option Bytes)
  pub signature_policy : SignaturePolicy
  pub licensed : Bool
  pub node_info_for_node : Option (ℕ → Option NodeNames)
  pub neighbor_provider : Option (ℕ → List ℕ)
  pub neighbor_broadcast_interval : ℕ
  pub host_metrics_provider : Option (ℕ → Option Telemetry)
  -- in Unix seconds; 0 is the zero time
  pub start_time : ℕ

-- `b.cfg.IsManagedNode`, which validate has found not to be nil
abbrev pub is_managed : Option (ℕ → Bool) → ℕ → Bool
is_managed none id = false
is_managed (some f) id = f id

abbrev pub ask_key : Option (ℕ → Option Bytes) → ℕ → Option Bytes
ask_key none id = none
ask_key (some f) id = f id

abbrev filled_bridge : ℕ → BridgeConfig → BridgeConfig
filled_bridge unix cfg = record cfg {
  long_name = or_text cfg.long_name (default_long_name cfg.node_id);
  short_name = or_text cfg.short_name (default_short_name cfg.node_id);
  hw_model = (if cfg.hw_model == 0 then private_hw else cfg.hw_model);
  default_hop_limit = capped_hops cfg.default_hop_limit;
  start_time = (if cfg.start_time == 0 then unix else cfg.start_time);
}

abbrev has_settings : Option (List ChannelSettings) → Bool
has_settings none = false
has_settings (some []) = false
has_settings (some (s ∷ l)) = true

-- `none` is an error.
unfoldable pub validate_bridge : ℕ → BridgeConfig → Option BridgeConfig
unfolding default_long_name default_short_name
validate_bridge unix cfg =
    if not cfg.has_transport
    then none
    else if cfg.node_id == 0
    then none
    else if not (has_settings cfg.channels)
    then none
    else if not (is_some cfg.is_managed_node)
    then none
    else some (filled_bridge unix cfg)

abbrev user_key : Option User → Option Bytes
user_key none = none
user_key (some user) = some user.public_key

abbrev known_key : Option NodeInfo → Option Bytes
known_key none = none
known_key (some info) = user_key info.user

abbrev or_known : Option Bytes → Option NodeInfo → Option Bytes
or_known none info = known_key info
or_known (some key) info = some key

-- The key of the application's own store, or the one that the node database has learned.
unfoldable pub bridge_public_key : BridgeConfig → NodeDb → ℕ → Option Bytes
unfolding get
bridge_public_key cfg db id = or_known (ask_key cfg.public_key_for_node id) (get id db)

abbrev pub bridge_base : BridgeConfig → ChannelDef → BaseConfig
bridge_base cfg primary = record {
  node_id = cfg.node_id;
  ok_to_mqtt = cfg.ok_to_mqtt;
  hop_limit = cfg.default_hop_limit;
  primary = primary;
  has_db = true;
  signature_policy = cfg.signature_policy;
  licensed = cfg.licensed;
  private_key_for = some (ask_key cfg.private_key_for_node);
  public_key_for = some (bridge_public_key cfg);
}

abbrev pub start_bridge : BridgeConfig → ChannelRegistry → BaseState
start_bridge cfg channels = record {
  channels = channels;
  dedup = new_deduplicator (2 * hour);
  packet_ids = record { counter = 0 };
  throttle = new_request_throttle;
  db = record {
    self_node = cfg.node_id;
    long_name = cfg.long_name;
    short_name = cfg.short_name;
    nodes = [];
    channels = [];
  };
  last_send = none;
  sent = [];
}

-- A BridgeNode as NewBridge builds it.
pub record BridgeNode : Type 0 where
  pub config : BridgeConfig
  pub base : BaseConfig
  pub state : BaseState

abbrev pub build_bridge : BridgeConfig → Option (List ChannelSettings) → Option BridgeNode
build_bridge cfg none = none
build_bridge cfg (some []) = none
build_bridge cfg (some (s ∷ l)) = elim (settings_def s) [
  | none ↦ none
  | some primary ↦ some (record {
    config = cfg;
    base = bridge_base cfg primary;
    state = start_bridge cfg (register_all (s ∷ l) new_channel_registry);
  })
]

abbrev build_validated : Option BridgeConfig → Option BridgeNode
build_validated none = none
build_validated (some cfg) = build_bridge cfg cfg.channels

unfoldable pub new_bridge : ℕ → BridgeConfig → Option BridgeNode
unfolding validate_bridge register_all new_deduplicator new_channel_registry bridge_public_key
new_bridge unix cfg = build_validated (validate_bridge unix cfg)

abbrev remember_on : ℕ → ℕ → Option ChannelDef → BaseState → BaseState × Bool
remember_on unix id none s = (s, false)
remember_on unix id (some registered) s =
    (record s { db = set_channel id (some registered) (update unix id (λ info. info) s.db) }, true)

-- SetNodeChannel
unfoldable pub set_node_channel : ℕ → ℕ → Option ChannelDef → BaseState → BaseState × Bool
unfolding lookup_pair update set_channel
set_node_channel unix id none s = (s, false)
set_node_channel unix id (some ch) s =
    remember_on unix id (lookup_pair ch.name ch.key_bytes s.channels) s

-- What a call that sends up to two packets reads: an Env for each of them, and the extra nonce that
-- EncryptCurve25519 draws.
pub record BridgeEnv : Type 0 where
  pub first : Env
  pub second : Env
  pub draw : ℕ
