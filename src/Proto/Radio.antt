-- ===== src/Proto/Radio.antt =====
-- The messages between a device and its client. A part that the library passes on unread is its bytes.
use meshtastic_go.Common.{ℕ, Bool, Option, List, Bytes}
use meshtastic_go.Proto.Messages.{MeshPacket, NodeInfo, ChannelSettings}

pub record MyNodeInfo : Type 0 where
  pub my_node_num : ℕ
  pub reboot_count : ℕ
  pub min_app_version : ℕ

pub record DeviceMetadata : Type 0 where
  pub firmware_version : Bytes
  pub device_state_version : ℕ
  pub can_shutdown : Bool
  pub has_wifi : Bool
  pub has_bluetooth : Bool
  pub hw_model : ℕ

-- pb.LoRaPresetGroup and pb.LoRaRegionPresets
pub record PresetGroup : Type 0 where
  pub presets : List ℕ
  pub default_preset : ℕ
  pub licensed_only : Bool

pub record RegionPresets : Type 0 where
  pub region : ℕ
  pub group_index : ℕ

pub data ChannelRole : Type 0 where
  role_disabled role_primary role_secondary : ChannelRole

-- pb.Channel. A nil Settings is `none`; the position precision of the settings is the one of their
-- module settings.
pub record ChannelSlot : Type 0 where
  pub index : ℕ
  pub settings : Option ChannelSettings
  pub role : ChannelRole

-- The part of pb.Config for the device, by its serial and NodeInfo fields, and the other parts.
pub data DeviceConfig : Type 0 where
  device_config : Bool → ℕ → DeviceConfig
  other_config : Bytes → DeviceConfig

pub data FromRadio : Type 0 where
  radio_my_info : MyNodeInfo → FromRadio
  radio_metadata : DeviceMetadata → FromRadio
  radio_region_presets : List PresetGroup → List RegionPresets → FromRadio
  radio_node_info : NodeInfo → FromRadio
  radio_channel : ChannelSlot → FromRadio
  radio_config : DeviceConfig → FromRadio
  radio_module_config : Bytes → FromRadio
  radio_config_complete_id : ℕ → FromRadio
  radio_log_record radio_mqtt_proxy radio_queue_status radio_xmodem : Bytes → FromRadio
  radio_rebooted : Bool → FromRadio
  radio_packet : MeshPacket → FromRadio

pub data ToRadio : Type 0 where
  to_radio_packet : MeshPacket → ToRadio
  to_radio_want_config_id : ℕ → ToRadio
  to_radio_disconnect : ToRadio
  to_radio_other : Bytes → ToRadio
