-- ===== src/Inbound/Examples.antt =====
-- Packets that claim what they may not.
use meshtastic_go.Common.{true, some, [], ◌∷◌, text}
use meshtastic_go.Inbound.{ServiceEnvelope, sanitize_mqtt}
use meshtastic_go.Inbound.Gates.{IfPlain, FromMqtt, sanitize_mqtt-IfPlain}
use meshtastic_go.Proto.{MeshPacket, empty_packet, encrypted}

abbrev claiming : MeshPacket
claiming = record empty_packet {
  from = 7;
  to = 9;
  payload_variant = encrypted (1 ∷ []);
  pki_encrypted = true;
  xeddsa_signed = true;
}

abbrev envelope : ServiceEnvelope
envelope = record {
  channel_id = text "Main";
  gateway_id = text "!00000007";
  packet = some claiming;
}

sanitize_mqtt-IfPlain_example : IfPlain FromMqtt (sanitize_mqtt 9 envelope)
sanitize_mqtt-IfPlain_example = sanitize_mqtt-IfPlain 9 envelope
