-- ===== src/Device/Base/Examples.antt =====
-- Sends at concrete inputs.
use meshtastic_go.Common.{◌≡◌, refl, true, some, [], ◌∷◌, replicate, text}
use meshtastic_go.Channel.{new_channel_registry}
use meshtastic_go.Crypto.Packet.{ok}
use meshtastic_go.Dedupe.{new_deduplicator}
use meshtastic_go.Device.Base.{stamped, Env, BaseState, allow_mqtt, prepare}
use meshtastic_go.Device.Signing.{sign_outbound}
use meshtastic_go.Device.Base.Sealed.{
  IsSealed, received, outbound, prepare-IsSealed, received-prepare,
}
use meshtastic_go.Fixtures.{test_codec, test_ciphers, test_base, test_db}
use meshtastic_go.Proto.{Data, empty_data, MeshPacket, empty_packet, decoded, ProtoCodec}
use meshtastic_go.Throttle.{new_request_throttle}

abbrev hello : Data
hello = record empty_data { portnum = 1; payload = text "hi" }

abbrev packet : MeshPacket
packet = record empty_packet { from = 9; to = 7; payload_variant = decoded hello }

abbrev env : Env
env = record { unix = 1000; clock = 500; seed = 3; high = 5; transmits = λ topic p. true }

abbrev state : BaseState
state = record {
  channels = new_channel_registry;
  dedup = new_deduplicator 7;
  packet_ids = record { counter = 0 };
  throttle = new_request_throttle;
  db = test_db;
  last_send = some 400;
  sent = record { topic = text "Main"; at = 400; packet = packet } ∷ [];
}

prepare-IsSealed_example :
    IsSealed test_codec test_ciphers test_base
      (stamped test_codec test_ciphers test_base 1000 77 packet test_base.primary)
      (outbound test_codec test_ciphers test_base 77 packet hello)
      test_base.primary.key_bytes
      (prepare test_codec test_ciphers test_base 1000 77 packet test_base.primary)
prepare-IsSealed_example =
    prepare-IsSealed test_codec test_ciphers test_base 1000 77 packet hello test_base.primary refl
      refl

-- A serialisation that keeps the whole of this message.
abbrev sent_data : Data
sent_data = record hello { bitfield = some 1 }

abbrev whole_codec : ProtoCodec
whole_codec = record test_codec { unmarshal_data = λ bs. some sent_data }

marshalled :
    whole_codec.marshal_data (outbound whole_codec test_ciphers test_base 77 packet hello)
    ≡ some (1 ∷ text "hi")
unfolding sign_outbound allow_mqtt
marshalled = refl

unmarshalled :
    whole_codec.unmarshal_data (1 ∷ text "hi")
    ≡ some (outbound whole_codec test_ciphers test_base 77 packet hello)
unfolding sign_outbound allow_mqtt
unmarshalled = refl

received-prepare_example :
    received whole_codec test_ciphers test_base
      (prepare whole_codec test_ciphers test_base 1000 77 packet test_base.primary)
      (replicate 16 1)
    ≡ ok (outbound whole_codec test_ciphers test_base 77 packet hello)
received-prepare_example =
    received-prepare whole_codec test_ciphers test_base 1000 77 packet hello test_base.primary
      (1 ∷ text "hi") (λ key iv t. refl) refl refl refl marshalled unmarshalled
