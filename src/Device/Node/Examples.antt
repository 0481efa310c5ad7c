-- ===== src/Device/Node/Examples.antt =====
-- Incoming packets at concrete inputs.
use meshtastic_go.Common.{
  ℕ, zero, suc, ◌+◌, ◌-◌, ◌*◌, ◌/◌, ◌%◌, ◌^◌, ◌≤◌, ◌<◌, bit_and, bit_or, bit_xor, ◌≡◌, refl, sym,
  ap, ◌∙◌, ◌≢◌, ◌↔◌, ◌⊎◌, inl, inr, Bool, true, false, not, ◌&&◌, ◌||◌, Option, none, some, List,
  [], ◌∷◌, ◌++◌, map, arith, ltb, leb, ◌==◌, if◌then◌else◌, bool_eq, ==_iff, ==_refl, Bool-cases,
  Option-cases, is_some, length, get_elem?, get_or, take, drop, replicate, select, find_first, All,
  length-append, Bytes, bytes_eq, bytes_eq_iff, bytes_eq_refl, text,
}
use meshtastic_go.Channel.{lookup_all}
use meshtastic_go.Common.Dict.{lookup, insert}
use meshtastic_go.NodeDb.{update}
use meshtastic_go.Crypto.Packet.{Outcome, ok, err, panic, try_decode_pki}
use meshtastic_go.Dedupe.{new_deduplicator}
use meshtastic_go.Device.Base.{Env}
use meshtastic_go.Device.Node.{Config}
use meshtastic_go.Device.Handlers.{NodeState}
use meshtastic_go.Device.Node.Receive.{process_psk, process_pki, handle_incoming_packet}
use meshtastic_go.Device.Node.Receive.Fallback.{failed_pki-drops}
use meshtastic_go.Device.Node.Receive.Safe.{is_panic, handle-panic}
use meshtastic_go.Device.Node.Receive.Pipeline.{AtMostOne}
use meshtastic_go.Device.Node.Receive.Evidence.{IfOk, HasProof, handle-HasProof}
use meshtastic_go.Fixtures.{test_codec, test_ciphers, test_base, test_db, test_key, signed_packet}
use meshtastic_go.Proto.{empty_user, MeshPacket, empty_packet, encrypted, strict, Ciphers}
use meshtastic_go.Throttle.{new_request_throttle}

abbrev config : Config
config = record {
  has_transport = true;
  node_id = 9;
  long_name = [];
  short_name = [];
  hw_model = 0;
  channels = some (record { name = []; psk = 1 ∷ []; position_precision = 0 } ∷ []);
  position_latitude_i = 0;
  position_longitude_i = 0;
  position_altitude = 0;
  private_key = test_key;
  public_key = [];
  signature_policy = strict;
  licensed = false;
  default_hop_limit = 9;
  ok_to_mqtt = false;
}

abbrev env : Env
env = record { unix = 1000; clock = 500; seed = 3; high = 5; transmits = λ topic p. true }

abbrev state : NodeState
state = record {
  base = record {
    channels = record {
      order = test_base.primary ∷ [];
      by_hash = (0, test_base.primary ∷ []) ∷ [];
      by_name = (text "Main", test_base.primary ∷ []) ∷ [];
    };
    dedup = new_deduplicator 7;
    packet_ids = record { counter = 0 };
    throttle = new_request_throttle;
    db = test_db;
    last_send = none;
    sent = [];
  };
  events = [];
  dispatched = [];
}

handle-HasProof_example :
    IfOk
      (λ t.
        AtMostOne
          (HasProof test_codec test_ciphers test_base config state.base.db signed_packet)
          state.events
          t.events)
      (handle_incoming_packet test_codec test_ciphers test_base config env false [] signed_packet
        state)
handle-HasProof_example =
    handle-HasProof test_codec test_ciphers test_base config env false [] signed_packet state refl

-- Under the strict policy an unsigned packet of two encrypted bytes gives an event that is marked as PKI.
abbrev short : MeshPacket
short = record empty_packet { from = 7; to = 9; id = 3; payload_variant = encrypted (1 ∷ 65 ∷ []) }

abbrev knowing : NodeState
unfolding update
knowing = record state {
  base = record state.base {
    db =
        update 1000 7
          (λ info. record info { user = some (record empty_user { public_key = test_key }) })
          test_db;
  };
}

abbrev marks : Outcome NodeState → List (Bool × Bool)
marks (ok s) = map (λ e. (e.is_signed, e.is_pki)) s.events
marks err = []
marks panic = []

short_packet_is_pki :
    marks (
      handle_incoming_packet test_codec test_ciphers test_base
        (record config { public_key = test_key })
        env
        false
        []
        short
        knowing)
    ≡ (false, true) ∷ []
unfolding handle_incoming_packet lookup insert new_deduplicator update
short_packet_is_pki = refl

-- Ciphers with which no PKI packet opens.
abbrev closed_ciphers : Ciphers
closed_ciphers = record test_ciphers { ccm_open = λ key nonce cipher. none }

abbrev direct : MeshPacket
direct = record empty_packet {
  from = 7;
  to = 9;
  id = 3;
  payload_variant = encrypted (1 ∷ replicate 15 65);
}

channel_keys :
    All (λ ch. (length ch.key_bytes == 32) ≡ false) (lookup_all direct.channel state.base.channels)
unfolding lookup_all meshtastic_go.Common.Dict.lookup
channel_keys = (refl, tt)

pki_fails : (try_decode_pki test_codec closed_ciphers direct test_key config.private_key).1 ≡ err
unfolding try_decode_pki meshtastic_go.Crypto.Packet.try_decode
    meshtastic_go.Crypto.Packet.decrypt_curve25519
pki_fails = refl

failed_pki-drops_example :
    let failed = try_decode_pki test_codec closed_ciphers direct test_key config.private_key in
    (failed.0.pki_encrypted ≡ true)
    × (process_pki test_codec closed_ciphers test_base config env failed state
        ≡ process_psk test_codec closed_ciphers test_base config env failed.0 state)
    × (process_psk test_codec closed_ciphers test_base config env failed.0 state ≡ ok state)
failed_pki-drops_example =
    failed_pki-drops test_codec closed_ciphers test_base config env direct test_key state refl refl
      (omega arith) (omega arith) channel_keys pki_fails

handle-panic_example :
    is_panic
      (handle_incoming_packet test_codec test_ciphers test_base config env false [] direct state)
    ≡ false
handle-panic_example =
    handle-panic test_codec test_ciphers test_base config env false [] direct state refl
