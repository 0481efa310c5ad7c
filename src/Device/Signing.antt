-- ===== src/Device/Signing.antt =====
-- device/node/signing.go: XEdDSA packet signing and the receive policy. A function that changes the
-- packet or the node database returns them. `now` is the clock in Unix seconds.
pub mod Accept
pub mod Identity
mod Examples
use meshtastic_go.Common.{
  ℕ, zero, suc, ◌+◌, ◌-◌, ◌*◌, ◌/◌, ◌%◌, ◌^◌, ◌≤◌, ◌<◌, bit_and, bit_or, bit_xor, ◌≡◌, refl, sym,
  ap, ◌∙◌, ◌≢◌, ◌↔◌, ◌⊎◌, inl, inr, Bool, true, false, not, ◌&&◌, ◌||◌, Option, none, some, List,
  [], ◌∷◌, ◌++◌, map, arith, ltb, leb, ◌==◌, if◌then◌else◌, bool_eq, ==_iff, ==_refl, Bool-cases,
  Option-cases, is_some, length, get_elem?, get_or, take, drop, replicate, select, find_first, All,
  length-append, Bytes, bytes_eq, bytes_eq_iff, bytes_eq_refl, text,
}
use meshtastic_go.Proto.{
  Data, MeshPacket, User, empty_user, NodeInfo, ProtoCodec, Ciphers, SignaturePolicy, compatible,
  balanced, strict, nodeinfo_app, position_app, telemetry_app, waypoint_app,
}
use meshtastic_go.Crypto.Keys.{public_key_size}
use meshtastic_go.Crypto.Packet.{
  xeddsa_signature_size, xeddsa_signature_field_bytes, sign_packet_data, verify_packet_data,
}
use meshtastic_go.NodeId.{is_broadcast, matches_public_key}
use meshtastic_go.NodeDb.{NodeDb, update, get}
use meshtastic_go.Device.Config.{BaseConfig}

abbrev pub lora_header_length : ℕ
lora_header_length = 16

abbrev pub max_lora_payload : ℕ
max_lora_payload = 255

-- A callback that may be nil, called at an id.
abbrev pub call {ℓ} : {A : Type ℓ} → Option (ℕ → Option A) → ℕ → Option A
call none id = none
call (some f) id = f id

module _ (codec : ProtoCodec) where
  unfoldable pub signed_data_fits : Data → Bool
  signed_data_fits d =
      let sized = record d { xeddsa_signature = replicate xeddsa_signature_size 0 } in
      leb (codec.size_data sized + lora_header_length) max_lora_payload

  -- the ports whose payload is sized again without unknown fields
  abbrev pub is_typed_port : ℕ → Bool
  is_typed_port p =
      p == position_app || p == telemetry_app || p == waypoint_app || p == nodeinfo_app

  unfoldable pub canonical_signable_size : Data → ℕ
  canonical_signable_size d =
      if not (is_typed_port d.portnum)
      then codec.size_data d
      else elim (codec.canonical_size d.portnum d.payload) [
        | none ↦ codec.size_data d
        | some canonical ↦
            if ltb (length d.payload) canonical
            then codec.size_data d
            else codec.size_data (record d { payload = take canonical d.payload })
      ]

-- With a signature where the key signs.
abbrev pub attach : Option Bytes → Data → Data
attach none d = d
attach (some sig) d = record d { xeddsa_signature = sig }

abbrev pub sized_key : Option Bytes → Option Bytes
sized_key none = none
sized_key (some key) = if not (length key == public_key_size) then none else some key

abbrev pub ask_public_key : Option (NodeDb → ℕ → Option Bytes) → NodeDb → ℕ → Option Bytes
ask_public_key none db id = none
ask_public_key (some f) db id = sized_key (f db id)

abbrev pub signs : Option NodeInfo → Bool
signs none = false
signs (some info) = info.has_xeddsa_signed

pub data BootstrapResult : Type 0 where
  not_applicable verified invalid : BootstrapResult

abbrev pub or_empty_user : Option User → User
or_empty_user none = empty_user
or_empty_user (some u) = u

-- The function that verifyFirstContactNodeInfo applies to the sender's entry.
abbrev pub learn_key : Bytes → NodeInfo → NodeInfo
learn_key key info = record info {
  user = some (record (or_empty_user info.user) { public_key = key });
  has_xeddsa_signed = true;
}

-- What checkSignaturePolicy answers, with the packet and the database as it leaves them.
pub record Verdict : Type 0 where
  pub signed : Bool
  pub accept : Bool
  pub packet : MeshPacket
  pub db : NodeDb

module _ (codec : ProtoCodec) (c : Ciphers) (b : BaseConfig) where
  abbrev sign_with : Option Bytes → Data → ℕ → ℕ → Data
  sign_with none d from packet_id = d
  sign_with (some key) d from packet_id =
      if not (signed_data_fits codec d)
      then d
      else attach (sign_packet_data c key from packet_id d.portnum d.payload) d

  unfoldable pub sign_outbound : Data → ℕ → ℕ → ℕ → Bool → Data
  unfolding signed_data_fits is_broadcast
  sign_outbound d from packet_id to pki =
      let unsigned = record d { xeddsa_signature = [] } in
      if pki || not (b.licensed || is_broadcast to)
      then unsigned
      else sign_with (call b.private_key_for from) unsigned from packet_id

  unfoldable pub lookup_public_key : NodeDb → ℕ → Option Bytes
  lookup_public_key db id = ask_public_key b.public_key_for db id

  unfoldable pub is_known_signer : NodeDb → ℕ → Bool
  is_known_signer db from = b.has_db && signs (get from db)

  unfoldable pub mark_signer : ℕ → ℕ → NodeDb → NodeDb
  mark_signer now from db =
      if b.has_db then update now from (λ info. record info { has_xeddsa_signed = true }) db else db

  abbrev pub first_contact : ℕ → MeshPacket → Data → NodeDb → Option User → NodeDb × BootstrapResult
  first_contact now pkt d db none = (db, invalid)
  first_contact now pkt d db (some user) =
      let key = user.public_key in
      if not (matches_public_key pkt.from key)
        || not (verify_packet_data c key pkt.from pkt.id d.portnum d.payload d.xeddsa_signature)
      then (db, invalid)
      else if not b.has_db
      then (db, invalid)
      else (update now pkt.from (learn_key key) db, verified)

  unfoldable pub verify_first_contact_node_info :
      ℕ → MeshPacket → Data → NodeDb → NodeDb × BootstrapResult
  verify_first_contact_node_info now pkt d db =
      if not (d.portnum == nodeinfo_app)
      then (db, not_applicable)
      else first_contact now pkt d db (codec.unmarshal_user d.payload)

  -- A 64-byte signature and no key on record for the sender.
  abbrev pub check_bootstrap : MeshPacket → NodeDb × BootstrapResult → Verdict
  check_bootstrap pkt (db, verified) = record {
    signed = true;
    accept = true;
    packet = record pkt { xeddsa_signed = true };
    db = db;
  }
  check_bootstrap pkt (db, invalid) = record {
    signed = false;
    accept = false;
    packet = pkt;
    db = db;
  }
  check_bootstrap pkt (db, not_applicable) = record {
    signed = false;
    accept = elim b.signature_policy [ strict ↦ false | _ ↦ true ];
    packet = pkt;
    db = db;
  }

  abbrev pub check_signed : ℕ → MeshPacket → Data → NodeDb → Option Bytes → Verdict
  check_signed now pkt d db none = check_bootstrap pkt (verify_first_contact_node_info now pkt d db)
  check_signed now pkt d db (some key) =
      if not (verify_packet_data c key pkt.from pkt.id d.portnum d.payload d.xeddsa_signature)
      then record { signed = false; accept = false; packet = pkt; db = db }
      else record {
        signed = true;
        accept = true;
        packet = record pkt { xeddsa_signed = true };
        db = mark_signer now pkt.from db;
      }

  -- An unsigned packet that is not PKI-encrypted.
  abbrev pub accept_unsigned : SignaturePolicy → MeshPacket → Data → NodeDb → Bool
  accept_unsigned strict pkt d db = false
  accept_unsigned balanced pkt d db = not (
      is_known_signer db pkt.from
      && ((is_broadcast pkt.to || b.licensed)
          && leb
              (canonical_signable_size codec d + xeddsa_signature_field_bytes + lora_header_length)
              max_lora_payload))
  accept_unsigned compatible pkt d db = true

  unfoldable pub check_signature_policy : ℕ → MeshPacket → Data → Bool → NodeDb → Verdict
  unfolding verify_first_contact_node_info mark_signer is_known_signer canonical_signable_size
      is_broadcast
  check_signature_policy now pkt d is_pki db =
      let pkt' = record pkt { xeddsa_signed = false } in
      let size = length d.xeddsa_signature in
      if size == xeddsa_signature_size
      then check_signed now pkt' d db (lookup_public_key db pkt.from)
      else if not (size == 0)
      then record { signed = false; accept = false; packet = pkt'; db = db }
      else if is_pki
      then record { signed = false; accept = true; packet = pkt'; db = db }
      else record {
        signed = false;
        accept = accept_unsigned b.signature_policy pkt' d db;
        packet = pkt';
        db = db;
      }

  -- pinIdentity: whether a NodeInfo may be stored, and the user to store.
  abbrev pub pin_to : User → User → User × Bool
  pin_to held user =
      if length held.public_key == public_key_size && not (bytes_eq held.public_key user.public_key)
      then (record user { public_key = held.public_key }, true)
      else (user, true)

  abbrev pub pin_user : NodeInfo → User → Option User → User × Bool
  pin_user existing user none = (user, true)
  pin_user existing user (some held) =
      if existing.has_xeddsa_signed then (user, false) else pin_to held user

  abbrev pub pin_existing : User → Option NodeInfo → User × Bool
  pin_existing user none = (user, true)
  pin_existing user (some existing) = pin_user existing user existing.user

  unfoldable pub pin_identity : ℕ → User → Bool → NodeDb → User × Bool
  pin_identity from user signed db =
      if signed || not b.has_db then (user, true) else pin_existing user (get from db)
