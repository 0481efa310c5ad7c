-- ===== src/Device/Node/Receive/Safe.antt =====
-- An incoming packet does not make the node panic.
use meshtastic_go.Common.{
  ℕ, ◌-◌, ◌≡◌, refl, ap, ◌∙◌, inl, inr, Bool, true, false, not, ◌||◌, Option, none, some, List, [],
  ◌∷◌, arith, ltb, leb, ◌==◌, if◌then◌else◌, Bool-cases, length, take, drop, Bytes,
}
use meshtastic_go.Common.Endian.{of_le}
use meshtastic_go.Crypto.Nonce.{create_nonce}
use meshtastic_go.Channel.{ChannelDef, lookup_all}
use meshtastic_go.Crypto.Packet.{
  Outcome, ok, err, panic, ◌>>=◌, from_option, is_aes_length, xor, decrypt_curve25519,
  try_decode_payload, try_decode, try_decode_pki, mark_pki_payload,
}
use meshtastic_go.Device.Base.{Env}
use meshtastic_go.Device.Config.{BaseConfig}
use meshtastic_go.Device.Node.{Config, lookup_public_key}
use meshtastic_go.Device.Handlers.{NodeState, or_next, first_readable, is_duplicate}
use meshtastic_go.Device.Node.Receive.{
  should_try_pki, try_with_key, try_decrypt_pki, process_found, process_psk, process_pki,
  open_packet, handle_incoming_packet,
}
use meshtastic_go.Proto.{
  Data, MeshPacket, Payload, decoded, encrypted, unset, ProtoCodec, Ciphers, unknown_app,
}

abbrev pub payload_length : Payload → ℕ
payload_length (encrypted bs) = length bs
payload_length (decoded d) = 4
payload_length unset = 4

-- A packet is safe to decrypt if it does not claim PKI, or holds no cipher text that is too short
-- for its extra nonce.
abbrev pub is_safe : MeshPacket → Payload → Bool
is_safe pkt v = not pkt.pki_encrypted || leb 4 (payload_length v)

abbrev pub is_panic : {A : Type 0} → Outcome A → Bool
is_panic (ok a) = false
is_panic err = false
is_panic panic = true

pub bind-panic :
    {A B : Type 0} (o : Outcome A) (f : A → Outcome B)
    → is_panic o ≡ false
    → ((a : A) → is_panic (f a) ≡ false)
    → is_panic (o >>= f) ≡ false
bind-panic (ok a) f h k = k a
bind-panic err f h k = refl
bind-panic panic f h k = h

pub from_option-panic : {A : Type 0} (o : Option A) → is_panic (from_option o) ≡ false
from_option-panic none = refl
from_option-panic (some a) = refl

pub if-panic :
    {A : Type 0} (t : Bool) (x y : Outcome A)
    → (t ≡ true → is_panic x ≡ false)
    → (t ≡ false → is_panic y ≡ false)
    → is_panic (if t then x else y) ≡ false
if-panic true x y p q = p refl
if-panic false x y p q = q refl

decrypt-panic :
    (c : Ciphers) (cipher key public : Bytes) (id from : ℕ)
    → leb 4 (length cipher) ≡ true
    → is_panic (decrypt_curve25519 c cipher key public id from) ≡ false
unfolding decrypt_curve25519
decrypt-panic c cipher key public id from h =
    let long : ltb (length cipher) 4 ≡ false = ground arith in
    elim (Bool-cases (not (length key == 32) || not (length public == 32))) [
      | inl e ↦ rw e refl
      | inr e ↦
          rw (e, long)
            (bind-panic (from_option (c.x25519 key public))
              (λ k. from_option (
                c.ccm_open (c.sha256 k)
                  (take 13 (create_nonce id from (of_le (drop (length cipher - 4) cipher))))
                  (take (length cipher - 4) cipher)))
              (from_option-panic (c.x25519 key public))
              (λ k. from_option-panic (
                c.ccm_open (c.sha256 k)
                  (take 13 (create_nonce id from (of_le (drop (length cipher - 4) cipher))))
                  (take (length cipher - 4) cipher))))
    ]

xor-panic :
    (c : Ciphers) (plain key : Bytes) (id from : ℕ) → is_panic (xor c plain key id from) ≡ false
unfolding xor
xor-panic c plain key id from =
    if-panic (not (is_aes_length (length key))) err (ok (c.ctr key (create_nonce id from 0) plain))
      (λ e. refl) (λ e. refl)

module _ (codec : ProtoCodec) (c : Ciphers) where
  pub payload-panic :
      (v : Payload) (pkt : MeshPacket) (key : Bytes)
      → is_safe pkt v ≡ true
      → is_panic (try_decode_payload codec c v pkt key) ≡ false
  payload-panic (decoded d) pkt key h = refl
  payload-panic (encrypted bs) pkt key h =
      bind-panic
        (if pkt.pki_encrypted
          then decrypt_curve25519 c bs key pkt.public_key pkt.id pkt.from
          else xor c bs key pkt.id pkt.from)
        (λ plain. from_option (codec.unmarshal_data plain))
        (if-panic pkt.pki_encrypted (decrypt_curve25519 c bs key pkt.public_key pkt.id pkt.from)
          (xor c bs key pkt.id pkt.from)
          (λ e. decrypt-panic c bs key pkt.public_key pkt.id pkt.from (ground arith))
          (λ e. xor-panic c bs key pkt.id pkt.from))
        (λ plain. from_option-panic (codec.unmarshal_data plain))
  payload-panic unset pkt key h = refl

  or_next-panic :
      (ch : ChannelDef) (rest : Outcome (Option (ChannelDef × Data))) (o : Outcome Data)
      → is_panic rest ≡ false
      → is_panic o ≡ false
      → is_panic (or_next codec c ch rest o) ≡ false
  or_next-panic ch rest (ok d) p q = if-panic (d.portnum == unknown_app) _ _ (λ e. p) (λ e. refl)
  or_next-panic ch rest err p q = p
  or_next-panic ch rest panic p q = q

  pub first_readable-panic :
      (pkt : MeshPacket) (l : List ChannelDef)
      → is_safe pkt pkt.payload_variant ≡ true
      → is_panic (first_readable codec c pkt l) ≡ false
  unfolding first_readable try_decode
  first_readable-panic pkt [] h = refl
  first_readable-panic pkt (ch ∷ l) h =
      or_next-panic ch (first_readable codec c pkt l)
        (try_decode_payload codec c pkt.payload_variant pkt ch.key_bytes)
        (first_readable-panic pkt l h) (payload-panic pkt.payload_variant pkt ch.key_bytes h)

-- TryDecodePKI marks a packet only if it is long enough.
pub marked-safe :
    (v : Payload) (pkt : MeshPacket) (key : Bytes)
    → is_safe pkt v ≡ true
    → is_safe (mark_pki_payload v key pkt) v ≡ true
marked-safe (decoded d) pkt key h = h
marked-safe unset pkt key h = h
marked-safe (encrypted bs) pkt key h = ground arith

pub marked_payload :
    (v : Payload) (pkt : MeshPacket) (key : Bytes)
    → (mark_pki_payload v key pkt).payload_variant ≡ pkt.payload_variant
marked_payload (decoded d) pkt key = refl
marked_payload unset pkt key = refl
marked_payload (encrypted bs) pkt key = ground arith

module _ (codec : ProtoCodec) (c : Ciphers) (b : BaseConfig) (cfg : Config) where
  process_psk-panic :
      (env : Env) (pkt : MeshPacket) (s : NodeState)
      → is_safe pkt pkt.payload_variant ≡ true
      → is_panic (process_psk codec c b cfg env pkt s) ≡ false
  unfolding process_psk
  process_psk-panic env pkt s h =
      bind-panic (first_readable codec c pkt (lookup_all pkt.channel s.base.channels))
        (λ found. ok (process_found codec c b cfg env pkt s found))
        (first_readable-panic codec c pkt (lookup_all pkt.channel s.base.channels) h)
        (λ found. refl)

  process_pki-panic :
      (env : Env) (pkt : MeshPacket) (o : Outcome Data) (s : NodeState)
      → is_safe pkt pkt.payload_variant ≡ true
      → is_panic o ≡ false
      → is_panic (process_pki codec c b cfg env (pkt, o) s) ≡ false
  process_pki-panic env pkt (ok d) s h p = refl
  process_pki-panic env pkt err s h p = process_psk-panic env pkt s h
  process_pki-panic env pkt panic s h p = p

  tried-panic :
      (env : Env) (pkt : MeshPacket) (key : Option Bytes) (s : NodeState)
      → is_safe pkt pkt.payload_variant ≡ true
      → is_panic (process_pki codec c b cfg env (try_with_key codec c b cfg pkt key) s) ≡ false
  unfolding try_decode_pki try_decode
  tried-panic env pkt none s h = process_psk-panic env pkt s h
  tried-panic env pkt (some key) s h =
      let p = mark_pki_payload pkt.payload_variant key pkt in
      let safe : is_safe p p.payload_variant ≡ true =
        ap (is_safe p) (marked_payload pkt.payload_variant pkt key)
        ∙ marked-safe pkt.payload_variant pkt key h in
      process_pki-panic env p (try_decode_payload codec c p.payload_variant p cfg.private_key) s
        safe (payload-panic codec c p.payload_variant p cfg.private_key safe)

  open_packet-panic :
      (env : Env) (topic : Bytes) (v : Payload) (pkt : MeshPacket) (s : NodeState)
      → is_safe pkt pkt.payload_variant ≡ true
      → is_panic (open_packet codec c b cfg env topic v pkt s) ≡ false
  unfolding open_packet try_decrypt_pki
  open_packet-panic env topic (decoded d) pkt s h = refl
  open_packet-panic env topic (encrypted bs) pkt s h =
      if-panic (should_try_pki codec c b cfg pkt)
        (process_pki codec c b cfg env (try_decrypt_pki codec c b cfg pkt s.base.db) s)
        (process_psk codec c b cfg env pkt s)
        (λ e. tried-panic env pkt (lookup_public_key s.base.db pkt.from) s h)
        (λ e. process_psk-panic env pkt s h)
  open_packet-panic env topic unset pkt s h =
      if-panic (should_try_pki codec c b cfg pkt)
        (process_pki codec c b cfg env (try_decrypt_pki codec c b cfg pkt s.base.db) s)
        (process_psk codec c b cfg env pkt s)
        (λ e. tried-panic env pkt (lookup_public_key s.base.db pkt.from) s h)
        (λ e. process_psk-panic env pkt s h)

  -- A packet that does not claim PKI when it arrives, or whose payload is not encrypted or has at
  -- least four encrypted bytes, does not make the node panic.
  pub handle-panic :
      (env : Env) (purge : Bool) (topic : Bytes) (pkt : MeshPacket) (s : NodeState)
      → is_safe pkt pkt.payload_variant ≡ true
      → is_panic (handle_incoming_packet codec c b cfg env purge topic pkt s) ≡ false
  unfolding handle_incoming_packet
  handle-panic env purge topic pkt s h =
      let (dedup, duplicate) = is_duplicate purge env.clock pkt s.base.dedup in
      if-panic duplicate _ _ (λ e. refl)
        (λ e.
          if-panic (pkt.from == cfg.node_id) _ _ (λ e. refl)
            (λ e. open_packet-panic env topic pkt.payload_variant pkt _ h))
