-- ===== src/Device/Node/Receive/Fallback.antt =====
-- What PSK decryption does after PKI decryption failed.
use meshtastic_go.Common.{
  ℕ, ◌<◌, ◌≡◌, refl, sym, ap, ◌∙◌, Bool, true, false, none, List, [], ◌∷◌, arith, ◌==◌,
  if◌then◌else◌, length, All, Bytes,
}
use mathlib.Core.Path.{subst}
use meshtastic_go.Channel.{ChannelDef, lookup_all}
use meshtastic_go.Crypto.Packet.{
  Outcome, ok, err, ◌>>=◌, from_option, decrypt_curve25519, try_decode_payload, try_decode,
  try_decode_pki, mark_pki_payload,
}
use meshtastic_go.Device.Base.{Env}
use meshtastic_go.Device.Config.{BaseConfig}
use meshtastic_go.Device.Node.{Config}
use meshtastic_go.Device.Handlers.{NodeState, or_next, first_readable}
use meshtastic_go.Device.Node.Receive.{process_found, process_psk, process_pki}
use meshtastic_go.Proto.{Data, MeshPacket, Payload, decoded, encrypted, unset, ProtoCodec, Ciphers}

-- Only keys of 32 bytes decrypt with PKI.
decrypt-err :
    (c : Ciphers) (cipher key public : Bytes) (id from : ℕ)
    → (length key == 32) ≡ false
    → decrypt_curve25519 c cipher key public id from ≡ err
unfolding decrypt_curve25519
decrypt-err c cipher key public id from h = rw h refl

if_true : {A : Type 0} (x y : A) {t : Bool} → t ≡ true → (if t then x else y) ≡ x
if_true x y e = rw e refl

abbrev pub is_cipher : Payload → Bool
is_cipher (encrypted bs) = true
is_cipher (decoded d) = false
is_cipher unset = false

abbrev pub cipher_length : Payload → ℕ
cipher_length (encrypted bs) = length bs
cipher_length (decoded d) = 0
cipher_length unset = 0

module _ (codec : ProtoCodec) (c : Ciphers) where
  payload-err :
      (v : Payload) (pkt : MeshPacket) (key : Bytes)
      → pkt.pki_encrypted ≡ true
      → is_cipher v ≡ true
      → (length key == 32) ≡ false
      → try_decode_payload codec c v pkt key ≡ err
  payload-err (decoded d) pkt key p v h = cc
  payload-err unset pkt key p v h = cc
  payload-err (encrypted bs) pkt key p v h =
      ap (λ o. o >>= (λ plain. from_option (codec.unmarshal_data plain)))
        (if_true _ _ p ∙ decrypt-err c bs key pkt.public_key pkt.id pkt.from h)

-- A failed attempt leaves the packet marked as PKI-encrypted.
marked :
    (v : Payload) (pkt : MeshPacket) (key : Bytes)
    → is_cipher v ≡ true
    → pkt.channel ≡ 0
    → 0 < pkt.to
    → 12 < cipher_length v
    → (mark_pki_payload v key pkt).pki_encrypted ≡ true
marked (decoded d) pkt key i ch to l = cc
marked unset pkt key i ch to l = cc
marked (encrypted bs) pkt key i ch to l = ground arith

marked_payload :
    (v : Payload) (pkt : MeshPacket) (key : Bytes)
    → (mark_pki_payload v key pkt).payload_variant ≡ pkt.payload_variant
marked_payload (decoded d) pkt key = refl
marked_payload unset pkt key = refl
marked_payload (encrypted bs) pkt key = ground arith

marked_channel :
    (v : Payload) (pkt : MeshPacket) (key : Bytes)
    → (mark_pki_payload v key pkt).channel ≡ pkt.channel
marked_channel (decoded d) pkt key = refl
marked_channel unset pkt key = refl
marked_channel (encrypted bs) pkt key = ground arith

module _ (codec : ProtoCodec) (c : Ciphers) (b : BaseConfig) (cfg : Config) where
  first_readable-none :
      (pkt : MeshPacket) (l : List ChannelDef)
      → pkt.pki_encrypted ≡ true
      → is_cipher pkt.payload_variant ≡ true
      → All (λ ch. (length ch.key_bytes == 32) ≡ false) l
      → first_readable codec c pkt l ≡ ok none
  unfolding first_readable try_decode
  first_readable-none pkt [] p v h = refl
  first_readable-none pkt (ch ∷ l) p v (h, hs) =
      ap (or_next codec c ch (first_readable codec c pkt l))
        (payload-err codec c pkt.payload_variant pkt ch.key_bytes p v h)
      ∙ first_readable-none pkt l p v hs

  process_psk-none :
      (env : Env) (pkt : MeshPacket) (s : NodeState)
      → pkt.pki_encrypted ≡ true
      → is_cipher pkt.payload_variant ≡ true
      → All (λ ch. (length ch.key_bytes == 32) ≡ false) (lookup_all pkt.channel s.base.channels)
      → process_psk codec c b cfg env pkt s ≡ ok s
  unfolding process_psk
  process_psk-none env pkt s p v h =
      ap (λ o. o >>= (λ found. ok (process_found codec c b cfg env pkt s found)))
        (first_readable-none pkt (lookup_all pkt.channel s.base.channels) p v h)

  process_err :
      (env : Env) (pkt : MeshPacket) (o : Outcome Data) (s : NodeState)
      → o ≡ err
      → process_pki codec c b cfg env (pkt, o) s ≡ process_psk codec c b cfg env pkt s
  process_err env pkt o s h = ap (λ r. process_pki codec c b cfg env (pkt, r) s) h

  -- If PKI decryption of an encrypted packet with more than 12 bytes on channel 0 fails, the packet is
  -- still marked as PKI-encrypted when the channels' keys are tried; and where the keys of the channels
  -- with its hash are not 32 bytes long, it is dropped whatever it holds.
  pub failed_pki-drops :
      (env : Env) (pkt : MeshPacket) (key : Bytes) (s : NodeState)
      → is_cipher pkt.payload_variant ≡ true
      → pkt.channel ≡ 0
      → 0 < pkt.to
      → 12 < cipher_length pkt.payload_variant
      → All (λ ch. (length ch.key_bytes == 32) ≡ false) (lookup_all pkt.channel s.base.channels)
      → (try_decode_pki codec c pkt key cfg.private_key).1 ≡ err
      → let failed = try_decode_pki codec c pkt key cfg.private_key in
        (failed.0.pki_encrypted ≡ true)
        × (process_pki codec c b cfg env failed s ≡ process_psk codec c b cfg env failed.0 s)
        × (process_psk codec c b cfg env failed.0 s ≡ ok s)
  unfolding try_decode_pki
  failed_pki-drops env pkt key s i ch to l h e =
      let v = pkt.payload_variant in
      (
        marked v pkt key i ch to l,
        process_err env (mark_pki_payload v key pkt)
            (try_decode_pki codec c pkt key cfg.private_key).1 s e,
        process_psk-none env (mark_pki_payload v key pkt) s (marked v pkt key i ch to l)
            (ap is_cipher (marked_payload v pkt key) ∙ i)
            (subst
              (λ x.
                All (λ ch'. (length ch'.key_bytes == 32) ≡ false) (lookup_all x s.base.channels))
              (sym (marked_channel v pkt key)) h),
      )
