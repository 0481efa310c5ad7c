-- ===== src/Device/Base/Sealed.antt =====
-- What leaves in a packet, and what a receiver with the channel's key reads.
use meshtastic_go.Common.{
  sym, ◌⊎◌, inl, inr, not, Bool-cases, Option-cases, ℕ, ◌≡◌, refl, ap, ◌∙◌, Bool, true, false,
  Option, none, some, if◌then◌else◌, length, Bytes,
}
use mathlib.Core.Path.{subst}
use meshtastic_go.Channel.{ChannelDef}
use meshtastic_go.Crypto.Packet.{
  Outcome, ok, err, is_aes_length, from_option, ◌>>=◌, xor, try_decode,
}
use meshtastic_go.Crypto.Nonce.{create_nonce}
use meshtastic_go.Device.Base.{
  apply_packet_defaults, allow_mqtt, encrypt_plain, encrypt_decoded, prepare_payload, prepare, seal,
  stamped,
}
use meshtastic_go.Device.Config.{BaseConfig}
use meshtastic_go.Device.Signing.{sign_outbound}
use meshtastic_go.Proto.{Data, MeshPacket, decoded, encrypted, ProtoCodec, Ciphers}

if_false : {A : Type 0} (x y : A) {t : Bool} → t ≡ false → (if t then x else y) ≡ y
if_false x y e = rw e refl

if_true : {A : Type 0} (x y : A) {t : Bool} → t ≡ true → (if t then x else y) ≡ x
if_true x y e = rw e refl

module _ (codec : ProtoCodec) (c : Ciphers) (b : BaseConfig) where
  -- What a receiver with a key decodes from a packet that was sent.
  abbrev pub received : Option MeshPacket → Bytes → Outcome Data
  received none key = err
  received (some pkt) key = try_decode codec c pkt key

  -- The data cannot be encoded, or the key is not one for AES, and nothing leaves; or the payload is
  -- the AES-CTR cipher text, under the key, of the encoded data.
  abbrev pub IsSealed : MeshPacket → Data → Bytes → Option MeshPacket → Type 0
  IsSealed pkt d key sent =
      ((sent ≡ none) × ((codec.marshal_data d ≡ none) ⊎ (is_aes_length (length key) ≡ false)))
      ⊎ ((plain : Bytes) × (codec.marshal_data d ≡ some plain)
          × (is_aes_length (length key) ≡ true)
          × (sent
              ≡ some (record pkt {
                payload_variant = encrypted (c.ctr key (create_nonce pkt.id pkt.from 0) plain);
              })))

  encrypt_decoded-IsSealed :
      (pkt : MeshPacket) (d : Data) (key : Bytes)
      → IsSealed pkt d key (encrypt_decoded codec c pkt d key)
  unfolding encrypt_decoded xor
  encrypt_decoded-IsSealed pkt d key = elim (Option-cases (codec.marshal_data d)) [
    | inl e ↦ inl (ap (encrypt_plain codec c pkt key) e, inl e)
    | inr (plain, e) ↦ elim (Bool-cases (is_aes_length (length key))) [
      | inl aes ↦ inr (
        plain,
        e,
        aes,
        ap (encrypt_plain codec c pkt key) e ∙ ap (seal pkt) (if_false _ _ (ap not aes)),
      )
      | inr short ↦ inl (
        ap (encrypt_plain codec c pkt key) e ∙ ap (seal pkt) (if_true _ _ (ap not short)),
        inr short,
      )
    ]
  ]

  -- Without PKI the payload is signed and encrypted.
  prepare_decoded :
      (d : Data) (pkt : MeshPacket) (key : Bytes)
      → pkt.pki_encrypted ≡ false
      → prepare_payload codec c b (decoded d) pkt key
        ≡ encrypt_decoded codec c pkt
            (sign_outbound codec c b (allow_mqtt b d) pkt.from pkt.id pkt.to false)
            key
  unfolding prepare_payload
  prepare_decoded d pkt key pki =
      if_false _ _ pki
      ∙ ap
          (λ t.
            encrypt_decoded codec c pkt
              (sign_outbound codec c b (allow_mqtt b d) pkt.from pkt.id pkt.to t) key)
          pki

  received-encrypt_decoded :
      (pkt : MeshPacket) (d : Data) (key plain : Bytes)
      → ((key iv text : Bytes) → c.ctr key iv (c.ctr key iv text) ≡ text)
      → is_aes_length (length key) ≡ true
      → pkt.pki_encrypted ≡ false
      → codec.marshal_data d ≡ some plain
      → codec.unmarshal_data plain ≡ some d
      → received (encrypt_decoded codec c pkt d key) key ≡ ok d
  unfolding encrypt_decoded xor try_decode
  received-encrypt_decoded pkt d key plain twice aes pki m u =
      let enciphers : (t : Bytes)
          → xor c t key pkt.id pkt.from ≡ ok (c.ctr key (create_nonce pkt.id pkt.from 0) t) =
        λ t. rw aes refl in
      ap (λ o. received (encrypt_plain codec c pkt key o) key) m
      ∙ (ap (λ o. received (seal pkt o) key) (enciphers plain)
          ∙ (ap (λ o. o >>= (λ plain. from_option (codec.unmarshal_data plain)))
                (if_false _ _ pki
                  ∙ (enciphers _ ∙ ap ok (twice key (create_nonce pkt.id pkt.from 0) plain)))
              ∙ ap from_option u))

  -- The data that sendPacketOn encrypts.
  abbrev pub outbound : ℕ → MeshPacket → Data → Data
  outbound id p d = sign_outbound codec c b (allow_mqtt b d) p.from id p.to false

  -- A decoded packet without PKI leaves only as the AES-CTR cipher text, under the channel's key and
  -- the nonce of its id and sender, of the encoded data with its bitfield and signature, licensed or
  -- not; and it does not leave exactly when the data cannot be encoded or AES does not take the key.
  pub prepare-IsSealed :
      (unix id : ℕ) (p : MeshPacket) (d : Data) (ch : ChannelDef)
      → p.pki_encrypted ≡ false
      → p.payload_variant ≡ decoded d
      → IsSealed
          (stamped codec c b unix id p ch)
          (outbound id p d)
          ch.key_bytes
          (prepare codec c b unix id p ch)
  unfolding prepare apply_packet_defaults
  prepare-IsSealed unix id p d ch pki e =
      subst (IsSealed (stamped codec c b unix id p ch) (outbound id p d) ch.key_bytes)
        (sym (
          ap (λ v. prepare_payload codec c b v (stamped codec c b unix id p ch) ch.key_bytes) e
          ∙ prepare_decoded d (stamped codec c b unix id p ch) ch.key_bytes pki))
        (encrypt_decoded-IsSealed (stamped codec c b unix id p ch) (outbound id p d) ch.key_bytes)

  -- If the cipher undoes itself, the key has a length that AES takes, and what is marshalled is read
  -- back, then a packet is sent, and a receiver that has the channel's key decodes from it the data
  -- with the sender's bitfield and signature.
  pub received-prepare :
      (unix id : ℕ) (p : MeshPacket) (d : Data) (ch : ChannelDef) (plain : Bytes)
      → ((key iv text : Bytes) → c.ctr key iv (c.ctr key iv text) ≡ text)
      → is_aes_length (length ch.key_bytes) ≡ true
      → p.pki_encrypted ≡ false
      → p.payload_variant ≡ decoded d
      → codec.marshal_data (outbound id p d) ≡ some plain
      → codec.unmarshal_data plain ≡ some (outbound id p d)
      → received (prepare codec c b unix id p ch) ch.key_bytes ≡ ok (outbound id p d)
  unfolding prepare apply_packet_defaults
  received-prepare unix id p d ch plain twice aes pki e m u =
      ap
        (λ v.
          received (prepare_payload codec c b v (stamped codec c b unix id p ch) ch.key_bytes)
            ch.key_bytes)
        e
      ∙ (ap (λ o. received o ch.key_bytes)
            (prepare_decoded d (stamped codec c b unix id p ch) ch.key_bytes pki)
          ∙ received-encrypt_decoded (stamped codec c b unix id p ch) (outbound id p d) ch.key_bytes
              plain twice aes pki m u)
