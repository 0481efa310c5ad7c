-- ===== src/Crypto/Packet.antt =====
-- core/crypto: XOR and DecryptCurve25519 of aes.go, TryDecode and TryDecodePKI of keys.go, and the
-- length checks and the signed bytes of xeddsa.go.
pub mod RoundTrip
mod Examples
use meshtastic_go.Common.{
  ℕ, zero, suc, ◌+◌, ◌-◌, ◌*◌, ◌/◌, ◌%◌, ◌^◌, ◌≤◌, ◌<◌, bit_and, bit_or, bit_xor, ◌≡◌, refl, sym,
  ap, ◌∙◌, ◌≢◌, ◌↔◌, ◌⊎◌, inl, inr, Bool, true, false, not, ◌&&◌, ◌||◌, Option, none, some, List,
  [], ◌∷◌, ◌++◌, map, arith, ltb, leb, ◌==◌, if◌then◌else◌, bool_eq, ==_iff, ==_refl, Bool-cases,
  Option-cases, is_some, length, get_elem?, get_or, take, drop, replicate, select, find_first, All,
  length-append, Bytes, bytes_eq, bytes_eq_iff, bytes_eq_refl, text,
}
use meshtastic_go.Common.Endian.{le_bytes, of_le}
use meshtastic_go.Crypto.Keys.{public_key_size}
use meshtastic_go.Crypto.Nonce.{create_nonce}
use meshtastic_go.Proto.{Data, Payload, decoded, encrypted, unset, MeshPacket, ProtoCodec, Ciphers}

abbrev pub xeddsa_signature_size : ℕ
xeddsa_signature_size = 64

abbrev pub xeddsa_signature_field_bytes : ℕ
xeddsa_signature_field_bytes = xeddsa_signature_size + 2

abbrev pub meshtastic_pkc_overhead : ℕ
meshtastic_pkc_overhead = 12

-- A Go function that returns an error, or panics on a slice bound.
pub data Outcome {ℓ} (A : Type ℓ) : Type ℓ where
  ok : A → Outcome A
  err : Outcome A
  panic : Outcome A

abbrev pub from_option {ℓ} : {A : Type ℓ} → Option A → Outcome A
from_option none = err
from_option (some a) = ok a

infixl 5 ◌>>=◌
abbrev pub ◌>>=◌ {ℓ κ} : {A : Type ℓ} {B : Type κ} → Outcome A → (A → Outcome B) → Outcome B
ok a >>= f = f a
err >>= f = err
panic >>= f = panic

abbrev pub is_aes_length : ℕ → Bool
is_aes_length n = n == 16 || n == 24 || n == 32

-- the bytes that a packet signature covers
unfoldable pub packet_signing_buffer : ℕ → ℕ → ℕ → Bytes → Bytes
packet_signing_buffer from packet_id portnum payload =
    le_bytes 4 from ++ (le_bytes 4 packet_id ++ (le_bytes 4 portnum ++ payload))

module _ (c : Ciphers) where
  unfoldable pub xor : Bytes → Bytes → ℕ → ℕ → Outcome Bytes
  xor plain key packet_id from_node =
      if not (is_aes_length (length key))
      then err
      else ok (c.ctr key (create_nonce packet_id from_node 0) plain)

  unfoldable pub decrypt_curve25519 : Bytes → Bytes → Bytes → ℕ → ℕ → Outcome Bytes
  decrypt_curve25519 cipher private_key public_key packet_id from_node =
      if not (length private_key == 32) || not (length public_key == 32) then err else do
        key ← from_option (c.x25519 private_key public_key)
        if ltb (length cipher) 4
            then panic
            else let body = take (length cipher - 4) cipher in
              let extra_nonce = of_le (drop (length cipher - 4) cipher) in
              from_option (
                c.ccm_open (c.sha256 key) (take 13 (create_nonce packet_id from_node extra_nonce))
                  body)

  unfoldable pub encrypt_curve25519 : Bytes → Bytes → Bytes → ℕ → ℕ → ℕ → Outcome Bytes
  encrypt_curve25519 plain private_key public_key packet_id from_node draw =
      if not (length private_key == 32) || not (length public_key == 32) then err else do
        key ← from_option (c.x25519 private_key public_key)
        let iv = create_nonce packet_id from_node draw
        ok (c.ccm_seal (c.sha256 key) (take 13 iv) plain ++ le_bytes 4 draw)

  unfoldable pub verify_xeddsa : Bytes → Bytes → Bytes → Bool
  verify_xeddsa public_key message signature =
      if not (length signature == xeddsa_signature_size)
      then false
      else if not (length public_key == public_key_size)
      then false
      else c.verify public_key message signature

  unfoldable pub sign_packet_data : Bytes → ℕ → ℕ → ℕ → Bytes → Option Bytes
  unfolding packet_signing_buffer
  sign_packet_data private_key from packet_id portnum payload =
      if not (length private_key == public_key_size)
      then none
      else c.sign private_key (packet_signing_buffer from packet_id portnum payload)

  unfoldable pub verify_packet_data : Bytes → ℕ → ℕ → ℕ → Bytes → Bytes → Bool
  unfolding packet_signing_buffer verify_xeddsa
  verify_packet_data public_key from packet_id portnum payload signature =
      verify_xeddsa public_key (packet_signing_buffer from packet_id portnum payload) signature

module _ (codec : ProtoCodec) (c : Ciphers) where
  abbrev pub try_decode_payload : Payload → MeshPacket → Bytes → Outcome Data
  try_decode_payload (decoded d) packet key = ok d
  try_decode_payload (encrypted b) packet key = do
    plain ←
        if packet.pki_encrypted
        then decrypt_curve25519 c b key packet.public_key packet.id packet.from
        else xor c b key packet.id packet.from
    from_option (codec.unmarshal_data plain)
  try_decode_payload unset packet key = err

  unfoldable pub try_decode : MeshPacket → Bytes → Outcome Data
  unfolding xor decrypt_curve25519
  try_decode packet key = try_decode_payload packet.payload_variant packet key

-- The packet as TryDecodePKI leaves it: marked, and with the sender's key.
abbrev pub mark_pki_payload : Payload → Bytes → MeshPacket → MeshPacket
mark_pki_payload (encrypted b) public_key packet =
    if packet.channel == 0 && ltb 0 packet.to && ltb meshtastic_pkc_overhead (length b)
    then record packet { pki_encrypted = true; public_key = public_key }
    else packet
mark_pki_payload (decoded d) public_key packet = packet
mark_pki_payload unset public_key packet = packet

module _ (codec : ProtoCodec) (c : Ciphers) where
  unfoldable pub try_decode_pki : MeshPacket → Bytes → Bytes → MeshPacket × Outcome Data
  unfolding try_decode
  try_decode_pki packet public_key private_key =
      let packet' = mark_pki_payload packet.payload_variant public_key packet in
      (packet', try_decode codec c packet' private_key)
