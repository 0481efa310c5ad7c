-- ===== src/Crypto/Packet/RoundTrip.antt =====
-- What a packet is encrypted to is what it is decrypted from.
use meshtastic_go.Common.{
  ℕ, ◌+◌, ◌-◌, ◌^◌, ◌<◌, ◌≡◌, refl, ap, false, some, [], ◌∷◌, ◌++◌, arith, ltb, length, take, drop,
  length-append, Bytes,
}
use meshtastic_go.Common.Endian.{le_bytes, of_le-le_bytes}
use meshtastic_go.Crypto.Nonce.{create_nonce}
use meshtastic_go.Crypto.Packet.{ok, from_option, ◌>>=◌, encrypt_curve25519, decrypt_curve25519}
use meshtastic_go.Proto.{Ciphers}

drop-length : (l m : Bytes) → drop (length l) (l ++ m) ≡ m
drop-length [] m = refl
drop-length (x ∷ l) m = drop-length l m

take-length : (l m : Bytes) → take (length l) (l ++ m) ≡ l
take-length [] m = refl
take-length (x ∷ l) m = ap (λ t. x ∷ t) (take-length l m)

-- A text that ends in a 32-bit extra nonce is split where the nonce begins.
decrypt-sealed :
    (c : Ciphers) (sealed private public secret : Bytes) (id from draw : ℕ)
    → length private ≡ 32
    → length public ≡ 32
    → c.x25519 private public ≡ some secret
    → draw < 2 ^ 32
    → decrypt_curve25519 c (sealed ++ le_bytes 4 draw) private public id from
      ≡ from_option (c.ccm_open (c.sha256 secret) (take 13 (create_nonce id from draw)) sealed)
unfolding decrypt_curve25519
decrypt-sealed c sealed private public secret id from draw l m x lt =
    let size : length (sealed ++ le_bytes 4 draw) ≡ length sealed + 4 =
      length-append sealed (le_bytes 4 draw) in
    let enough : ltb (length sealed + 4) 4 ≡ false = ground arith in
    let front : length sealed + 4 - 4 ≡ length sealed = omega arith in
    rw
      (
        l,
        m,
        x,
        size,
        enough,
        front,
        drop-length sealed (le_bytes 4 draw),
        take-length sealed (le_bytes 4 draw),
        of_le-le_bytes 4 draw lt,
      )
      refl

-- If the two parties agree on a secret, and CCM opens what it sealed, then the text that one party
-- encrypts is the text that the other decrypts, for keys of 32 bytes and an extra nonce of 32 bits.
pub decrypt-encrypt :
    (c : Ciphers) (plain private_a public_a private_b public_b secret : Bytes) (id from draw : ℕ)
    → length private_a ≡ 32
    → length public_a ≡ 32
    → length private_b ≡ 32
    → length public_b ≡ 32
    → c.x25519 private_a public_b ≡ some secret
    → c.x25519 private_b public_a ≡ some secret
    → ((key nonce text : Bytes) → c.ccm_open key nonce (c.ccm_seal key nonce text) ≡ some text)
    → draw < 2 ^ 32
    → (encrypt_curve25519 c plain private_a public_b id from draw
        >>= (λ sealed. decrypt_curve25519 c sealed private_b public_a id from))
      ≡ ok plain
unfolding encrypt_curve25519
decrypt-encrypt c plain pa qa pb qb secret id from draw la ma lb mb xa xb opens lt =
    rw
      (
        la,
        mb,
        xa,
        decrypt-sealed c (c.ccm_seal (c.sha256 secret) (take 13 (create_nonce id from draw)) plain)
            pb qa secret id from draw lb ma xb lt,
        opens (c.sha256 secret) (take 13 (create_nonce id from draw)) plain,
      )
      refl
