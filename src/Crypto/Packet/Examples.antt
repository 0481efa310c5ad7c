-- ===== src/Crypto/Packet/Examples.antt =====
-- A direct message between two keys.
use meshtastic_go.Common.{◌≡◌, refl, false, none, some, arith, replicate, text}
use meshtastic_go.Crypto.Packet.{ok, ◌>>=◌, encrypt_curve25519, decrypt_curve25519}
use meshtastic_go.Crypto.Packet.RoundTrip.{decrypt-encrypt}
use meshtastic_go.Proto.{Ciphers}

-- A shared secret that both parties have, and a sealed text that is the text.
abbrev open_ciphers : Ciphers
open_ciphers = record {
  ctr = λ key iv plain. plain;
  x25519 = λ private public. some (replicate 32 0);
  sha256 = λ bs. bs;
  ccm_seal = λ key nonce plain. plain;
  ccm_open = λ key nonce cipher. some cipher;
  sign = λ key message. none;
  verify = λ key message signature. false;
}

decrypt-encrypt_example :
    (encrypt_curve25519 open_ciphers (text "hi") (replicate 32 1) (replicate 32 2) 77 9 5
      >>= (λ sealed. decrypt_curve25519 open_ciphers sealed (replicate 32 2) (replicate 32 1) 77 9))
    ≡ ok (text "hi")
decrypt-encrypt_example =
    decrypt-encrypt open_ciphers (text "hi") (replicate 32 1) (replicate 32 1) (replicate 32 2)
      (replicate 32 2) (replicate 32 0) 77 9 5 refl refl refl refl refl refl (λ key nonce t. refl)
      (omega arith)
