-- ===== src/Device/Signing/Examples.antt =====
-- The signature rules at concrete packets.
use meshtastic_go.Common.{
  ℕ, zero, suc, ◌+◌, ◌-◌, ◌*◌, ◌/◌, ◌%◌, ◌^◌, ◌≤◌, ◌<◌, bit_and, bit_or, bit_xor, ◌≡◌, refl, sym,
  ap, ◌∙◌, ◌≢◌, ◌↔◌, ◌⊎◌, inl, inr, Bool, true, false, not, ◌&&◌, ◌||◌, Option, none, some, List,
  [], ◌∷◌, ◌++◌, map, arith, ltb, leb, ◌==◌, if◌then◌else◌, bool_eq, ==_iff, ==_refl, Bool-cases,
  Option-cases, is_some, length, get_elem?, get_or, take, drop, replicate, select, find_first, All,
  length-append, Bytes, bytes_eq, bytes_eq_iff, bytes_eq_refl, text,
}
use meshtastic_go.Fixtures.{
  test_codec, test_ciphers, test_base, test_db, test_key, signed_data, signed_packet,
}
use meshtastic_go.Proto.{User, empty_user, NodeInfo, new_node_info}
use meshtastic_go.NodeDb.{NodeDb, get}
use meshtastic_go.Device.Signing.{Verdict, check_signature_policy, is_known_signer, pin_identity}
use meshtastic_go.Device.Signing.Accept.{Signed, signed-Signed}
use meshtastic_go.Device.Signing.Identity.{
  signed-becomes_signer, signer_stays, pin_identity-keeps_key,
}

abbrev verdict : Verdict
verdict =
    check_signature_policy test_codec test_ciphers test_base 100 signed_packet signed_data false
      test_db

verdict_is_signed : verdict.signed ≡ true
unfolding check_signature_policy meshtastic_go.Device.Signing.lookup_public_key
    meshtastic_go.Crypto.Packet.verify_packet_data bytes_eq
verdict_is_signed = refl

verdict_is_accepted : verdict.accept ≡ true
unfolding check_signature_policy meshtastic_go.Device.Signing.lookup_public_key
    meshtastic_go.Crypto.Packet.verify_packet_data bytes_eq
verdict_is_accepted = refl

signed-Signed_example :
    Signed test_codec test_ciphers test_base signed_packet signed_data test_db verdict
signed-Signed_example =
    signed-Signed test_codec test_ciphers test_base 100 signed_packet signed_data false test_db
      verdict_is_signed

marked : is_known_signer test_codec test_ciphers test_base verdict.db 7 ≡ true
marked =
    signed-becomes_signer test_codec test_ciphers test_base 100 signed_packet signed_data false
      test_db refl verdict_is_signed

signer_stays_example :
    is_known_signer test_codec test_ciphers test_base
      (check_signature_policy test_codec test_ciphers test_base 200
        (record signed_packet { from = 8 })
        signed_data
        false
        verdict.db).db
      7
    ≡ true
signer_stays_example =
    signer_stays test_codec test_ciphers test_base 200 (record signed_packet { from = 8 })
      signed_data false verdict.db 7 marked

abbrev held_user : User
held_user = record empty_user { public_key = test_key }

abbrev held_info : NodeInfo
held_info = record (new_node_info 7) { user = some held_user }

abbrev held_db : NodeDb
held_db = record test_db { nodes = (7, held_info) ∷ [] }

held_entry : get 7 held_db ≡ some held_info
unfolding get meshtastic_go.Common.Dict.lookup
held_entry = refl

pinned : (pin_identity test_codec test_ciphers test_base 7 empty_user false held_db).1 ≡ true
unfolding pin_identity get meshtastic_go.Common.Dict.lookup bytes_eq
pinned = refl

pin_identity-keeps_key_example :
    (pin_identity test_codec test_ciphers test_base 7 empty_user false held_db).0.public_key
    ≡ test_key
pin_identity-keeps_key_example =
    pin_identity-keeps_key test_codec test_ciphers test_base 7 empty_user held_user held_info
      held_db refl held_entry refl refl pinned
