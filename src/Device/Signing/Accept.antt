-- ===== src/Device/Signing/Accept.antt =====
-- What the receive policy accepts, and what it marks as signed.
use meshtastic_go.Common.{
  ℕ, ◌≡◌, refl, ◌⊎◌, inl, inr, Bool, true, false, Option, none, some, arith, ◌==◌, Bool-cases,
  length, Bytes,
}
use meshtastic_go.Proto.{Data, MeshPacket, User, ProtoCodec, Ciphers, strict}
use meshtastic_go.Crypto.Packet.{verify_packet_data}
use meshtastic_go.NodeId.{matches_public_key}
use meshtastic_go.NodeDb.{NodeDb}
use meshtastic_go.Device.Config.{BaseConfig}
use meshtastic_go.Device.Signing.{
  lookup_public_key, first_contact, verify_first_contact_node_info, BootstrapResult, not_applicable,
  verified, invalid, Verdict, check_bootstrap, check_signed, check_signature_policy,
}

module _ (codec : ProtoCodec) (c : Ciphers) (b : BaseConfig) where
  abbrev pub Verifies : MeshPacket → Data → Bytes → Type 0
  Verifies pkt d key =
      verify_packet_data c key pkt.from pkt.id d.portnum d.payload d.xeddsa_signature ≡ true

  -- The key is the one on record for the sender, or derives the sender's id.
  abbrev pub Speaks : NodeDb → MeshPacket → Bytes → Type 0
  Speaks db pkt key =
      (lookup_public_key codec c b db pkt.from ≡ some key)
      ⊎ (matches_public_key pkt.from key ≡ true)

  first_contact-verified :
      (now : ℕ) (pkt : MeshPacket) (d : Data) (db : NodeDb) (u : Option User)
      → (first_contact codec c b now pkt d db u).1 ≡ verified
      → (key : Bytes) × Verifies pkt d key × (matches_public_key pkt.from key ≡ true)
  first_contact-verified now pkt d db none h = cc
  first_contact-verified now pkt d db (some u) h = (u.public_key, ground arith, ground arith)

  bootstrap-verified :
      (now : ℕ) (pkt : MeshPacket) (d : Data) (db : NodeDb)
      → (verify_first_contact_node_info codec c b now pkt d db).1 ≡ verified
      → (key : Bytes) × Verifies pkt d key × (matches_public_key pkt.from key ≡ true)
  unfolding verify_first_contact_node_info
  bootstrap-verified now pkt d db h =
      first_contact-verified now pkt d db (codec.unmarshal_user d.payload) (ground arith)

  abbrev pub Signed : MeshPacket → Data → NodeDb → Verdict → Type 0
  Signed pkt d db v =
      (v.accept ≡ true)
      × (v.packet.xeddsa_signed ≡ true)
      × (key : Bytes) × Speaks db pkt key
      × Verifies pkt d key

  bootstrap-Signed :
      (pkt : MeshPacket) (r : NodeDb × BootstrapResult)
      → (check_bootstrap codec c b pkt r).signed ≡ true
      → (r.1 ≡ verified)
        × ((check_bootstrap codec c b pkt r).accept ≡ true)
        × ((check_bootstrap codec c b pkt r).packet.xeddsa_signed ≡ true)
  bootstrap-Signed pkt (db, verified) h = (refl, refl, refl)
  bootstrap-Signed pkt (db, invalid) h = cc
  bootstrap-Signed pkt (db, not_applicable) h = cc

  signed_bootstrap :
      (now : ℕ) (pkt : MeshPacket) (d : Data) (db : NodeDb)
      → (check_bootstrap codec c b pkt
          (verify_first_contact_node_info codec c b now pkt d db)).signed
        ≡ true
      → Signed pkt d db
          (check_bootstrap codec c b pkt (verify_first_contact_node_info codec c b now pkt d db))
  signed_bootstrap now pkt d db h =
      let r = verify_first_contact_node_info codec c b now pkt d db in
      let (is_verified, accepted, flagged) = bootstrap-Signed pkt r h in
      let (key, verifies, derives) = bootstrap-verified now pkt d db is_verified in
      (accepted, flagged, key, inr derives, verifies)

  signed_checked :
      (now : ℕ) (pkt : MeshPacket) (d : Data) (db : NodeDb) (k : Option Bytes)
      → lookup_public_key codec c b db pkt.from ≡ k
      → (check_signed codec c b now pkt d db k).signed ≡ true
      → Signed pkt d db (check_signed codec c b now pkt d db k)
  signed_checked now pkt d db none e h = signed_bootstrap now pkt d db h
  signed_checked now pkt d db (some key) e h =
      let v : Verifies pkt d key = ground arith in (ground arith, ground arith, key, inl e, v)

  -- A packet that the policy reports as signed is accepted, its own flag says signed, and its
  -- signature verifies under a key that is on record for the sender or that derives the sender's id.
  pub signed-Signed :
      (now : ℕ) (pkt : MeshPacket) (d : Data) (is_pki : Bool) (db : NodeDb)
      → (check_signature_policy codec c b now pkt d is_pki db).signed ≡ true
      → Signed pkt d db (check_signature_policy codec c b now pkt d is_pki db)
  unfolding check_signature_policy
  signed-Signed now pkt d is_pki db h = elim (Bool-cases (length d.xeddsa_signature == 64)) [
    | inl e ↦ rw e (
        signed_checked now (record pkt { xeddsa_signed = false }) d db
          (lookup_public_key codec c b db pkt.from) refl (rw e at h))
    | inr e ↦ ground arith
  ]

  bootstrap_flag :
      (pkt : MeshPacket) (r : NodeDb × BootstrapResult)
      → pkt.xeddsa_signed ≡ false
      → (check_bootstrap codec c b pkt r).packet.xeddsa_signed
        ≡ (check_bootstrap codec c b pkt r).signed
  bootstrap_flag pkt (db, verified) e = refl
  bootstrap_flag pkt (db, invalid) e = e
  bootstrap_flag pkt (db, not_applicable) e = e

  checked_flag :
      (now : ℕ) (pkt : MeshPacket) (d : Data) (db : NodeDb) (k : Option Bytes)
      → pkt.xeddsa_signed ≡ false
      → (check_signed codec c b now pkt d db k).packet.xeddsa_signed
        ≡ (check_signed codec c b now pkt d db k).signed
  checked_flag now pkt d db none e =
      bootstrap_flag pkt (verify_first_contact_node_info codec c b now pkt d db) e
  checked_flag now pkt d db (some key) e = ground arith

  -- The signed flag that a packet arrives with has no effect: the packet that the policy returns is
  -- flagged signed exactly when the policy reports it as signed.
  flag_is_own :
      (now : ℕ) (pkt : MeshPacket) (d : Data) (is_pki : Bool) (db : NodeDb)
      → (check_signature_policy codec c b now pkt d is_pki db).packet.xeddsa_signed
        ≡ (check_signature_policy codec c b now pkt d is_pki db).signed
  unfolding check_signature_policy
  flag_is_own now pkt d is_pki db = elim (Bool-cases (length d.xeddsa_signature == 64)) [
    | inl e ↦ rw e (
        checked_flag now (record pkt { xeddsa_signed = false }) d db
          (lookup_public_key codec c b db pkt.from) refl)
    | inr e ↦ ground arith
  ]

  strict_bootstrap :
      (pkt : MeshPacket) (r : NodeDb × BootstrapResult)
      → b.signature_policy ≡ strict
      → (check_bootstrap codec c b pkt r).accept ≡ true
      → (check_bootstrap codec c b pkt r).signed ≡ true
  strict_bootstrap pkt (db, verified) s h = refl
  strict_bootstrap pkt (db, invalid) s h = h
  strict_bootstrap pkt (db, not_applicable) s h = rw s at h

  strict_checked :
      (now : ℕ) (pkt : MeshPacket) (d : Data) (db : NodeDb) (k : Option Bytes)
      → b.signature_policy ≡ strict
      → (check_signed codec c b now pkt d db k).accept ≡ true
      → (check_signed codec c b now pkt d db k).signed ≡ true
  strict_checked now pkt d db none s h = strict_bootstrap pkt _ s h
  strict_checked now pkt d db (some key) s h = ground arith

  -- Under the strict policy every accepted packet that was not PKI-encrypted is one whose signature
  -- was verified.
  pub strict-signed :
      (now : ℕ) (pkt : MeshPacket) (d : Data) (db : NodeDb)
      → b.signature_policy ≡ strict
      → (check_signature_policy codec c b now pkt d false db).accept ≡ true
      → (check_signature_policy codec c b now pkt d false db).signed ≡ true
  unfolding check_signature_policy
  strict-signed now pkt d db s h = elim (Bool-cases (length d.xeddsa_signature == 64)) [
    | inl e ↦ rw e (
        strict_checked now (record pkt { xeddsa_signed = false }) d db
          (lookup_public_key codec c b db pkt.from) s (rw e at h))
    | inr e ↦ ground arith
  ]
