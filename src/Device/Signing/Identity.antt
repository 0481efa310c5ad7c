-- ===== src/Device/Signing/Identity.antt =====
-- What the receive policy and the identity rules do to the database.
use meshtastic_go.Common.{
  ℕ, ◌≡◌, refl, inl, inr, Bool, true, false, Option, none, some, arith, ◌==◌, ==_refl, Bool-cases,
  length, Bytes, bytes_eq_iff,
}
use meshtastic_go.Proto.{Data, MeshPacket, User, NodeInfo, ProtoCodec, Ciphers, nodeinfo_app}
use meshtastic_go.Crypto.Keys.{public_key_size}
use meshtastic_go.NodeDb.{NodeDb, or_new, update, get}
use meshtastic_go.NodeDb.Updates.{get-update}
use meshtastic_go.Device.Config.{BaseConfig}
use meshtastic_go.Device.Signing.{
  lookup_public_key, is_known_signer, mark_signer, learn_key, first_contact,
  verify_first_contact_node_info, BootstrapResult, not_applicable, verified, invalid,
  check_bootstrap, check_signed, check_signature_policy, pin_identity,
}

module _ (codec : ProtoCodec) (c : Ciphers) (b : BaseConfig) where
  -- An update that marks the node a signer, or keeps its mark.
  update-signer :
      (now n : ℕ) (fn : NodeInfo → NodeInfo) (db : NodeDb)
      → b.has_db ≡ true
      → ((info : NodeInfo) → (fn info).has_xeddsa_signed ≡ true)
      → is_known_signer codec c b (update now n fn db) n ≡ true
  unfolding is_known_signer
  update-signer now n fn db has keep = rw (has, get-update now n n fn db, ==_refl n) (keep _)

  update-keeps_signer :
      (now n m : ℕ) (fn : NodeInfo → NodeInfo) (db : NodeDb)
      → ((info : NodeInfo) → (fn info).has_xeddsa_signed ≡ true)
      → is_known_signer codec c b db m ≡ true
      → is_known_signer codec c b (update now n fn db) m ≡ true
  unfolding is_known_signer
  update-keeps_signer now n m fn db keep h =
      rw (get-update now n m fn db) (elim (Bool-cases (n == m)) [
        | inl e ↦ rw e (ground (arith, keep (or_new n (get n db))))
        | inr e ↦ rw e h
      ])

  first_contact-becomes_signer :
      (now : ℕ) (pkt : MeshPacket) (d : Data) (db : NodeDb) (u : Option User)
      → b.has_db ≡ true
      → (check_bootstrap codec c b pkt (first_contact codec c b now pkt d db u)).signed ≡ true
      → is_known_signer codec c b (first_contact codec c b now pkt d db u).0 pkt.from ≡ true
  first_contact-becomes_signer now pkt d db none has h = cc
  first_contact-becomes_signer now pkt d db (some user) has h =
      let key = user.public_key in
      let becomes : is_known_signer codec c b (update now pkt.from (learn_key key) db) pkt.from
          ≡ true =
        update-signer now pkt.from (learn_key key) db has (λ _. refl) in
      ground arith

  first_contact-keeps_signer :
      (now : ℕ) (pkt : MeshPacket) (d : Data) (db : NodeDb) (u : Option User) (node : ℕ)
      → is_known_signer codec c b db node ≡ true
      → is_known_signer codec c b (first_contact codec c b now pkt d db u).0 node ≡ true
  first_contact-keeps_signer now pkt d db none node h = h
  first_contact-keeps_signer now pkt d db (some user) node h =
      let keeps =
        update-keeps_signer now pkt.from node (learn_key user.public_key) db (λ _. refl) h in
      ground arith

  bootstrap_db :
      (pkt : MeshPacket) (r : NodeDb × BootstrapResult) → (check_bootstrap codec c b pkt r).db ≡ r.0
  bootstrap_db pkt (db, verified) = refl
  bootstrap_db pkt (db, invalid) = refl
  bootstrap_db pkt (db, not_applicable) = refl

  checked-becomes_signer :
      (now : ℕ) (pkt : MeshPacket) (d : Data) (db : NodeDb) (k : Option Bytes)
      → b.has_db ≡ true
      → (check_signed codec c b now pkt d db k).signed ≡ true
      → is_known_signer codec c b (check_signed codec c b now pkt d db k).db pkt.from ≡ true
  unfolding verify_first_contact_node_info mark_signer
  checked-becomes_signer now pkt d db none has h =
      rw (bootstrap_db pkt (verify_first_contact_node_info codec c b now pkt d db))
        (elim (Bool-cases (d.portnum == nodeinfo_app)) [
          | inl e ↦ rw e (
              first_contact-becomes_signer now pkt d db (codec.unmarshal_user d.payload) has
                (rw e at h))
          | inr e ↦ ground arith
        ])
  checked-becomes_signer now pkt d db (some key) has h =
      let becomes =
        update-signer now pkt.from (λ info. record info { has_xeddsa_signed = true }) db has
          (λ _. refl) in
      ground arith

  checked-keeps_signer :
      (now : ℕ) (pkt : MeshPacket) (d : Data) (db : NodeDb) (k : Option Bytes) (node : ℕ)
      → is_known_signer codec c b db node ≡ true
      → is_known_signer codec c b (check_signed codec c b now pkt d db k).db node ≡ true
  unfolding verify_first_contact_node_info mark_signer
  checked-keeps_signer now pkt d db none node h =
      rw (bootstrap_db pkt (verify_first_contact_node_info codec c b now pkt d db))
        (elim (Bool-cases (d.portnum == nodeinfo_app)) [
          | inl e ↦
              rw e (first_contact-keeps_signer now pkt d db (codec.unmarshal_user d.payload) node h)
          | inr e ↦ rw e h
        ])
  checked-keeps_signer now pkt d db (some key) node h =
      let keeps =
        update-keeps_signer now pkt.from node (λ info. record info { has_xeddsa_signed = true }) db
          (λ _. refl) h in
      ground arith

  -- A packet that the policy verified makes its sender a known signer.
  pub signed-becomes_signer :
      (now : ℕ) (pkt : MeshPacket) (d : Data) (is_pki : Bool) (db : NodeDb)
      → b.has_db ≡ true
      → (check_signature_policy codec c b now pkt d is_pki db).signed ≡ true
      → is_known_signer codec c b (check_signature_policy codec c b now pkt d is_pki db).db pkt.from
        ≡ true
  unfolding check_signature_policy
  signed-becomes_signer now pkt d is_pki db has h =
      elim (Bool-cases (length d.xeddsa_signature == 64)) [
        | inl e ↦ rw e (
            checked-becomes_signer now (record pkt { xeddsa_signed = false }) d db
              (lookup_public_key codec c b db pkt.from) has (rw e at h))
        | inr e ↦ ground arith
      ]

  -- A node that once signed stays a known signer whatever packet arrives, from it or from another.
  pub signer_stays :
      (now : ℕ) (pkt : MeshPacket) (d : Data) (is_pki : Bool) (db : NodeDb) (node : ℕ)
      → is_known_signer codec c b db node ≡ true
      → is_known_signer codec c b (check_signature_policy codec c b now pkt d is_pki db).db node
        ≡ true
  unfolding check_signature_policy
  signer_stays now pkt d is_pki db node h = elim (Bool-cases (length d.xeddsa_signature == 64)) [
    | inl e ↦ rw e (
        checked-keeps_signer now (record pkt { xeddsa_signed = false }) d db
          (lookup_public_key codec c b db pkt.from) node h)
    | inr e ↦ ground arith
  ]

  -- Without a verified signature, a stored public key of full length is the key that is stored
  -- again: a NodeInfo cannot replace it.
  pub pin_identity-keeps_key :
      (from : ℕ) (user held : User) (info : NodeInfo) (db : NodeDb)
      → b.has_db ≡ true
      → get from db ≡ some info
      → info.user ≡ some held
      → length held.public_key ≡ public_key_size
      → (pin_identity codec c b from user false db).1 ≡ true
      → (pin_identity codec c b from user false db).0.public_key ≡ held.public_key
  unfolding pin_identity
  pin_identity-keeps_key from user held info db has g u l h =
      rw (has, g, u) (ground (arith, bytes_eq_iff held.public_key user.public_key))
