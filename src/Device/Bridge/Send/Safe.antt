-- ===== src/Device/Bridge/Send/Safe.antt =====
-- What sendAs hands to the transport.
use meshtastic_go.Common.{
  ℕ, ◌+◌, ◌≤◌, ◌≡◌, refl, sym, ◌∙◌, ◌⊎◌, inl, inr, Bool, true, false, not, ◌||◌, Option, none, some,
  List, [], ◌∷◌, arith, ltb, ◌==◌, if◌then◌else◌, Bool-cases, length, Bytes,
}
use Prim.Native.Nat.{min}
use meshtastic_go.Channel.{ChannelDef}
use meshtastic_go.Crypto.Packet.{Outcome, ok, err, panic, xor, encrypt_curve25519}
use meshtastic_go.Device.Base.{Env, Sent, BaseState, transmit, encrypt_plain, encrypt_decoded, seal}
use meshtastic_go.Device.Base.Pacing.{IsPaced, Past, transmit-IsPaced}
use meshtastic_go.Device.Bridge.{BridgeConfig, is_managed, ask_key}
use meshtastic_go.Device.Bridge.Request.{
  EncryptionMode, encrypt_none, encrypt_psk, encrypt_pki, is_pki_mode, BridgeSend, apply_hop_limits,
  send_channel, send_data_of,
}
use meshtastic_go.Device.Bridge.Send.{
  encrypt_between, protect, bare_packet, build_on, finish, send_on, send_as,
}
use meshtastic_go.Device.Config.{BaseConfig}
use meshtastic_go.Device.Node.{max_hops}
use meshtastic_go.Device.Node.Options.{max_data_payload}
use meshtastic_go.Device.Signing.{sign_outbound}
use meshtastic_go.PacketId.{next}
use meshtastic_go.Proto.{Data, MeshPacket, Payload, decoded, encrypted, unset, ProtoCodec, Ciphers}

abbrev pub is_decoded : Payload → Bool
is_decoded (decoded d) = true
is_decoded (encrypted bs) = false
is_decoded unset = false

abbrev pub is_none_mode : EncryptionMode → Bool
is_none_mode encrypt_none = true
is_none_mode encrypt_psk = false
is_none_mode encrypt_pki = false

abbrev pub IfSome : {A : Type 0} → (A → Type 0) → Option A → Type 0
IfSome P none = Unit
IfSome P (some a) = P a

-- A packet with the header of another one, in the clear only in the mode without encryption.
abbrev Kept : EncryptionMode → MeshPacket → MeshPacket → Type 0
Kept enc pkt p =
    (p.from ≡ pkt.from)
    × (p.to ≡ pkt.to)
    × (p.id ≡ pkt.id)
    × (p.hop_start ≡ pkt.hop_start)
    × (p.hop_limit ≡ pkt.hop_limit)
    × (is_none_mode enc || not (is_decoded p.payload_variant) ≡ true)

seal-Kept :
    (enc : EncryptionMode) (pkt : MeshPacket) (o : Outcome Bytes)
    → IfSome (Kept enc pkt) (seal pkt o)
seal-Kept encrypt_none pkt (ok bs) = (refl, refl, refl, refl, refl, refl)
seal-Kept encrypt_psk pkt (ok bs) = (refl, refl, refl, refl, refl, refl)
seal-Kept encrypt_pki pkt (ok bs) = (refl, refl, refl, refl, refl, refl)
seal-Kept enc pkt err = tt
seal-Kept enc pkt panic = tt

module _ (codec : ProtoCodec) (c : Ciphers) (b : BaseConfig) (cfg : BridgeConfig) where
  plain-Kept :
      (pkt : MeshPacket) (hash : ℕ) (key : Bytes) (o : Option Bytes)
      → IfSome (Kept encrypt_psk pkt) (encrypt_plain codec c (record pkt { channel = hash }) key o)
  plain-Kept pkt hash key none = tt
  plain-Kept pkt hash key (some plain) =
      seal-Kept encrypt_psk (record pkt { channel = hash }) (xor c plain key pkt.id pkt.from)

  between-Kept :
      (draw : ℕ) (pkt : MeshPacket) (priv pk raw : Option Bytes)
      → IfSome (Kept encrypt_pki pkt) (encrypt_between codec c b cfg draw pkt priv pk raw)
  between-Kept draw pkt (some priv) (some pk) (some raw) =
      seal-Kept encrypt_pki (record pkt { channel = 0; pki_encrypted = true })
        (encrypt_curve25519 c raw priv pk pkt.id pkt.from draw)
  between-Kept draw pkt none pk raw = tt
  between-Kept draw pkt (some priv) none raw = tt
  between-Kept draw pkt (some priv) (some pk) none = tt

  protect-Kept :
      (enc : EncryptionMode) (draw : ℕ) (pkt : MeshPacket) (d : Data) (ch : ChannelDef)
      → IfSome (Kept enc pkt) (protect codec c b cfg enc draw pkt d ch)
  unfolding protect encrypt_decoded
  protect-Kept encrypt_none draw pkt d ch = (refl, refl, refl, refl, refl, refl)
  protect-Kept encrypt_psk draw pkt d ch =
      plain-Kept pkt ch.hash ch.key_bytes (codec.marshal_data d)
  protect-Kept encrypt_pki draw pkt d ch =
      between-Kept draw pkt (ask_key cfg.private_key_for_node pkt.from)
        (ask_key cfg.public_key_for_node pkt.to) (codec.marshal_data d)

  -- A packet of a call of sendAs: from the managed identity and to the node of the call, with the
  -- payload within its limit, the hops of the default and one more for another identity than the
  -- bridge, and in the clear only if the call asks for no encryption.
  abbrev pub IsSafe : BridgeSend → MeshPacket → Type 0
  IsSafe s p =
      (is_managed cfg.is_managed_node s.from ≡ true)
      × (length s.payload ≤ max_data_payload)
      × (p.from ≡ s.from)
      × (p.to ≡ s.to)
      × (p.hop_limit
          ≡ (if s.from == b.node_id then b.hop_limit else min (b.hop_limit + 1) max_hops))
      × (p.hop_start ≡ p.hop_limit)
      × (p.hop_limit ≤ max_hops)
      × (is_none_mode s.enc || not (is_decoded p.payload_variant) ≡ true)

  -- At most one more packet has gone out, and it satisfies `P`.
  abbrev pub AddsOne : (MeshPacket → Type 0) → List Sent → List Sent → Type 0
  AddsOne P before [] = true ≡ false
  AddsOne P before (x ∷ l) = (l ≡ before) × P x.packet

  abbrev pub Adds : (MeshPacket → Type 0) → List Sent → List Sent → Type 0
  Adds P before after = (after ≡ before) ⊎ AddsOne P before after

  bare_packet-hops :
      (unix id : ℕ) (s : BridgeSend)
      → b.hop_limit ≤ max_hops
      → let p = bare_packet codec c b cfg unix id s in
        (p.hop_limit
          ≡ (if s.from == b.node_id then b.hop_limit else min (b.hop_limit + 1) max_hops))
        × (p.hop_start ≡ p.hop_limit)
        × (p.hop_limit ≤ max_hops)
        × (p.from ≡ s.from)
        × (p.to ≡ s.to)
  unfolding bare_packet apply_hop_limits
  bare_packet-hops unix id s h = elim (Bool-cases (s.from == b.node_id)) [
    | inl e ↦ rw e (refl, refl, h, refl, refl)
    | inr e ↦ rw e (ground arith, refl, ground arith, refl, refl)
  ]

  finish-Adds :
      (P : MeshPacket → Type 0) (env : Env) (id : ℕ) (topic : Bytes) (o : Option MeshPacket)
      (st : BaseState)
      → IfSome P o
      → Adds P st.sent (finish codec c b cfg env id topic o st).0.sent
  unfolding transmit
  finish-Adds P env id topic none st h = inl refl
  finish-Adds P env id topic (some p) st h = inr (refl, h)

  Kept-IsSafe :
      (s : BridgeSend) (pkt p : MeshPacket)
      → is_managed cfg.is_managed_node s.from ≡ true
      → length s.payload ≤ max_data_payload
      → (pkt.hop_limit
          ≡ (if s.from == b.node_id then b.hop_limit else min (b.hop_limit + 1) max_hops))
        × (pkt.hop_start ≡ pkt.hop_limit)
        × (pkt.hop_limit ≤ max_hops)
        × (pkt.from ≡ s.from)
        × (pkt.to ≡ s.to)
      → Kept s.enc pkt p
      → IsSafe s p
  Kept-IsSafe s pkt p m l (hops, same, le, from, to) (from', to', id, start, limit, clear) =
      (m, l, from' ∙ from, to' ∙ to, limit ∙ hops, start ∙ (same ∙ sym limit), rw limit le, clear)

  IfSome-map :
      {A : Type 0} (P Q : A → Type 0) (o : Option A)
      → ((a : A) → P a → Q a)
      → IfSome P o
      → IfSome Q o
  IfSome-map P Q none f h = tt
  IfSome-map P Q (some a) f h = f a h

  build_on-IsSafe :
      (unix draw id : ℕ) (s : BridgeSend) (ch : ChannelDef)
      → b.hop_limit ≤ max_hops
      → is_managed cfg.is_managed_node s.from ≡ true
      → length s.payload ≤ max_data_payload
      → IfSome (IsSafe s) (build_on codec c b cfg unix draw id s ch)
  build_on-IsSafe unix draw id s ch h m l =
      let pkt = bare_packet codec c b cfg unix id s in
      let d = sign_outbound codec c b (send_data_of s) s.from id s.to (is_pki_mode s.enc) in
      IfSome-map (Kept s.enc pkt) (IsSafe s) (protect codec c b cfg s.enc draw pkt d ch)
        (λ p k. Kept-IsSafe s pkt p m l (bare_packet-hops unix id s h) k)
        (protect-Kept s.enc draw pkt d ch)

  send_on-IsSafe :
      (env : Env) (draw id : ℕ) (s : BridgeSend) (o : Option ChannelDef) (st : BaseState)
      → b.hop_limit ≤ max_hops
      → is_managed cfg.is_managed_node s.from ≡ true
      → length s.payload ≤ max_data_payload
      → Adds (IsSafe s) st.sent (send_on codec c b cfg env draw id s o st).0.sent
  send_on-IsSafe env draw id s none st h m l = inl refl
  send_on-IsSafe env draw id s (some ch) st h m l =
      finish-Adds (IsSafe s) env id ch.name (build_on codec c b cfg env.unix draw id s ch) st
        (build_on-IsSafe env.unix draw id s ch h m l)

  pub send_as-IsSafe :
      (env : Env) (draw : ℕ) (s : BridgeSend) (st : BaseState)
      → b.hop_limit ≤ max_hops
      → Adds (IsSafe s) st.sent (send_as codec c b cfg env draw s st).0.sent
  unfolding send_as
  send_as-IsSafe env draw s st h = elim (Bool-cases (is_managed cfg.is_managed_node s.from)) [
    | inr e ↦ rw e (inl refl)
    | inl e ↦ elim (Bool-cases (ltb max_data_payload (length s.payload))) [
      | inl e' ↦ rw (e, e') (inl refl)
      | inr e' ↦
          let ids = next env.seed env.high st.packet_ids in
          let st' : BaseState = record st { packet_ids = ids.0 } in
          rw (e, e') (send_on-IsSafe env draw ids.1 s (send_channel b s st') st' h e (ground arith))
    ]
  ]

  finish-IsPaced :
      (env : Env) (id : ℕ) (topic : Bytes) (o : Option MeshPacket) (st : BaseState)
      → Past env.clock st.last_send
      → IsPaced st
      → IsPaced (finish codec c b cfg env id topic o st).0
  finish-IsPaced env id topic none st past h = h
  finish-IsPaced env id topic (some p) st past h = transmit-IsPaced env topic p st past h

  send_on-IsPaced :
      (env : Env) (draw id : ℕ) (s : BridgeSend) (o : Option ChannelDef) (st : BaseState)
      → Past env.clock st.last_send
      → IsPaced st
      → IsPaced (send_on codec c b cfg env draw id s o st).0
  send_on-IsPaced env draw id s none st past h = h
  send_on-IsPaced env draw id s (some ch) st past h =
      finish-IsPaced env id ch.name (build_on codec c b cfg env.unix draw id s ch) st past h

  -- sendAs keeps the calls of the transport apart in the way that sendPacket does, if the clock has
  -- reached the time of the last one.
  pub send_as-IsPaced :
      (env : Env) (draw : ℕ) (s : BridgeSend) (st : BaseState)
      → Past env.clock st.last_send
      → IsPaced st
      → IsPaced (send_as codec c b cfg env draw s st).0
  unfolding send_as
  send_as-IsPaced env draw s st past h = elim (Bool-cases (is_managed cfg.is_managed_node s.from)) [
    | inr e ↦ rw e h
    | inl e ↦ elim (Bool-cases (ltb max_data_payload (length s.payload))) [
      | inl e' ↦ rw (e, e') h
      | inr e' ↦
          let ids = next env.seed env.high st.packet_ids in
          let st' : BaseState = record st { packet_ids = ids.0 } in
          rw (e, e') (send_on-IsPaced env draw ids.1 s (send_channel b s st') st' past h)
    ]
  ]
