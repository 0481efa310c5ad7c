-- ===== src/Device/Node/Receive/Evidence.antt =====
-- What stands behind an event of a node under the strict signature policy.
use meshtastic_go.Common.{
  sym, ◌∙◌, ltb, ◌≤◌, Option-cases, ℕ, ◌≡◌, refl, ap, ◌⊎◌, inl, inr, Bool, true, false, Option,
  none, some, arith, ◌==◌, if◌then◌else◌, Bool-cases, length, Bytes, text,
}
use meshtastic_go.Channel.{ChannelDef, lookup_all}
use meshtastic_go.Crypto.Packet.{Outcome, ok, err, panic, ◌>>=◌}
use meshtastic_go.Device.Base.{Env, decoded_channel}
use meshtastic_go.Device.Config.{BaseConfig}
use meshtastic_go.Device.Node.{Config}
use meshtastic_go.Device.Handlers.{Event, NodeState, Via, with_db, first_readable, is_duplicate}
use meshtastic_go.Device.Node.Receive.{
  process_decoded, should_try_pki, try_decrypt_pki, process_found, process_psk, process_pki,
  open_packet, handle_incoming_packet,
}
use meshtastic_go.Device.Signing.{check_signature_policy}
use meshtastic_go.Device.Signing.Accept.{strict-signed}
use meshtastic_go.NodeDb.{NodeDb}
use meshtastic_go.Proto.{
  Data, MeshPacket, Payload, decoded, encrypted, unset, ProtoCodec, Ciphers, strict,
}
use mathlib.Core.Path.{subst}
use meshtastic_go.Crypto.Packet.{
  verify_packet_data, decrypt_curve25519, from_option, try_decode, try_decode_payload,
  try_decode_pki, mark_pki_payload,
}
use meshtastic_go.Device.Node.{lookup_public_key}
use meshtastic_go.Device.Node.Receive.{is_encrypted}
use meshtastic_go.Device.Node.Receive.Pipeline.{
  AtMostOne, AtMostOne-map, HasMarks, dispatch_port-One,
}
use meshtastic_go.Device.Signing.{
  lookup_public_key as signing_key, check_signed, check_bootstrap, verify_first_contact_node_info,
  BootstrapResult, not_applicable, verified, invalid,
}
use meshtastic_go.Device.Signing.Accept.{signed-Signed}
use meshtastic_go.NodeId.{matches_public_key}

-- The answer of a step that does not panic has a property.
abbrev pub IfOk : (NodeState → Type 0) → Outcome NodeState → Type 0
IfOk P (ok s) = P s
IfOk P err = Unit
IfOk P panic = Unit

module _ (codec : ProtoCodec) (c : Ciphers) (b : BaseConfig) where
  -- The data carries a signature that verifies, for this sender and packet id, under a key that is on
  -- record for the sender or that derives the sender's id.
  abbrev pub IsVouched : NodeDb → ℕ → ℕ → Data → Type 0
  IsVouched db from id d =
      (key : Bytes) × ((signing_key codec c b db from ≡ some key)
        ⊎ (matches_public_key from key ≡ true))
      × (verify_packet_data c key from id d.portnum d.payload d.xeddsa_signature ≡ true)

  same_sender-bootstrap :
      (pkt : MeshPacket) (r : NodeDb × BootstrapResult)
      → (check_bootstrap codec c b pkt r).packet.from ≡ pkt.from
  same_sender-bootstrap pkt (db, verified) = refl
  same_sender-bootstrap pkt (db, invalid) = refl
  same_sender-bootstrap pkt (db, not_applicable) = refl

  same_sender-signed :
      (now : ℕ) (pkt : MeshPacket) (d : Data) (db : NodeDb) (k : Option Bytes)
      → (check_signed codec c b now pkt d db k).packet.from ≡ pkt.from
  same_sender-signed now pkt d db none =
      same_sender-bootstrap pkt (verify_first_contact_node_info codec c b now pkt d db)
  same_sender-signed now pkt d db (some key) = ground arith

  -- The policy leaves the sender of a packet alone.
  same_sender :
      (now : ℕ) (pkt : MeshPacket) (d : Data) (is_pki : Bool) (db : NodeDb)
      → (check_signature_policy codec c b now pkt d is_pki db).packet.from ≡ pkt.from
  unfolding check_signature_policy
  same_sender now pkt d is_pki db = elim (Bool-cases (length d.xeddsa_signature == 64)) [
    | inl e ↦ rw e (
        same_sender-signed now (record pkt { xeddsa_signed = false }) d db
          (signing_key codec c b db pkt.from))
    | inr e ↦ ground arith
  ]

  -- Under the strict policy an accepted packet is vouched for or came through PKI.
  strict_mark :
      (unix : ℕ) (pkt : MeshPacket) (d : Data) (is_pki : Bool) (db : NodeDb)
      → b.signature_policy ≡ strict
      → (check_signature_policy codec c b unix pkt d is_pki db).accept ≡ true
      → (((check_signature_policy codec c b unix pkt d is_pki db).signed ≡ true)
          × IsVouched db pkt.from pkt.id d)
        ⊎ (is_pki ≡ true)
  strict_mark unix pkt d true db st a = inr refl
  strict_mark unix pkt d false db st a =
      let signed = strict-signed codec c b unix pkt d db st a in
      let (accepted, flagged, key, speaks, verifies) =
        signed-Signed codec c b unix pkt d false db signed in
      inl (signed, (key, speaks, verifies))

module _ (codec : ProtoCodec) (c : Ciphers) (b : BaseConfig) (cfg : Config) where
  -- A step that gives at most one event, with a property.
  abbrev Step : (Event → Type 0) → NodeState → NodeState → Type 0
  Step P s t = AtMostOne P s.events t.events

  -- An event of a sender whose packet with this id was vouched for.
  abbrev pub IsSignedBy : NodeDb → ℕ → ℕ → Event → Type 0
  IsSignedBy db from id e =
      (e.from ≡ from) × (e.is_signed ≡ true) × IsVouched codec c b db from id e.raw_data

  -- Its data was read from the packet with the sender's key on record: through X25519 and CCM, unless
  -- there are at most 12 encrypted bytes: those are read with the private key as a channel's key.
  abbrev pub IsOpened : NodeDb → MeshPacket → Data → Type 0
  IsOpened db pkt d =
      (key : Bytes) × (cipher : Bytes) × (lookup_public_key db pkt.from ≡ some key)
      × (pkt.payload_variant ≡ encrypted cipher)
      × (((length cipher ≤ 12) × (try_decode codec c pkt cfg.private_key ≡ ok d))
          ⊎ ((plain : Bytes) × (decrypt_curve25519 c cipher cfg.private_key key pkt.id pkt.from
                ≡ ok plain)
              × (codec.unmarshal_data plain ≡ some d)))

  abbrev pub HasProof : NodeDb → MeshPacket → Event → Type 0
  HasProof db pkt e =
      IsSignedBy db pkt.from pkt.id e
      ⊎ ((e.from ≡ pkt.from) × (e.is_pki ≡ true) × IsOpened db pkt e.raw_data)

  -- The event of a decoded packet: signed, or marked as PKI like the way it came.
  abbrev ByWay : NodeDb → Via → MeshPacket → Data → Event → Type 0
  ByWay db via pkt d e =
      IsSignedBy db pkt.from pkt.id e
      ⊎ ((e.from ≡ pkt.from) × (e.is_pki ≡ true) × (via.is_pki ≡ true) × (e.raw_data ≡ d))

  marked-ByWay :
      (db : NodeDb) (via : Via) (pkt : MeshPacket) (d : Data) (signed : Bool) (from : ℕ) (e : Event)
      → from ≡ pkt.from
      → ((signed ≡ true) × IsVouched codec c b db pkt.from pkt.id d) ⊎ (via.is_pki ≡ true)
      → HasMarks signed via.is_pki from d e
      → ByWay db via pkt d e
  marked-ByWay db via pkt d signed from e same (inl (h, v)) (s, p, f, r) =
      inl (f ∙ same, s ∙ h, subst (IsVouched codec c b db pkt.from pkt.id) (sym r) v)
  marked-ByWay db via pkt d signed from e same (inr h) (s, p, f, r) = inr (f ∙ same, p ∙ h, h, r)

  decoded-ByWay :
      (env : Env) (via : Via) (pkt : MeshPacket) (d : Data) (s : NodeState)
      → b.signature_policy ≡ strict
      → Step (ByWay s.base.db via pkt d) s (process_decoded codec c b cfg env via pkt d s)
  unfolding process_decoded
  decoded-ByWay env via pkt d s st =
      let v = check_signature_policy codec c b env.unix pkt d via.is_pki s.base.db in
      elim (Bool-cases v.accept) [
        | inl e ↦ rw e (
            AtMostOne-map (HasMarks v.signed via.is_pki v.packet.from d) _ s.events _
              (λ event.
                marked-ByWay s.base.db via pkt d v.signed v.packet.from event
                  (same_sender codec c b env.unix pkt d via.is_pki s.base.db)
                  (strict_mark codec c b env.unix pkt d via.is_pki s.base.db st e))
              (dispatch_port-One codec c b cfg env via v.packet d v.signed (with_db s v.db)))
        | inr e ↦ rw e (inl refl)
      ]

  channel-IsSignedBy :
      (env : Env) (via : Via) (pkt : MeshPacket) (d : Data) (s : NodeState)
      → b.signature_policy ≡ strict
      → via.is_pki ≡ false
      → Step
          (IsSignedBy s.base.db pkt.from pkt.id)
          s
          (process_decoded codec c b cfg env via pkt d s)
  channel-IsSignedBy env via pkt d s st psk =
      AtMostOne-map (ByWay s.base.db via pkt d) _ s.events _ only (decoded-ByWay env via pkt d s st)
    where
      only : (e : Event) → ByWay s.base.db via pkt d e → IsSignedBy s.base.db pkt.from pkt.id e
      only e (inl h) = h
      only e (inr (f, p, way, r)) = absurd (cc (psk, way))

  found-IsSignedBy :
      (env : Env) (pkt : MeshPacket) (s : NodeState) (o : Option (ChannelDef × Data))
      → b.signature_policy ≡ strict
      → Step (IsSignedBy s.base.db pkt.from pkt.id) s (process_found codec c b cfg env pkt s o)
  found-IsSignedBy env pkt s none st = inl refl
  found-IsSignedBy env pkt s (some (ch, d)) st =
      channel-IsSignedBy env (record { channel = some ch; name = ch.name; is_pki = false }) pkt d s
        st refl

  bind-IfOk :
      {A : Type 0} (P : NodeState → Type 0) (o : Outcome A) (f : A → NodeState)
      → ((a : A) → P (f a))
      → IfOk P (o >>= (λ a. ok (f a)))
  bind-IfOk P (ok a) f h = h a
  bind-IfOk P err f h = tt
  bind-IfOk P panic f h = tt

  psk-IsSignedBy :
      (env : Env) (pkt : MeshPacket) (s : NodeState)
      → b.signature_policy ≡ strict
      → IfOk (Step (IsSignedBy s.base.db pkt.from pkt.id) s) (process_psk codec c b cfg env pkt s)
  unfolding process_psk
  psk-IsSignedBy env pkt s st =
      bind-IfOk (Step (IsSignedBy s.base.db pkt.from pkt.id) s)
        (first_readable codec c pkt (lookup_all pkt.channel s.base.channels))
        (process_found codec c b cfg env pkt s) (λ o. found-IsSignedBy env pkt s o st)

  IfOk-map :
      (P Q : NodeState → Type 0) (o : Outcome NodeState)
      → ((t : NodeState) → P t → Q t)
      → IfOk P o
      → IfOk Q o
  IfOk-map P Q (ok t) f h = f t h
  IfOk-map P Q err f h = tt
  IfOk-map P Q panic f h = tt

  -- The packet as TryDecodePKI leaves it has the same sender and id.
  psk-HasProof :
      (env : Env) (pkt marked : MeshPacket) (s : NodeState)
      → b.signature_policy ≡ strict
      → marked.from ≡ pkt.from
      → marked.id ≡ pkt.id
      → IfOk (Step (HasProof s.base.db pkt) s) (process_psk codec c b cfg env marked s)
  psk-HasProof env pkt marked s st f i =
      IfOk-map (Step (IsSignedBy s.base.db marked.from marked.id) s) _ _
        (λ t. AtMostOne-map _ _ s.events t.events (λ e h. inl (rw (f, i) at h)))
        (psk-IsSignedBy env marked s st)

  pki-HasProof :
      (env : Env) (pkt marked : MeshPacket) (o : Outcome Data) (s : NodeState)
      → b.signature_policy ≡ strict
      → marked.from ≡ pkt.from
      → marked.id ≡ pkt.id
      → ((d : Data) → o ≡ ok d → IsOpened s.base.db pkt d)
      → IfOk (Step (HasProof s.base.db pkt) s) (process_pki codec c b cfg env (marked, o) s)
  pki-HasProof env pkt marked (ok d) s st f i opened =
      let via : Via = record { channel = none; name = text "PKI"; is_pki = true } in
      AtMostOne-map (ByWay s.base.db via marked d) _ s.events _ backed
        (decoded-ByWay env via marked d s st)
    where
      backed :
          (e : Event)
          → ByWay s.base.db (record { channel = none; name = text "PKI"; is_pki = true }) marked d e
          → HasProof s.base.db pkt e
      backed e (inl h) = inl (rw (f, i) at h)
      backed e (inr (from, p, way, r)) =
          inr (from ∙ f, p, subst (IsOpened s.base.db pkt) (sym r) (opened d refl))
  pki-HasProof env pkt marked err s st f i opened = psk-HasProof env pkt marked s st f i
  pki-HasProof env pkt marked panic s st f i opened = tt

  from_option-ok : (o : Option Data) (d : Data) → from_option o ≡ ok d → o ≡ some d
  from_option-ok none d h = cc
  from_option-ok (some x) d h = cc

  bind-ok :
      (o : Outcome Bytes) (d : Data)
      → (o >>= (λ plain. from_option (codec.unmarshal_data plain))) ≡ ok d
      → (plain : Bytes) × (o ≡ ok plain) × (codec.unmarshal_data plain ≡ some d)
  bind-ok (ok plain) d h = (plain, refl, from_option-ok (codec.unmarshal_data plain) d h)
  bind-ok err d h = cc
  bind-ok panic d h = cc

  -- What TryDecodePKI gives, where it was tried on a packet for this node.
  decoded_pki-IsOpened :
      (pkt : MeshPacket) (key cipher : Bytes) (db : NodeDb) (d : Data)
      → lookup_public_key db pkt.from ≡ some key
      → pkt.payload_variant ≡ encrypted cipher
      → pkt.channel ≡ 0
      → (ltb 0 pkt.to) ≡ true
      → try_decode codec c (mark_pki_payload (encrypted cipher) key pkt) cfg.private_key ≡ ok d
      → IsOpened db pkt d
  unfolding try_decode
  decoded_pki-IsOpened pkt key cipher db d found v ch to h =
      elim (Bool-cases (ltb 12 (length cipher))) [
        | inl e ↦
            let marked : MeshPacket = record pkt { pki_encrypted = true; public_key = key } in
            let is_marked : mark_pki_payload (encrypted cipher) key pkt ≡ marked =
              rw (ch, to, e) refl in
            let opened : try_decode_payload codec c (encrypted cipher) marked cfg.private_key
                ≡ ok d =
              ap (λ p. try_decode_payload codec c p marked cfg.private_key) (sym v)
              ∙ (ap (λ p. try_decode codec c p cfg.private_key) (sym is_marked) ∙ h) in
            (
              key,
              cipher,
              found,
              v,
              inr (
                  bind-ok (decrypt_curve25519 c cipher cfg.private_key key pkt.id pkt.from) d
                    opened),
            )
        | inr e ↦
            let same : mark_pki_payload (encrypted cipher) key pkt ≡ pkt = rw (ch, to, e) refl in
            let decoded_as_it_is : try_decode codec c pkt cfg.private_key ≡ ok d =
              ap (λ p. try_decode codec c p cfg.private_key) (sym same) ∙ h in
            (key, cipher, found, v, inl (ground arith, decoded_as_it_is))
      ]

  marked_sender :
      (v : Payload) (key : Bytes) (pkt : MeshPacket)
      → ((mark_pki_payload v key pkt).from ≡ pkt.from) × ((mark_pki_payload v key pkt).id ≡ pkt.id)
  marked_sender (decoded d) key pkt = (refl, refl)
  marked_sender unset key pkt = (refl, refl)
  marked_sender (encrypted bs) key pkt = (ground arith, ground arith)

  tried-HasProof :
      (env : Env) (pkt : MeshPacket) (s : NodeState) (cipher : Bytes)
      → b.signature_policy ≡ strict
      → pkt.payload_variant ≡ encrypted cipher
      → pkt.channel ≡ 0
      → (ltb 0 pkt.to) ≡ true
      → IfOk
          (Step (HasProof s.base.db pkt) s)
          (process_pki codec c b cfg env (try_decrypt_pki codec c b cfg pkt s.base.db) s)
  unfolding try_decrypt_pki try_decode_pki
  tried-HasProof env pkt s cipher st v ch to =
      elim (Option-cases (lookup_public_key s.base.db pkt.from)) [
        | inl e ↦ rw e (psk-HasProof env pkt pkt s st refl refl)
        | inr (key, e) ↦
            let marked = mark_pki_payload pkt.payload_variant key pkt in
            let (f, i) = marked_sender pkt.payload_variant key pkt in
            rw e (
              pki-HasProof env pkt marked (try_decode codec c marked cfg.private_key) s st f i
                (λ d h. decoded_pki-IsOpened pkt key cipher s.base.db d e v ch to (
                  ap (λ p. try_decode codec c (mark_pki_payload p key pkt) cfg.private_key) (sym v)
                  ∙ h)))
      ]

  if_IfOk :
      (P : NodeState → Type 0) (t : Bool) (x y : Outcome NodeState)
      → (t ≡ true → IfOk P x)
      → IfOk P y
      → IfOk P (if t then x else y)
  if_IfOk P true x y p q = p refl
  if_IfOk P false x y p q = q

  for_this_node :
      (pkt : MeshPacket)
      → should_try_pki codec c b cfg pkt ≡ true
      → (is_encrypted codec c b cfg pkt.payload_variant ≡ true)
        × (pkt.channel ≡ 0)
        × ((ltb 0 pkt.to) ≡ true)
  unfolding should_try_pki
  for_this_node pkt h = (ground arith, ground arith, ground arith)

  opened-HasProof :
      (env : Env) (topic : Bytes) (v : Payload) (pkt : MeshPacket) (s : NodeState)
      → b.signature_policy ≡ strict
      → pkt.payload_variant ≡ v
      → IfOk (Step (HasProof s.base.db pkt) s) (open_packet codec c b cfg env topic v pkt s)
  unfolding open_packet
  opened-HasProof env topic (decoded d) pkt s st e =
      let (ch, name) = decoded_channel topic pkt.channel s.base.channels in
      AtMostOne-map (IsSignedBy s.base.db pkt.from pkt.id) _ s.events _ (λ event h. inl h)
        (channel-IsSignedBy env (record { channel = ch; name = name; is_pki = false }) pkt d s st
          refl)
  opened-HasProof env topic (encrypted bs) pkt s st e =
      if_IfOk (Step (HasProof s.base.db pkt) s) (should_try_pki codec c b cfg pkt) _ _
        (λ h. let (i, ch, to) = for_this_node pkt h in tried-HasProof env pkt s bs st e ch to)
        (psk-HasProof env pkt pkt s st refl refl)
  opened-HasProof env topic unset pkt s st e =
      if_IfOk (Step (HasProof s.base.db pkt) s) (should_try_pki codec c b cfg pkt) _ _
        (λ h.
          let (i, ch, to) = for_this_node pkt h in
          absurd (cc (ap (is_encrypted codec c b cfg) e, i)))
        (psk-HasProof env pkt pkt s st refl refl)

  -- Under the strict policy handleIncomingPacket, where it returns, gives at most one event, of the
  -- sender of the packet, and there is proof behind it: it is marked as signed, and the data that it
  -- reports carries a signature that verifies, for the packet's sender and id, under a key on record for
  -- the sender or one that derives the sender's id; or it is marked as PKI, and its data was opened by
  -- X25519 and CCM with this node's private key and the sender's key on record, or, with at most 12
  -- encrypted bytes, is what TryDecode reads with the private key.
  pub handle-HasProof :
      (env : Env) (purge : Bool) (topic : Bytes) (pkt : MeshPacket) (s : NodeState)
      → b.signature_policy ≡ strict
      → IfOk
          (λ t. AtMostOne (HasProof s.base.db pkt) s.events t.events)
          (handle_incoming_packet codec c b cfg env purge topic pkt s)
  unfolding handle_incoming_packet
  handle-HasProof env purge topic pkt s st =
      let (dedup, duplicate) = is_duplicate purge env.clock pkt s.base.dedup in
      if_IfOk (Step (HasProof s.base.db pkt) s) duplicate _ _ (λ h. inl refl)
        (if_IfOk (Step (HasProof s.base.db pkt) s) (pkt.from == cfg.node_id) _ _ (λ h. inl refl)
          (opened-HasProof env topic pkt.payload_variant pkt _ st refl))
