-- ===== src/Device/Base/Pacing.antt =====
-- The pacing of outgoing packets.
use meshtastic_go.Common.{
  ℕ, ◌+◌, ◌≤◌, ◌≡◌, refl, inl, inr, Option, none, some, List, [], ◌∷◌, arith, ◌==◌, Bool-cases,
  length, Bytes,
}
use meshtastic_go.Channel.{ChannelDef, Resolved, found, not_found, ambiguous, resolve_by_name}
use meshtastic_go.Device.Base.{
  send_delay, Env, Sent, BaseState, pace, transmit, prepare, hand_over, send_resolved,
  send_packet_on, send_packet, channel_for_destination,
}
use meshtastic_go.Device.Config.{BaseConfig}
use meshtastic_go.PacketId.{next}
use meshtastic_go.Proto.{MeshPacket, ProtoCodec, Ciphers}

-- Calls of the transport, the newest first, each at least the delay after the one before it, and
-- the time of the newest.
abbrev pub Spaced : List Sent → Option ℕ → Type 0
Spaced [] last = last ≡ none
Spaced (x ∷ []) last = last ≡ some x.at
Spaced (x ∷ y ∷ l) last =
    (last ≡ some x.at) × (y.at + send_delay ≤ x.at) × Spaced (y ∷ l) (some y.at)

abbrev pub IsPaced : BaseState → Type 0
IsPaced s = Spaced s.sent s.last_send

pace-le : (clock last : ℕ) → last ≤ clock → last + send_delay ≤ pace clock (some last)
unfolding pace
pace-le clock last h = ground arith

-- No call of the transport is at a time that the clock has not reached yet.
abbrev pub Past : ℕ → Option ℕ → Type 0
Past clock none = Unit
Past clock (some last) = last ≤ clock

pace-after :
    (clock : ℕ) (last : Option ℕ) (t : ℕ)
    → last ≡ some t
    → Past clock last
    → t + send_delay ≤ pace clock last
pace-after clock none t e past = cc
pace-after clock (some u) t e past = ground (arith, pace-le clock u past)

Spaced-more :
    (l : List Sent) (last : Option ℕ) (clock : ℕ) (topic : Bytes) (p : MeshPacket)
    → Past clock last
    → Spaced l last
    → Spaced
        (record { topic = topic; at = pace clock last; packet = p } ∷ l)
        (some (pace clock last))
Spaced-more [] last clock topic p past h = refl
Spaced-more (x ∷ []) last clock topic p past h = (refl, pace-after clock last x.at h past, refl)
Spaced-more (x ∷ y ∷ l) last clock topic p past (h, le, rest) =
    (refl, pace-after clock last x.at h past, (refl, le, rest))

pub transmit-IsPaced :
    (env : Env) (topic : Bytes) (p : MeshPacket) (s : BaseState)
    → Past env.clock s.last_send
    → IsPaced s
    → IsPaced (transmit env topic p s).0
unfolding transmit
transmit-IsPaced env topic p s past h = Spaced-more s.sent s.last_send env.clock topic p past h

module _ (codec : ProtoCodec) (c : Ciphers) (b : BaseConfig) where
  hand_over-IsPaced :
      (env : Env) (topic : Bytes) (o : Option MeshPacket) (s : BaseState)
      → Past env.clock s.last_send
      → IsPaced s
      → IsPaced (hand_over codec c b env topic o s).0
  hand_over-IsPaced env topic none s past h = h
  hand_over-IsPaced env topic (some p) s past h = transmit-IsPaced env topic p s past h

  pub send_packet_on-IsPaced :
      (env : Env) (p : MeshPacket) (ch : ChannelDef) (s : BaseState)
      → Past env.clock s.last_send
      → IsPaced s
      → IsPaced (send_packet_on codec c b env p ch s).0
  unfolding send_packet_on
  send_packet_on-IsPaced env p ch s past h =
      let ids = next env.seed env.high s.packet_ids in
      hand_over-IsPaced env ch.name (prepare codec c b env.unix ids.1 p ch)
        (record s { packet_ids = ids.0 }) past h

  send_resolved-IsPaced :
      (env : Env) (p : MeshPacket) (r : Resolved) (s : BaseState)
      → Past env.clock s.last_send
      → IsPaced s
      → IsPaced (send_resolved codec c b env p r s).0
  send_resolved-IsPaced env p (found ch) s past h = send_packet_on-IsPaced env p ch s past h
  send_resolved-IsPaced env p not_found s past h = h
  send_resolved-IsPaced env p ambiguous s past h = h

  -- If the clock has reached the time of the last call of the transport, a send keeps any two
  -- successive calls of the transport at least the send delay apart, whatever it answers.
  send_packet-IsPaced :
      (env : Env) (p : MeshPacket) (name : Bytes) (s : BaseState)
      → Past env.clock s.last_send
      → IsPaced s
      → IsPaced (send_packet codec c b env p name s).0
  unfolding send_packet
  send_packet-IsPaced env p name s past h = elim (Bool-cases (length name == 0)) [
    | inl e ↦ rw e (
        send_packet_on-IsPaced env p (channel_for_destination b p.to p.pki_encrypted s.db) s past h)
    | inr e ↦ rw e (send_resolved-IsPaced env p (resolve_by_name name s.channels) s past h)
  ]
