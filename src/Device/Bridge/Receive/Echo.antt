-- ===== src/Device/Bridge/Receive/Echo.antt =====
-- What a bridge hears of its own packets.
use meshtastic_go.Common.{
  ℕ, ◌≤◌, ◌≡◌, refl, inl, inr, Bool, true, List, [], ◌∷◌, arith, Bool-cases, Bytes,
}
use meshtastic_go.Crypto.Packet.{ok}
use meshtastic_go.Device.Base.{Env, BaseState}
use meshtastic_go.Device.Bridge.{BridgeConfig, BridgeEnv}
use meshtastic_go.Device.Bridge.Receive.{is_own, bridge_incoming_packet}
use meshtastic_go.Device.Bridge.Request.{BridgeSend}
use meshtastic_go.Device.Bridge.Send.{send_as}
use meshtastic_go.Device.Bridge.Send.Safe.{Adds, IsSafe, send_as-IsSafe}
use meshtastic_go.Transport.{PacketSource, NetworkPacket}
use meshtastic_go.Device.Config.{BaseConfig}
use meshtastic_go.Device.Handlers.{NodeState, is_duplicate}
use meshtastic_go.Device.Base.{Sent}
use meshtastic_go.Device.Node.{max_hops}
use meshtastic_go.Proto.{MeshPacket, ProtoCodec, Ciphers}

module _ (codec : ProtoCodec) (c : Ciphers) (b : BaseConfig) (cfg : BridgeConfig)
    (quarters : ℕ → ℕ) where
  -- A packet that came back, or that was seen before, leaves everything as it is but for the
  -- deduplicator.
  abbrev pub ignored : Bool → BridgeEnv → NetworkPacket → NodeState → NodeState
  ignored purge w net s = record s {
    base = record s.base { dedup = (is_duplicate purge w.first.clock net.packet s.base.dedup).0 };
  }

  own-ignored :
      (w : BridgeEnv) (purge : Bool) (net : NetworkPacket) (s : NodeState)
      → is_own codec c b cfg quarters net.packet.from ≡ true
      → bridge_incoming_packet codec c b cfg quarters w purge net s ≡ ok (ignored purge w net s)
  unfolding bridge_incoming_packet
  own-ignored w purge net s h =
      elim (Bool-cases (is_duplicate purge w.first.clock net.packet s.base.dedup).1) [
        | inl e ↦ rw e refl
        | inr e ↦ rw (e, h) refl
      ]

  Adds-map :
      (P Q : MeshPacket → Type 0) (before after : List Sent)
      → ((p : MeshPacket) → P p → Q p)
      → Adds codec c b cfg P before after
      → Adds codec c b cfg Q before after
  Adds-map P Q before after f (inl e) = inl e
  Adds-map P Q before [] f (inr e) = inr e
  Adds-map P Q before (x ∷ l) f (inr (e, h)) = inr (e, f x.packet h)

  -- With a default hop limit of at most 7, a packet that sendAs hands to the transport is ignored when
  -- it comes back, in any state of the bridge and from any source: no handler sees it, nothing is
  -- answered, and only the deduplicator may change.
  pub echo-ignored :
      (env : Env) (draw : ℕ) (call : BridgeSend) (st : BaseState) (w : BridgeEnv) (purge : Bool)
      (topic gateway : Bytes) (source : PacketSource) (s : NodeState)
      → b.hop_limit ≤ max_hops
      → Adds codec c b cfg
          (λ p.
            let net : NetworkPacket = record {
              packet = p;
              channel = topic;
              source = source;
              gateway_id = gateway;
            } in
            bridge_incoming_packet codec c b cfg quarters w purge net s
            ≡ ok (ignored purge w net s))
          st.sent
          (send_as codec c b cfg env draw call st).0.sent
  echo-ignored env draw call st w purge topic gateway source s h =
      Adds-map (IsSafe codec c b cfg call) _ st.sent (send_as codec c b cfg env draw call st).0.sent
        (λ p (m, l, from, to, limit, start, le, clear).
          own-ignored w purge
            (record { packet = p; channel = topic; source = source; gateway_id = gateway }) s
            (rw (from, m) (ground arith)))
        (send_as-IsSafe codec c b cfg env draw call st h)
