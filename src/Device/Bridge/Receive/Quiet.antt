-- ===== src/Device/Bridge/Receive/Quiet.antt =====
-- When a bridge does not answer.
use meshtastic_go.Common.{
  ℕ, ◌≡◌, refl, sym, ap, ◌∙◌, Bool, true, false, not, ◌&&◌, Option, none, some, ◌==◌, if◌then◌else◌,
  length,
}
use mathlib.Core.Path.{subst}
use meshtastic_go.Beacon.{mesh_beacon_has_offer}
use meshtastic_go.Device.Base.{Env, BaseState}
use meshtastic_go.Device.Bridge.{BridgeConfig, BridgeEnv, is_managed}
use meshtastic_go.Device.Bridge.Context.{bridge_event, context_of}
use meshtastic_go.Device.Bridge.Receive.{
  with_base, when, dispatch_bridge, on_bridge_position, answer_telemetry, answer_neighbor_info,
  on_bridge_traceroute, asks_one,
}
use meshtastic_go.Device.Bridge.Respond.{
  respond_telemetry, respond_neighbor_info, handle_traceroute_request,
}
use meshtastic_go.Device.Bridge.Route.{EventContext}
use meshtastic_go.Transport.{NetworkPacket}
use meshtastic_go.Device.Config.{BaseConfig}
use meshtastic_go.Device.Handlers.{
  EventBody, Event, NodeState, Via, on_telemetry, on_waypoint, on_mesh_beacon, on_neighbor_info,
  on_map_report, on_routing, store_metrics,
}
use meshtastic_go.NodeDb.{get_device_metrics}
use meshtastic_go.Proto.{
  Data, MeshPacket, Position, DeviceMetrics, Telemetry, Waypoint, MeshBeacon, NeighborInfo,
  MapReport, RouteDiscovery, Routing, ProtoCodec, Ciphers, text_message_app, position_app,
  nodeinfo_app, routing_app, waypoint_app, mesh_beacon_app, telemetry_app, traceroute_app,
  neighborinfo_app, map_report_app,
}

-- Nothing of the base has changed but the node database: no packet has gone out, no packet id was
-- drawn and no throttle was used.
abbrev pub OnlyDb : NodeState → NodeState → Type 0
OnlyDb s s' = s'.base ≡ record s.base { db = s'.base.db }

if-OnlyDb :
    (s : NodeState) (t : Bool) (x y : NodeState)
    → OnlyDb s x
    → OnlyDb s y
    → OnlyDb s (if t then x else y)
if-OnlyDb s true x y h k = h
if-OnlyDb s false x y h k = k

position-OnlyDb :
    (env : Env) (pkt : MeshPacket) (evt : EventBody → Event) (o : Option Position) (s : NodeState)
    → OnlyDb s (on_bridge_position env pkt evt o s)
position-OnlyDb env pkt evt none s = refl
position-OnlyDb env pkt evt (some pos) s = refl

metrics-OnlyDb :
    (env : Env) (from : ℕ) (o : Option DeviceMetrics) (s : NodeState)
    → OnlyDb s (store_metrics env from o s)
metrics-OnlyDb env from none s = refl
metrics-OnlyDb env from (some m) s = refl

telemetry-OnlyDb :
    (env : Env) (pkt : MeshPacket) (evt : EventBody → Event) (o : Option Telemetry) (s : NodeState)
    → OnlyDb s (on_telemetry env pkt evt o s)
telemetry-OnlyDb env pkt evt none s = refl
telemetry-OnlyDb env pkt evt (some tel) s =
    metrics-OnlyDb env pkt.from (get_device_metrics tel.variant) s

waypoint-OnlyDb :
    (env : Env) (evt : EventBody → Event) (o : Option Waypoint) (s : NodeState)
    → OnlyDb s (on_waypoint env evt o s)
waypoint-OnlyDb env evt none s = refl
waypoint-OnlyDb env evt (some wp) s = refl

beacon-OnlyDb :
    (evt : EventBody → Event) (o : Option MeshBeacon) (s : NodeState)
    → OnlyDb s (on_mesh_beacon evt o s)
beacon-OnlyDb evt none s = refl
beacon-OnlyDb evt (some beacon) s =
    if-OnlyDb s (length beacon.message == 0 && not (mesh_beacon_has_offer (some beacon))) s _ refl
      refl

neighbor-OnlyDb :
    (evt : EventBody → Event) (o : Option NeighborInfo) (s : NodeState)
    → OnlyDb s (on_neighbor_info evt o s)
neighbor-OnlyDb evt none s = refl
neighbor-OnlyDb evt (some ni) s = refl

report-OnlyDb :
    (env : Env) (pkt : MeshPacket) (evt : EventBody → Event) (o : Option MapReport) (s : NodeState)
    → OnlyDb s (on_map_report env pkt evt o s)
report-OnlyDb env pkt evt none s = refl
report-OnlyDb env pkt evt (some mr) s = refl

routing-OnlyDb :
    (d : Data) (evt : EventBody → Event) (o : Option Routing) (s : NodeState)
    → OnlyDb s (on_routing d evt o s)
routing-OnlyDb d evt none s = refl
routing-OnlyDb d evt (some r) s = refl

-- A reply that leaves the base alone.
when-same :
    (t : Bool) (reply : BaseState → BaseState) (s : NodeState)
    → reply s.base ≡ s.base
    → when t reply s ≡ s
when-same true reply s h = ap (λ base. record s { base = base }) h
when-same false reply s h = refl

module _ (codec : ProtoCodec) (c : Ciphers) (b : BaseConfig) (cfg : BridgeConfig)
    (quarters : ℕ → ℕ) where
  no_telemetry :
      (w : BridgeEnv) (ctx : EventContext) (tel : Telemetry) (st : BaseState)
      → is_managed cfg.is_managed_node ctx.to ≡ false
      → respond_telemetry codec c b cfg w ctx tel st ≡ st
  unfolding respond_telemetry
  no_telemetry w ctx tel st h = rw h refl

  no_neighbor_info :
      (w : BridgeEnv) (ctx : EventContext) (ni : NeighborInfo) (st : BaseState)
      → is_managed cfg.is_managed_node ctx.to ≡ false
      → respond_neighbor_info codec c b cfg w ctx ni st ≡ st
  unfolding respond_neighbor_info
  no_neighbor_info w ctx ni st h = rw h refl

  no_traceroute :
      (w : BridgeEnv) (ctx : EventContext) (rd : RouteDiscovery) (st : BaseState)
      → is_managed cfg.is_managed_node ctx.to ≡ false
      → handle_traceroute_request codec c b cfg quarters w ctx rd st ≡ st
  unfolding handle_traceroute_request
  no_traceroute w ctx rd st h = rw h refl

  answer_telemetry-same :
      (w : BridgeEnv) (ctx : EventContext) (t : Bool) (o : Option Telemetry) (s : NodeState)
      → is_managed cfg.is_managed_node ctx.to ≡ false
      → answer_telemetry codec c b cfg quarters w ctx t o s ≡ s
  answer_telemetry-same w ctx t none s h = refl
  answer_telemetry-same w ctx t (some tel) s h =
      when-same t (respond_telemetry codec c b cfg w ctx tel) s (no_telemetry w ctx tel s.base h)

  answer_neighbor_info-same :
      (w : BridgeEnv) (ctx : EventContext) (t : Bool) (o : Option NeighborInfo) (s : NodeState)
      → is_managed cfg.is_managed_node ctx.to ≡ false
      → answer_neighbor_info codec c b cfg quarters w ctx t o s ≡ s
  answer_neighbor_info-same w ctx t none s h = refl
  answer_neighbor_info-same w ctx t (some ni) s h =
      when-same t (respond_neighbor_info codec c b cfg w ctx ni) s
        (no_neighbor_info w ctx ni s.base h)

  traceroute-OnlyDb :
      (w : BridgeEnv) (ctx : EventContext) (d : Data) (evt : EventBody → Event)
      (o : Option RouteDiscovery) (s : NodeState)
      → is_managed cfg.is_managed_node ctx.to ≡ false
      → OnlyDb s (on_bridge_traceroute codec c b cfg quarters w ctx d evt o s)
  traceroute-OnlyDb w ctx d evt none s h = refl
  traceroute-OnlyDb w ctx d evt (some rd) s h =
      if-OnlyDb s (not (d.request_id == 0)) _
        (with_base (handle_traceroute_request codec c b cfg quarters w ctx rd) s) refl
        (let e = no_traceroute w ctx rd s.base h in
          e ∙ ap (λ (base : BaseState). record s.base { db = base.db }) (sym e))

  -- A packet on another port than that for node information, for a node that the bridge does not
  -- manage, changes nothing of the shared base but the node database: no packet goes out, no packet id
  -- is drawn, and no throttle is used, whatever it asks for.
  pub dispatch-OnlyDb :
      (w : BridgeEnv) (net : NetworkPacket) (via : Via) (managed : ℕ) (d : Data) (signed : Bool)
      (s : NodeState)
      → is_managed cfg.is_managed_node net.packet.to ≡ false
      → (d.portnum == nodeinfo_app) ≡ false
      → OnlyDb s (dispatch_bridge codec c b cfg quarters w net via managed d signed s)
  unfolding dispatch_bridge
  dispatch-OnlyDb w net via managed d signed s h p =
      let pkt = net.packet in
      let evt = bridge_event w.first.unix net via managed d signed in
      let ctx = context_of net via in
      let asks = asks_one codec c b cfg quarters d pkt in
      let tel = codec.unmarshal_telemetry d.payload in
      let ni = codec.unmarshal_neighbor_info d.payload in
      rw p (
        if-OnlyDb s (d.portnum == position_app) _ _
          (position-OnlyDb w.first pkt evt (codec.unmarshal_position d.payload) s)
          (if-OnlyDb s (d.portnum == telemetry_app) _ _
            (subst (OnlyDb s)
              (sym (answer_telemetry-same w ctx asks tel (on_telemetry w.first pkt evt tel s) h))
              (telemetry-OnlyDb w.first pkt evt tel s))
            (if-OnlyDb s (d.portnum == text_message_app) _ _ refl (
              if-OnlyDb s (d.portnum == waypoint_app) _ _
                (waypoint-OnlyDb w.first evt (codec.unmarshal_waypoint d.payload) s)
                (if-OnlyDb s (d.portnum == mesh_beacon_app) _ _
                  (beacon-OnlyDb evt (codec.unmarshal_mesh_beacon d.payload) s)
                  (if-OnlyDb s (d.portnum == neighborinfo_app) _ _
                    (subst (OnlyDb s)
                      (sym (answer_neighbor_info-same w ctx asks ni (on_neighbor_info evt ni s) h))
                      (neighbor-OnlyDb evt ni s))
                    (if-OnlyDb s (d.portnum == map_report_app) _ _
                      (report-OnlyDb w.first pkt evt (codec.unmarshal_map_report d.payload) s)
                      (if-OnlyDb s (d.portnum == traceroute_app) _ _
                        (traceroute-OnlyDb w ctx d evt (codec.unmarshal_route_discovery d.payload) s
                          h)
                        (if-OnlyDb s (d.portnum == routing_app) _ _
                          (routing-OnlyDb d evt (codec.unmarshal_routing d.payload) s) refl)))))))))
