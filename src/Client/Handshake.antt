-- ===== src/Client/Handshake.antt =====
-- What Connect makes of the handshake that the server of a node sends.
use meshtastic_go.Common.{
  ℕ, ◌≡◌, refl, sym, ap, ◌∙◌, inl, inr, Bool, true, false, not, ◌||◌, some, List, [], ◌∷◌, ◌++◌,
  map, Bool-cases,
}
use meshtastic_go.Client.{
  DeviceState, ClientTransport, empty_state, pass_on, request_config, store, read_message,
  read_messages, finish_connect,
}
use meshtastic_go.ClientApi.{
  ServerConfig, channel_table, my_info, server_metadata, indexed, greeting, known_nodes, ending,
  handshake_with, handshake,
}
use meshtastic_go.NodeDb.{NodeDb, all_nodes, self_info}
use meshtastic_go.NodeId.Text.{string}
use meshtastic_go.Lora.Regions.{regions, region_preset_map}
use meshtastic_go.Proto.{
  NodeInfo, ChannelSlot, PresetGroup, RegionPresets, device_config, FromRadio, radio_node_info,
  radio_channel, radio_config, radio_config_complete_id,
}
use mathlib.Core.Path.{subst}
use mathlib.Core.List.{append-nil, append_assoc}

read_messages-append :
    (a d : List FromRadio) (t : ClientTransport)
    → read_messages (a ++ d) t ≡ read_messages d (read_messages a t)
unfolding read_messages
read_messages-append [] d t = refl
read_messages-append (x ∷ a) d t = read_messages-append a d (read_message x t)

abbrev with_nodes : List NodeInfo → ClientTransport → ClientTransport
with_nodes l t = record t { state = record t.state { nodes = t.state.nodes ++ l } }

abbrev with_slots : List ChannelSlot → ClientTransport → ClientTransport
with_slots l t = record t { state = record t.state { channels = t.state.channels ++ l } }

-- Before the state is complete a stored message goes no further.
read_node :
    (x : NodeInfo) (t : ClientTransport)
    → t.state.complete ≡ false
    → read_message (radio_node_info x) t ≡ with_nodes (x ∷ []) t
unfolding read_message store
read_node x t h = ap (λ b. pass_on b (radio_node_info x) (with_nodes (x ∷ []) t)) h

read_slot :
    (x : ChannelSlot) (t : ClientTransport)
    → t.state.complete ≡ false
    → read_message (radio_channel x) t ≡ with_slots (x ∷ []) t
unfolding read_message store
read_slot x t h = ap (λ b. pass_on b (radio_channel x) (with_slots (x ∷ []) t)) h

read_nodes :
    (f : NodeInfo → NodeInfo) (l : List NodeInfo) (t : ClientTransport)
    → t.state.complete ≡ false
    → read_messages (map (λ info. radio_node_info (f info)) l) t ≡ with_nodes (map f l) t
unfolding read_messages
read_nodes f [] t h =
    ap (λ (l : List NodeInfo). record t { state = record t.state { nodes = l } })
      (sym (append-nil t.state.nodes))
read_nodes f (x ∷ l) t h =
    ap (read_messages (map (λ info. radio_node_info (f info)) l)) (read_node (f x) t h)
    ∙ (read_nodes f l (with_nodes (f x ∷ []) t) h
        ∙ ap (λ (l : List NodeInfo). record t { state = record t.state { nodes = l } })
            (append_assoc t.state.nodes (f x ∷ []) (map f l)))

read_slots :
    (l : List ChannelSlot) (t : ClientTransport)
    → t.state.complete ≡ false
    → read_messages (map radio_channel l) t ≡ with_slots l t
unfolding read_messages
read_slots [] t h =
    ap (λ (l : List ChannelSlot). record t { state = record t.state { channels = l } })
      (sym (append-nil t.state.channels))
read_slots (x ∷ l) t h =
    ap (read_messages (map radio_channel l)) (read_slot x t h)
    ∙ (read_slots l (with_slots (x ∷ []) t) h
        ∙ ap (λ (l : List ChannelSlot). record t { state = record t.state { channels = l } })
            (append_assoc t.state.channels (x ∷ []) l))

-- The state that the handshake of a server leaves in a client whose state was empty.
abbrev pub served : ServerConfig → NodeDb → ℕ → DeviceState
served cfg db r = record {
  complete = true;
  config_id = r;
  node_info = some (my_info cfg);
  device_metadata = some server_metadata;
  nodes = self_info string db ∷ map (indexed cfg db) (all_nodes db);
  channels = channel_table cfg;
  configs = device_config true cfg.node_info_broadcast_secs ∷ [];
  modules = [];
}

abbrev IsServed : ClientTransport → ServerConfig → NodeDb → ℕ → ClientTransport → Type 0
IsServed t' cfg db r t =
    (t'.connected_flag ≡ true)
    × (t'.state ≡ served cfg db r)
    × (t'.handled ≡ t.handled)
    × (t'.received ≡ t.received)

connected_served :
    (cfg : ServerConfig) (db : NodeDb) (r : ℕ) (t : ClientTransport)
    → IsServed (finish_connect (record t { state = served cfg db r; signalled = true })) cfg db r t
unfolding finish_connect
connected_served cfg db r t = elim (Bool-cases t.state_handler) [
  | inl e ↦ rw e (refl, refl, refl, refl)
  | inr e ↦ rw e (refl, refl, refl, refl)
]

-- The client once it has read the greeting.
abbrev greeted : ServerConfig → NodeDb → ℕ → ClientTransport → ClientTransport
greeted cfg db r t = record t {
  state = record empty_state {
    config_id = r;
    node_info = some (my_info cfg);
    device_metadata = some server_metadata;
    nodes = self_info string db ∷ [];
  };
  signalled = false;
}

read_greeting :
    (groups : List PresetGroup) (rs : List RegionPresets) (cfg : ServerConfig) (db : NodeDb) (r : ℕ)
    (t : ClientTransport)
    → read_messages
        (greeting groups rs cfg db)
        (request_config r (record t { state = empty_state }))
      ≡ greeted cfg db r t
unfolding read_messages read_message store request_config
read_greeting groups rs cfg db r t = refl

read_ending :
    (cfg : ServerConfig) (r : ℕ) (t : ClientTransport)
    → t.state.complete ≡ false
    → read_messages (ending cfg r) t ≡ record t {
      state = record t.state {
        complete = true;
        configs = t.state.configs ++ (device_config true cfg.node_info_broadcast_secs ∷ []);
      };
      signalled = true;
    }
unfolding read_messages read_message store
read_ending cfg r t h =
    let part = device_config true cfg.node_info_broadcast_secs in
    let t' : ClientTransport = record t {
      state = record t.state { configs = t.state.configs ++ (part ∷ []) };
    } in
    ap (λ (b : Bool). read_message (radio_config_complete_id r) (pass_on b (radio_config part) t'))
      h
    ∙ ap
        (λ (b : Bool). record t' {
          state = record t'.state { complete = true };
          signalled = not b || t.signalled;
        })
        h

read_handshake :
    (groups : List PresetGroup) (rs : List RegionPresets) (cfg : ServerConfig) (db : NodeDb) (r : ℕ)
    (t : ClientTransport)
    → read_messages
        (handshake_with groups rs cfg db r)
        (request_config r (record t { state = empty_state }))
      ≡ record t { state = served cfg db r; signalled = true }
read_handshake groups rs cfg db r t =
    let t1 = greeted cfg db r t in
    let t2 = with_nodes (map (indexed cfg db) (all_nodes db)) t1 in
    let t3 = with_slots (channel_table cfg) t2 in
    let slots = map radio_channel (channel_table cfg) in
    read_messages-append (greeting groups rs cfg db) (known_nodes cfg db ++ (slots ++ ending cfg r))
      _
    ∙ (ap (read_messages (known_nodes cfg db ++ (slots ++ ending cfg r)))
          (read_greeting groups rs cfg db r t)
        ∙ (read_messages-append (known_nodes cfg db) (slots ++ ending cfg r) t1
            ∙ (ap (read_messages (slots ++ ending cfg r))
                  (read_nodes (indexed cfg db) (all_nodes db) t1 refl)
                ∙ (read_messages-append slots (ending cfg r) t2
                    ∙ (ap (read_messages (ending cfg r)) (read_slots (channel_table cfg) t2 refl)
                        ∙ read_ending cfg r t3 refl)))))

-- A client whose state is empty asks for the configuration with any id and reads what the server
-- writes, all of it and nothing else: Connect returns without an error, its state is complete and
-- holds the id, the server's own number and metadata, its own node first and then every known node
-- with the index of its channel, the eight slots of the channel table and the device's configuration,
-- and no message of the handshake has reached a registered handler or the packet handler.
pub finish_connect-served :
    (cfg : ServerConfig) (db : NodeDb) (r : ℕ) (t : ClientTransport)
    → t.state ≡ empty_state
    → let t' = finish_connect (read_messages (handshake cfg db r) (request_config r t)) in
      (t'.connected_flag ≡ true)
      × (t'.state ≡ served cfg db r)
      × (t'.handled ≡ t.handled)
      × (t'.received ≡ t.received)
unfolding handshake
finish_connect-served cfg db r t h =
    let presets = region_preset_map regions in
    let read =
      ap
        (λ (s : DeviceState).
          read_messages (handshake_with presets.groups presets.region_groups cfg db r)
            (request_config r (record t { state = s })))
        h
      ∙ read_handshake presets.groups presets.region_groups cfg db r t in
    subst (λ (x : ClientTransport). IsServed (finish_connect x) cfg db r t) (sym read)
      (connected_served cfg db r t)
