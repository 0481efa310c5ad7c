-- ===== src/Client/Reconnect.antt =====
-- A second Connect.
use meshtastic_go.Common.{
  ℕ, ◌≡◌, refl, ap, ◌∙◌, inl, inr, Bool, true, false, not, ◌&&◌, ◌||◌, List, [], ◌∷◌, if◌then◌else◌,
  Bool-cases,
}
use meshtastic_go.Client.{
  DeviceState, ClientTransport, take_packet, pass_on, has_variant, is_complete_id, request_config,
  store, read_message, read_messages, finish_connect,
}
use meshtastic_go.Proto.{
  FromRadio, radio_my_info, radio_metadata, radio_region_presets, radio_node_info, radio_channel,
  radio_config, radio_config_complete_id, radio_module_config, radio_log_record, radio_mqtt_proxy,
  radio_queue_status, radio_xmodem, radio_rebooted, radio_packet,
}

if_false : (x y : ClientTransport) {b : Bool} → b ≡ false → (if b then x else y) ≡ y
if_false x y e = rw e refl

kept_packet :
    (x : FromRadio) (t : ClientTransport)
    → ((take_packet x t).state ≡ t.state) × ((take_packet x t).signalled ≡ t.signalled)
kept_packet (radio_my_info a) t = (refl, refl)
kept_packet (radio_metadata a) t = (refl, refl)
kept_packet (radio_region_presets a b) t = (refl, refl)
kept_packet (radio_node_info a) t = (refl, refl)
kept_packet (radio_channel a) t = (refl, refl)
kept_packet (radio_config a) t = (refl, refl)
kept_packet (radio_module_config a) t = (refl, refl)
kept_packet (radio_config_complete_id a) t = (refl, refl)
kept_packet (radio_log_record a) t = (refl, refl)
kept_packet (radio_mqtt_proxy a) t = (refl, refl)
kept_packet (radio_queue_status a) t = (refl, refl)
kept_packet (radio_xmodem a) t = (refl, refl)
kept_packet (radio_rebooted a) t = (refl, refl)
kept_packet (radio_packet p) t = elim (Bool-cases t.packet_handler) [
  | inl e ↦ rw e (refl, refl)
  | inr e ↦ rw e (refl, refl)
]

complete-store : (x : FromRadio) (s : DeviceState) → s.complete ≡ true → (store x s).complete ≡ true
unfolding store
complete-store (radio_my_info a) s h = h
complete-store (radio_metadata a) s h = h
complete-store (radio_region_presets a b) s h = h
complete-store (radio_node_info a) s h = h
complete-store (radio_channel a) s h = h
complete-store (radio_config a) s h = h
complete-store (radio_module_config a) s h = h
complete-store (radio_config_complete_id a) s h = refl
complete-store (radio_log_record a) s h = h
complete-store (radio_mqtt_proxy a) s h = h
complete-store (radio_queue_status a) s h = h
complete-store (radio_xmodem a) s h = h
complete-store (radio_rebooted a) s h = h
complete-store (radio_packet a) s h = h

kept_pass :
    (b : Bool) (x : FromRadio) (t : ClientTransport)
    → ((pass_on b x t).state ≡ t.state) × ((pass_on b x t).signalled ≡ t.signalled)
kept_pass true x t = (refl, refl)
kept_pass false x t = (refl, refl)

no_signal : (b c s : Bool) → c ≡ true → s ≡ false → (b && not c || s) ≡ false
no_signal true c s h e = rw (h, e) refl
no_signal false c s h e = e

message-waits :
    (x : FromRadio) (t : ClientTransport)
    → t.state.complete ≡ true
    → t.signalled ≡ false
    → ((read_message x t).state.complete ≡ true) × ((read_message x t).signalled ≡ false)
unfolding read_message store
message-waits x t h s =
    let t' : ClientTransport = record t {
      state = store x t.state;
      signalled = is_complete_id x && not t.state.complete || t.signalled;
    } in
    let (a, b) = kept_packet x t' in
    let (a', b') = kept_pass (has_variant x && t.state.complete) x (take_packet x t') in
    (
      ap (λ (s : DeviceState). s.complete) (a' ∙ a) ∙ complete-store x t.state h,
      b' ∙ (b ∙ no_signal (is_complete_id x) t.state.complete t.signalled h s),
    )

read-waits :
    (l : List FromRadio) (t : ClientTransport)
    → t.state.complete ≡ true
    → t.signalled ≡ false
    → (read_messages l t).signalled ≡ false
unfolding read_messages
read-waits [] t h s = s
read-waits (x ∷ l) t h s =
    let (h', s') = message-waits x t h s in read-waits l (read_message x t) h' s'

-- A client whose state is complete, because it has connected before, waits in Connect whatever the
-- device sends: no message makes it return, the end of a new handshake included.
pub read_messages-waits :
    (r : ℕ) (l : List FromRadio) (t : ClientTransport)
    → t.state.complete ≡ true
    → finish_connect (read_messages l (request_config r t)) ≡ read_messages l (request_config r t)
unfolding finish_connect request_config
read_messages-waits r l t h =
    let t' : ClientTransport = record t {
      state = record t.state { config_id = r };
      signalled = false;
    } in
    if_false _ _ (read-waits l t' h refl)
