-- ===== src/Transport/Multi.antt =====
-- transport/raw/multi.go: MultiTransport. A child is an interface: what its methods answer is part
-- of the state, and what the user's handlers are given is recorded, newest first.
pub mod Aggregate
pub mod Delivery
mod Examples
use meshtastic_go.Common.{
  ℕ, zero, suc, ◌+◌, ◌-◌, ◌*◌, ◌/◌, ◌%◌, ◌^◌, ◌≤◌, ◌<◌, bit_and, bit_or, bit_xor, ◌≡◌, refl, sym,
  ap, ◌∙◌, ◌≢◌, ◌↔◌, ◌⊎◌, inl, inr, Bool, true, false, not, ◌&&◌, ◌||◌, Option, none, some, List,
  [], ◌∷◌, ◌++◌, map, arith, ltb, leb, ◌==◌, if◌then◌else◌, bool_eq, ==_iff, ==_refl, Bool-cases,
  Option-cases, is_some, length, get_elem?, get_or, take, drop, replicate, select, find_first, All,
  length-append, Bytes, bytes_eq, bytes_eq_iff, bytes_eq_refl, text,
}
use meshtastic_go.Dedupe.{PacketDeduplicator, new_deduplicator, seen_at}
use meshtastic_go.Proto.{MeshPacket}
use meshtastic_go.Transport.{
  ListenerEvent, connected, disconnected, reconnecting, failed, NetworkPacket,
}

-- A child transport: whether it is connected, and whether its Start, its Stop and its SendPacket
-- succeed. Its delays only sleep.
pub record Child : Type 0 where
  pub is_up : Bool
  pub starts : Bool
  pub stops : Bool
  pub sends : Bytes → MeshPacket → Bool

pub record MultiTransport : Type 0 where
  pub transports : List Child
  pub dedup : PacketDeduplicator
  -- whether the user's handlers are installed
  pub handler : Bool
  pub state : Bool
  pub delivered : List NetworkPacket
  pub emitted : List ListenerEvent

abbrev pub half_minute : ℕ
half_minute = 30_000_000_000

unfoldable pub new_multi_transport : List Child → MultiTransport
unfolding new_deduplicator
new_multi_transport transports = record {
  transports = transports;
  dedup = new_deduplicator half_minute;
  handler = false;
  state = false;
  delivered = [];
  emitted = [];
}

-- `true` is a nil error, which errors.Join gives when there is no error to join.
unfoldable pub start_all : MultiTransport → Bool
start_all m =
    let errs = select (λ e. not e.starts) m.transports in
    let started = select (λ e. e.starts) m.transports in
    if length started == 0 then length errs == 0 else true

unfoldable pub stop_all : MultiTransport → Bool
stop_all m = length (select (λ e. not e.stops) m.transports) == 0

abbrev pub any_up : List Child → Bool
any_up [] = false
any_up (e ∷ l) = e.is_up || any_up l

-- IsConnected
unfoldable pub is_connected : MultiTransport → Bool
is_connected m = any_up m.transports

abbrev pub set_packet_handler : MultiTransport → MultiTransport
set_packet_handler m = record m { handler = true }

abbrev pub set_state_handler : MultiTransport → MultiTransport
set_state_handler m = record m { state = true }

-- Whether the error of SendPacket is nil.
unfoldable pub send_packet_to_all : Bytes → MeshPacket → MultiTransport → Bool
send_packet_to_all channel packet m =
    let up = select (λ e. e.is_up) m.transports in
    let failures = select (λ e. not (e.sends channel packet)) up in
    if length up == 0 then false else not (length failures == length up)

-- The handler of a child. `purge` is the random choice of the deduplicator.
abbrev pub look_up : Bool → ℕ → MeshPacket → PacketDeduplicator → PacketDeduplicator × Bool
look_up purge clock pkt dedup =
    if pkt.id == 0 then (dedup, false) else seen_at purge clock pkt.from pkt.id dedup

abbrev pub deliver : PacketDeduplicator × Bool → NetworkPacket → MultiTransport → MultiTransport
deliver (dedup, true) pkt m = record m { dedup = dedup }
deliver (dedup, false) pkt m = record m {
  dedup = dedup;
  delivered = (if m.handler then pkt ∷ m.delivered else m.delivered);
}

unfoldable pub handle_from_child : Bool → ℕ → NetworkPacket → MultiTransport → MultiTransport
unfolding seen_at
handle_from_child purge clock pkt m = deliver (look_up purge clock pkt.packet m.dedup) pkt m

-- Whether a child other than the one at an index is connected.
abbrev pub any_other_up : ℕ → List Child → Bool
any_other_up i [] = false
any_other_up zero (e ∷ l) = any_up l
any_other_up (suc i) (e ∷ l) = e.is_up || any_other_up i l

abbrev pub emit : ListenerEvent → MultiTransport → MultiTransport
emit event m = record m { emitted = event ∷ m.emitted }

-- The state handler of the child at an index.
unfoldable pub handle_child_state : ℕ → ListenerEvent → MultiTransport → MultiTransport
handle_child_state i disconnected m =
    if not m.state then m else if any_up m.transports then m else emit disconnected m
handle_child_state i connected m =
    if not m.state then m else if any_other_up i m.transports then m else emit connected m
handle_child_state i reconnecting m =
    if not m.state then m else if any_other_up i m.transports then m else emit reconnecting m
handle_child_state i failed m = if not m.state then m else emit failed m
