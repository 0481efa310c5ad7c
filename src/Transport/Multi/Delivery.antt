-- ===== src/Transport/Multi/Delivery.antt =====
-- What a MultiTransport delivers of the packets that its children receive.
use meshtastic_go.Common.{
  ℕ, ◌+◌, ◌≤◌, ◌≡◌, refl, sym, ap, ◌∙◌, ◌≢◌, inl, inr, Bool, true, false, ◌&&◌, none, some, List,
  [], ◌∷◌, arith, ◌==◌, if◌then◌else◌, ==_refl, Bool-cases, length, select, All,
}
use mathlib.Core.Path.{subst}
use meshtastic_go.Dedupe.{PacketDeduplicator, packet_key, seen_at, is_seen}
use meshtastic_go.Dedupe.Window.{entry, is_seen-keeps, is_seen-recorded, is_seen-new}
use meshtastic_go.Transport.{NetworkPacket}
use meshtastic_go.Transport.Multi.{MultiTransport, look_up, deliver, handle_from_child}

-- A packet that some child receives: the random choice of the deduplicator, the time, the packet.
pub record Arrival : Type 0 where
  pub purge : Bool
  pub clock : ℕ
  pub packet : NetworkPacket

unfoldable pub receive_all : List Arrival → MultiTransport → MultiTransport
unfolding handle_from_child
receive_all [] m = m
receive_all (a ∷ l) m = receive_all l (handle_from_child a.purge a.clock a.packet m)

abbrev pub is_of : ℕ → ℕ → NetworkPacket → Bool
is_of from id net = net.packet.from == from && net.packet.id == id

-- The deliveries of the packets with a sender and an id.
abbrev pub times_delivered : ℕ → ℕ → MultiTransport → ℕ
times_delivered from id m = length (select (is_of from id) m.delivered)

-- The record of a packet in the deduplicator has not expired.
abbrev Recorded : ℕ → ℕ → ℕ → MultiTransport → Type 0
Recorded from id t m = entry m.dedup (packet_key from id) ≡ some t

count_cons :
    (p : NetworkPacket → Bool) (net : NetworkPacket) (l : List NetworkPacket)
    → p net ≡ false
    → length (select p (net ∷ l)) ≡ length (select p l)
count_cons p net l h = rw h refl

-- What stays after an arrival: the handler, the record, the window and the number of deliveries.
abbrev Stays : ℕ → ℕ → ℕ → MultiTransport → MultiTransport → Type 0
Stays from id t m m' =
    (m'.handler ≡ true)
    × Recorded from id t m'
    × (m'.dedup.expires_after ≡ m.dedup.expires_after)
    × (times_delivered from id m' ≡ times_delivered from id m)

deliver-Stays :
    (from id t : ℕ) (o : PacketDeduplicator × Bool) (net : NetworkPacket) (m : MultiTransport)
    → m.handler ≡ true
    → entry o.0 (packet_key from id) ≡ some t
    → o.0.expires_after ≡ m.dedup.expires_after
    → (is_of from id net ≡ true → o.1 ≡ true)
    → Stays from id t m (deliver o net m)
deliver-Stays from id t (dedup, true) net m h r e seen = (h, r, e, refl)
deliver-Stays from id t (dedup, false) net m h r e seen = elim (Bool-cases (is_of from id net)) [
  | inl y ↦ absurd (false≢true (seen y))
  | inr y ↦ (
    h,
    r,
    e,
    ap (λ b. length (select (is_of from id) (if b then net ∷ m.delivered else m.delivered))) h
        ∙ count_cons (is_of from id) net m.delivered y,
  )
]
  where
    false≢true : false ≢ true
    false≢true e = cc

same_packet :
    (from id : ℕ) (net : NetworkPacket)
    → is_of from id net ≡ true
    → (net.packet.from ≡ from) × (net.packet.id ≡ id)
same_packet from id net h = ground arith

seen_at-recorded :
    (purge : Bool) (clock from id s i t : ℕ) (p : PacketDeduplicator)
    → entry p (packet_key from id) ≡ some t
    → clock ≤ t + p.expires_after
    → s ≡ from
    → i ≡ id
    → (seen_at purge clock s i p).1 ≡ true
unfolding seen_at
seen_at-recorded purge clock from id s i t p r le e e' =
    rw (e, e') (is_seen-recorded purge clock (packet_key from id) t p r le)

look_up-keeps :
    (from id t : ℕ) (a : Arrival) (p : PacketDeduplicator)
    → id ≢ 0
    → entry p (packet_key from id) ≡ some t
    → a.clock ≤ t + p.expires_after
    → let o = look_up a.purge a.clock a.packet.packet p in
      (entry o.0 (packet_key from id) ≡ some t)
      × (o.0.expires_after ≡ p.expires_after)
      × (is_of from id a.packet ≡ true → o.1 ≡ true)
unfolding seen_at
look_up-keeps from id t a p n r le =
    let pkt = a.packet.packet in
    elim (Bool-cases (pkt.id == 0)) [
      | inl z ↦ rw z (r, refl, λ y. absurd (n (sym (same_packet from id a.packet y).1 ∙ zero_id z)))
      | inr z ↦ rw z (
          let (kept, same) =
            is_seen-keeps a.purge a.clock (packet_key pkt.from pkt.id) (packet_key from id) t p r
              le in
          (
            kept,
            same,
            λ y.
                let (e, e') = same_packet from id a.packet y in
                seen_at-recorded a.purge a.clock from id pkt.from pkt.id t p r le e e',
          ))
    ]
  where
    zero_id : {n : ℕ} → (n == 0) ≡ true → n ≡ 0
    zero_id {n} h = ground arith

arrival-Stays :
    (from id t : ℕ) (a : Arrival) (m : MultiTransport)
    → id ≢ 0
    → m.handler ≡ true
    → Recorded from id t m
    → a.clock ≤ t + m.dedup.expires_after
    → Stays from id t m (handle_from_child a.purge a.clock a.packet m)
unfolding handle_from_child
arrival-Stays from id t a m n h r le =
    let (kept, same, seen) = look_up-keeps from id t a m.dedup n r le in
    deliver-Stays from id t (look_up a.purge a.clock a.packet.packet m.dedup) a.packet m h kept same
      seen

arrivals-Stays :
    (from id t : ℕ) (l : List Arrival) (m : MultiTransport)
    → id ≢ 0
    → m.handler ≡ true
    → Recorded from id t m
    → All (λ a. a.clock ≤ t + m.dedup.expires_after) l
    → Stays from id t m (receive_all l m)
unfolding receive_all
arrivals-Stays from id t [] m n h r les = (h, r, refl, refl)
arrivals-Stays from id t (a ∷ l) m n h r (le, les) =
    let (h', r', e, same) = arrival-Stays from id t a m n h r le in
    let m' = handle_from_child a.purge a.clock a.packet m in
    let (h'', r'', e', same') =
      arrivals-Stays from id t l m' n h' r'
        (subst (λ x. All (λ a. a.clock ≤ t + x) l) (sym e) les) in
    (h'', r'', e' ∙ e, same' ∙ same)

looked_up :
    (a : Arrival) (p : PacketDeduplicator)
    → a.packet.packet.id ≢ 0
    → look_up a.purge a.clock a.packet.packet p
      ≡ seen_at a.purge a.clock a.packet.packet.from a.packet.packet.id p
looked_up a p n = elim (Bool-cases (a.packet.packet.id == 0)) [
  | inl z ↦ absurd (n (ground arith))
  | inr z ↦ rw z refl
]

count_more :
    (net : NetworkPacket) (l : List NetworkPacket)
    → length (select (is_of net.packet.from net.packet.id) (net ∷ l))
      ≡ length (select (is_of net.packet.from net.packet.id) l) + 1
count_more net l = rw (==_refl net.packet.from, ==_refl net.packet.id) (omega arith)

-- A packet with an id, of which no record is held, that a child receives at a time, is delivered
-- exactly once: whatever else the children receive after it, that packet again included, in any order
-- and up to the window later, the user's handler, if it is installed, gets it once.
pub receive_all-once :
    (a : Arrival) (l : List Arrival) (m : MultiTransport)
    → a.packet.packet.id ≢ 0
    → m.handler ≡ true
    → entry m.dedup (packet_key a.packet.packet.from a.packet.packet.id) ≡ none
    → All (λ x. x.clock ≤ a.clock + m.dedup.expires_after) l
    → times_delivered a.packet.packet.from a.packet.packet.id (receive_all (a ∷ l) m)
      ≡ times_delivered a.packet.packet.from a.packet.packet.id m + 1
unfolding receive_all handle_from_child seen_at
receive_all-once a l m n h r les =
    let pkt = a.packet.packet in
    let k = packet_key pkt.from pkt.id in
    let (new, kept, same) = is_seen-new a.purge a.clock k m.dedup r in
    let o = is_seen a.purge a.clock k m.dedup in
    let m' : MultiTransport = record m { dedup = o.0; delivered = a.packet ∷ m.delivered } in
    let first : handle_from_child a.purge a.clock a.packet m ≡ m' =
      ap (λ (o : PacketDeduplicator × Bool). deliver o a.packet m) (looked_up a m.dedup n)
      ∙ (ap (λ b. deliver (o.0, b) a.packet m) new
          ∙ ap
              (λ (b : Bool). record m {
                dedup = o.0;
                delivered = (if b then a.packet ∷ m.delivered else m.delivered);
              })
              h) in
    let (h', r', e, stays) =
      arrivals-Stays pkt.from pkt.id a.clock l m' n h kept
        (subst (λ x. All (λ y. y.clock ≤ a.clock + x) l) (sym same) les) in
    ap (λ x. times_delivered pkt.from pkt.id (receive_all l x)) first
    ∙ (stays ∙ count_more a.packet m.delivered)
