-- ===== src/Dedupe.antt =====
-- core/dedupe/dedupe.go: PacketDeduplicator. A time is a number of nanoseconds. The random test
-- `rand.Intn(100) < 5` and the seeded hash of SeenData are arguments.
pub mod Window
mod Examples
use meshtastic_go.Common.{ℕ, ◌+◌, ◌-◌, ◌*◌, ◌^◌, bit_or, ltb, if◌then◌else◌}
use meshtastic_go.Common.{Bool, true, false, Option, none, some, [], Bytes}
use meshtastic_go.Common.Dict.{Dict, lookup, insert, delete, delete_if, nat_eq}

pub record PacketDeduplicator : Type 0 where
  pub expires_after : ℕ
  pub seen : Dict ℕ ℕ

unfoldable pub new_deduplicator : ℕ → PacketDeduplicator
new_deduplicator expires_after = record { expires_after = expires_after; seen = [] }

-- `deleteUntil(now.Add(-p.expiresAfter))`: `timestamp.Before(t)` is `timestamp + expiresAfter < now`,
-- written without the subtraction, which may pass below the epoch.
unfoldable pub delete_until : ℕ → PacketDeduplicator → PacketDeduplicator
delete_until now p = record p {
  seen = delete_if (λ timestamp. ltb (timestamp + p.expires_after) now) p.seen;
}

-- What isSeen does with the entry that it finds.
unfoldable pub visit : ℕ → ℕ → Option ℕ → PacketDeduplicator → PacketDeduplicator × Bool
visit now k none p = (record p { seen = insert k now p.seen }, false)
visit now k (some d) p =
    if ltb p.expires_after (now - d)
    then (record p { seen = delete k p.seen }, false)
    else (p, true)

-- `purge` is the outcome of `rand.Intn(100) < 5`.
unfoldable pub is_seen : Bool → ℕ → ℕ → PacketDeduplicator → PacketDeduplicator × Bool
unfolding visit delete_until
is_seen purge now k p =
    let p' = if purge then delete_until now p else p in visit now k (lookup k p'.seen) p'

-- `(uint64(sender)<<32)|uint64(packetID)`
unfoldable pub packet_key : ℕ → ℕ → ℕ
packet_key sender packet_id = bit_or (sender * 2 ^ 32) packet_id

unfoldable pub seen_at : Bool → ℕ → ℕ → ℕ → PacketDeduplicator → PacketDeduplicator × Bool
unfolding is_seen packet_key
seen_at purge now sender packet_id p = is_seen purge now (packet_key sender packet_id) p

-- `hash` is maphash.Bytes with the seed of the deduplicator.
unfoldable pub seen_data_at :
    (Bytes → ℕ) → Bool → ℕ → Bytes → PacketDeduplicator → PacketDeduplicator × Bool
unfolding is_seen
seen_data_at hash purge now data_bytes p = is_seen purge now (hash data_bytes) p
