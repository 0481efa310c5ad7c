-- ===== src/Dedupe/Window.antt =====
-- What Seen answers within the window of a record and after it, whatever the random purges do.
use meshtastic_go.Common.{
  ℕ, ◌+◌, ◌^◌, ◌≤◌, ◌<◌, ◌≡◌, refl, ◌∙◌, arith, ltb, ==_iff, Bool, true, false, Option, none, some,
  [], ◌∷◌, List, All,
}
use meshtastic_go.Common.Bits.{or_fields}
use meshtastic_go.Common.Dict.{
  lookup, delete_if, nat_eq, lookup-insert, lookup-delete, lookup-delete_if,
}
use meshtastic_go.Dedupe.{PacketDeduplicator, delete_until, visit, is_seen, packet_key, seen_at}

-- Distinct (sender, packet id) pairs have distinct keys.
pub packet_key_injective :
    (s i t j : ℕ) → i < 2 ^ 32 → j < 2 ^ 32 → packet_key s i ≡ packet_key t j → (s ≡ t) × (i ≡ j)
unfolding packet_key
packet_key_injective s i t j hi hj e = omega (arith, or_fields 32 s i hi, or_fields 32 t j hj)

abbrev pub entry : PacketDeduplicator → ℕ → Option ℕ
entry p k = lookup k p.seen

-- A call to isSeen: the outcome of the random test, the time and the key.
pub record Call : Type 0 where
  pub purge : Bool
  pub now : ℕ
  pub key : ℕ

unfoldable pub run : List Call → PacketDeduplicator → PacketDeduplicator
run [] p = p
run (c ∷ cs) p = run cs (is_seen c.purge c.now c.key p).0

purge-keeps :
    (now k d : ℕ) (p : PacketDeduplicator)
    → lookup k p.seen ≡ some d
    → now ≤ d + p.expires_after
    → lookup k (delete_until now p).seen ≡ some d
unfolding delete_until
purge-keeps now k d p e h =
    ground (arith, lookup-delete_if (λ t. ltb (t + p.expires_after) now) k p.seen)

visit-keeps :
    (now j k d : ℕ) (o : Option ℕ) (p : PacketDeduplicator)
    → lookup j p.seen ≡ o
    → lookup k p.seen ≡ some d
    → now ≤ d + p.expires_after
    → (lookup k (visit now j o p).0.seen ≡ some d)
      × ((visit now j o p).0.expires_after ≡ p.expires_after)
unfolding visit
visit-keeps now j k d none p o e h = ground (arith, lookup-insert j k now p.seen, ==_iff j k)
visit-keeps now j k d (some x) p o e h = ground (arith, lookup-delete j k p.seen, ==_iff j k)

-- A call keeps a record that has not expired, whichever key it is about.
pub is_seen-keeps :
    (purge : Bool) (now j k d : ℕ) (p : PacketDeduplicator)
    → lookup k p.seen ≡ some d
    → now ≤ d + p.expires_after
    → (lookup k (is_seen purge now j p).0.seen ≡ some d)
      × ((is_seen purge now j p).0.expires_after ≡ p.expires_after)
unfolding is_seen
is_seen-keeps true now j k d p e h =
    let p' = delete_until now p in
    visit-keeps now j k d (lookup j p'.seen) p' refl (purge-keeps now k d p e h) h
is_seen-keeps false now j k d p e h = visit-keeps now j k d (lookup j p.seen) p refl e h

run-keeps :
    (cs : List Call) (k d : ℕ) (p : PacketDeduplicator)
    → lookup k p.seen ≡ some d
    → All (λ c. c.now ≤ d + p.expires_after) cs
    → (lookup k (run cs p).seen ≡ some d) × ((run cs p).expires_after ≡ p.expires_after)
unfolding run
run-keeps [] k d p e h = (e, refl)
run-keeps (c ∷ cs) k d p e h =
    let (kept, same) = is_seen-keeps c.purge c.now c.key k d p e h.0 in
    let p' = (is_seen c.purge c.now c.key p).0 in
    let (kept', same') = run-keeps cs k d p' kept (rw same h.1) in (kept', same' ∙ same)

-- A record that has not expired answers true.
pub is_seen-recorded :
    (purge : Bool) (now k d : ℕ) (p : PacketDeduplicator)
    → lookup k p.seen ≡ some d
    → now ≤ d + p.expires_after
    → (is_seen purge now k p).1 ≡ true
unfolding is_seen visit
is_seen-recorded true now k d p e h =
    rw (purge-keeps now k d p e h, visit) (unfold delete_until in ground arith)
is_seen-recorded false now k d p e h = rw (e, visit) (ground arith)

-- A packet that no record holds is answered false and recorded at the time of the call.
pub is_seen-new :
    (purge : Bool) (now k : ℕ) (p : PacketDeduplicator)
    → lookup k p.seen ≡ none
    → ((is_seen purge now k p).1 ≡ false)
      × (lookup k (is_seen purge now k p).0.seen ≡ some now)
      × ((is_seen purge now k p).0.expires_after ≡ p.expires_after)
unfolding is_seen visit delete_until
is_seen-new true now k p e = ground (
  arith,
  lookup-delete_if (λ t. ltb (t + p.expires_after) now) k p.seen,
  lookup-insert k k now (delete_until now p).seen,
  ==_iff k k,
)
is_seen-new false now k p e = ground (arith, lookup-insert k k now p.seen, ==_iff k k)

-- A packet that no record holds is reported new at time `t`. After any further calls, about any
-- packets and with any purges, that come at most `expires_after` later, it is reported seen.
pub seen_once :
    (purge purge' : Bool) (cs : List Call) (t now s i : ℕ) (p : PacketDeduplicator)
    → entry p (packet_key s i) ≡ none
    → All (λ c. c.now ≤ t + p.expires_after) cs
    → now ≤ t + p.expires_after
    → ((seen_at purge t s i p).1 ≡ false)
      × ((seen_at purge' now s i (run cs (seen_at purge t s i p).0)).1 ≡ true)
unfolding seen_at
seen_once purge purge' cs t now s i p e hs h =
    let k = packet_key s i in
    let (new, kept, same) = is_seen-new purge t k p e in
    let p' = (is_seen purge t k p).0 in
    let (kept', same') = run-keeps cs k t p' kept (rw same hs) in
    (new, is_seen-recorded purge' now k t (run cs p') kept' (rw (same' ∙ same) h))

-- When a packet comes after its record has expired, it is reported new. Whether it is recorded
-- again turns on the random purge: without one the record is only deleted, and the same packet is
-- reported new once more at once; with one it is recorded, and is then reported seen.
pub seen_after_expiry :
    (now s i d : ℕ) (p : PacketDeduplicator)
    → entry p (packet_key s i) ≡ some d
    → d + p.expires_after < now
    → ((seen_at false now s i p).1 ≡ false)
      × ((seen_at false now s i (seen_at false now s i p).0).1 ≡ false)
      × ((seen_at true now s i p).1 ≡ false)
      × ((seen_at false now s i (seen_at true now s i p).0).1 ≡ true)
unfolding seen_at is_seen visit delete_until
seen_after_expiry now s i d p e h =
    let k = packet_key s i in
    let purged = delete_if (λ t. ltb (t + p.expires_after) now) p.seen in
    ground (
      arith,
      ==_iff k k,
      lookup-delete k k p.seen,
      lookup-delete_if (λ t. ltb (t + p.expires_after) now) k p.seen,
      lookup-insert k k now purged,
    )
