-- ===== src/Dedupe/Examples.antt =====
-- The theorems about the deduplicator at concrete inputs.
use meshtastic_go.Common.{◌≡◌, refl, true, false, [], ◌∷◌, arith}
use meshtastic_go.Common.Dict.{lookup}
use meshtastic_go.Dedupe.{PacketDeduplicator, new_deduplicator, seen_at, packet_key}
use meshtastic_go.Dedupe.Window.{Call, run, seen_once, seen_after_expiry}

abbrev empty : PacketDeduplicator
unfolding new_deduplicator
empty = new_deduplicator 100

abbrev traffic : Call
traffic = record { purge = true; now = 40; key = 7 }

seen_once_example :
    ((seen_at false 10 1 2 empty).1 ≡ false)
    × ((seen_at true 110 1 2 (run (traffic ∷ []) (seen_at false 10 1 2 empty).0)).1 ≡ true)
unfolding lookup new_deduplicator
seen_once_example =
    seen_once false true (traffic ∷ []) 10 110 1 2 empty refl (omega arith) (omega arith)

abbrev held : PacketDeduplicator
held = record { expires_after = 100; seen = (packet_key 1 2, 10) ∷ [] }

seen_after_expiry_example :
    ((seen_at false 111 1 2 held).1 ≡ false)
    × ((seen_at false 111 1 2 (seen_at false 111 1 2 held).0).1 ≡ false)
    × ((seen_at true 111 1 2 held).1 ≡ false)
    × ((seen_at false 111 1 2 (seen_at true 111 1 2 held).0).1 ≡ true)
unfolding lookup packet_key
seen_after_expiry_example = seen_after_expiry 111 1 2 10 held refl (omega arith)
