-- ===== src/PacketId/Examples.antt =====
-- Packet ids at concrete inputs.
use meshtastic_go.Common.{ℕ, ◌≡◌, refl, List, [], ◌∷◌, arith}
use meshtastic_go.PacketId.{next}
use meshtastic_go.PacketId.Sequence.{ids, Distinct, CountsFrom, ids-Distinct}

abbrev draws : List (ℕ × ℕ)
draws = (7, 1) ∷ (7, 2) ∷ (7, 3) ∷ []

ids_run : ids draws (record { counter = 5 }) ≡ 1030 ∷ 2055 ∷ 3080 ∷ []
unfolding ids next
ids_run = refl

ids-Distinct_example :
    Distinct (ids draws (record { counter = 5 }))
    × CountsFrom 5 (ids draws (record { counter = 5 }))
unfolding ids next
ids-Distinct_example = ids-Distinct draws 5 (omega arith) (omega arith)
