-- ===== src/Traceroute/Examples.antt =====
-- Traceroutes at concrete inputs.
use meshtastic_go.Common.{◌+◌, ◌≡◌, refl, some, List, [], ◌∷◌, arith, length, select}
use Prim.Native.Nat.{max}
use meshtastic_go.Traceroute.{Hop, known_hop, last_of, parse_route, insert_unknown}
use meshtastic_go.Traceroute.Gaps.{is_known, insert_unknown-keeps}

abbrev ends : List Hop
ends = known_hop 5 0 ∷ known_hop 9 0 ∷ []

insert_unknown-keeps_example :
    (length (insert_unknown ends 3) ≡ max (length ends) (3 + 1))
    × (select is_known (insert_unknown ends 3) ≡ select is_known ends)
    × (last_of (insert_unknown ends 3) ≡ last_of ends)
insert_unknown-keeps_example = insert_unknown-keeps ends 3 (omega arith)

-- The SNR of the way back goes with the nodes of the way towards.
mixed :
    parse_route
      (some (record { route = 7 ∷ []; snr_towards = 20 ∷ []; route_back = []; snr_back = 40 ∷ [] }))
      5
      9
    ≡ known_hop 5 0 ∷ known_hop 7 40 ∷ known_hop 9 0 ∷ []
unfolding parse_route
mixed = refl
