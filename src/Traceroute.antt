-- ===== src/Traceroute.antt =====
-- core/traceroute/traceroute.go: the hops of a traceroute. The SNR of a hop is kept in quarters of a dB,
-- as a 32-bit pattern, before the division by 4.0.
pub mod Gaps
mod Examples
use meshtastic_go.Common.{
  ℕ, zero, suc, ◌+◌, ◌-◌, ◌*◌, ◌/◌, ◌%◌, ◌^◌, ◌≤◌, ◌<◌, bit_and, bit_or, bit_xor, ◌≡◌, refl, sym,
  ap, ◌∙◌, ◌≢◌, ◌↔◌, ◌⊎◌, inl, inr, Bool, true, false, not, ◌&&◌, ◌||◌, Option, none, some, List,
  [], ◌∷◌, ◌++◌, map, arith, ltb, leb, ◌==◌, if◌then◌else◌, bool_eq, ==_iff, ==_refl, Bool-cases,
  Option-cases, is_some, length, get_elem?, get_or, take, drop, replicate, select, find_first, All,
  length-append, Bytes, bytes_eq, bytes_eq_iff, bytes_eq_refl, text,
}
use meshtastic_go.Proto.{RouteDiscovery, MeshPacket}

pub record Hop : Type 0 where
  pub node_id : ℕ
  pub snr : ℕ
  pub unknown : Bool

abbrev pub known_hop : ℕ → ℕ → Hop
known_hop id snr = record { node_id = id; snr = snr; unknown = false }

abbrev pub unknown_hop : Hop
unknown_hop = record { node_id = 0; snr = 0; unknown = true }

-- The intermediate hops, each with the SNR at its own index, or 0 past the end of the list.
unfoldable pub route_hops : List ℕ → List ℕ → List Hop
route_hops [] snrs = []
route_hops (id ∷ route) [] = known_hop id 0 ∷ route_hops route []
route_hops (id ∷ route) (snr ∷ snrs) = known_hop id snr ∷ route_hops route snrs

-- A nil message gives no hops, like `none`.
unfoldable pub parse_route : Option RouteDiscovery → ℕ → ℕ → List Hop
unfolding route_hops
parse_route none from to = []
parse_route (some rd) from to =
    known_hop from 0 ∷ (route_hops rd.route rd.snr_back ++ (known_hop to 0 ∷ []))

unfoldable pub hop_count : MeshPacket → ℕ
hop_count pkt = if pkt.hop_start == 0 then 0 else pkt.hop_start - pkt.hop_limit

-- The hops before the last one, and the last one.
abbrev pub but_last : List Hop → List Hop
but_last [] = []
but_last (h ∷ []) = []
but_last (h ∷ next ∷ l) = h ∷ but_last (next ∷ l)

abbrev pub last_of : List Hop → List Hop
last_of [] = []
last_of (h ∷ []) = h ∷ []
last_of (h ∷ next ∷ l) = last_of (next ∷ l)

-- `missing` is `expectedHops - intermediateCount - 1`, and 0 where that is negative.
unfoldable pub insert_unknown : List Hop → ℕ → List Hop
insert_unknown hops expected_hops =
    let missing = expected_hops + 1 - length hops in
    if ltb (length hops) 2
    then hops
    else if missing == 0
    then hops
    else but_last hops ++ (replicate missing unknown_hop ++ last_of hops)
