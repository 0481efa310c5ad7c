-- ===== src/Device/Bridge/Route/Recorded.antt =====
-- What the bridge makes of a recorded route.
use meshtastic_go.Common.{
  ℕ, zero, suc, ◌+◌, ◌-◌, ◌≤◌, ◌≡◌, refl, ◌∙◌, inl, inr, Bool, true, false, ◌||◌, List, [], ◌∷◌,
  ◌++◌, arith, ltb, ◌==◌, if◌then◌else◌, Bool-cases, length, length-append,
}
use meshtastic_go.Device.Bridge.Route.{
  EventContext, unknown_snr, contains, Leg, leg, append_times, pad_leg, insert_in, add_node,
  add_gateway, add_bridge, answered_route, returned_route,
}
use meshtastic_go.NodeId.{broadcast_node_id}
use meshtastic_go.Proto.{RouteDiscovery}

-- The second list begins with the first one.
abbrev pub Starts : List ℕ → List ℕ → Type 0
Starts [] l = Unit
Starts (x ∷ xs) [] = true ≡ false
Starts (x ∷ xs) (y ∷ ys) = (x ≡ y) × Starts xs ys

Starts-refl : (l : List ℕ) → Starts l l
Starts-refl [] = tt
Starts-refl (x ∷ l) = (refl, Starts-refl l)

Starts-append : (l r : List ℕ) → Starts l (l ++ r)
Starts-append [] r = tt
Starts-append (x ∷ l) r = (refl, Starts-append l r)

Starts-trans : (a b d : List ℕ) → Starts a b → Starts b d → Starts a d
Starts-trans [] b d h k = tt
Starts-trans (x ∷ a) [] d h k = cc
Starts-trans (x ∷ a) (y ∷ b) [] h k = k
Starts-trans (x ∷ a) (y ∷ b) (z ∷ d) (e, h) (f, k) = (e ∙ f, Starts-trans a b d h k)

length-Starts : (a b : List ℕ) → Starts a b → length a ≤ length b
length-Starts [] b h = omega arith
length-Starts (x ∷ a) [] h = cc
length-Starts (x ∷ a) (y ∷ b) (e, h) = omega (arith, length-Starts a b h)

contains-Starts : (id : ℕ) (a b : List ℕ) → Starts a b → contains id a ≡ true → contains id b ≡ true
contains-Starts id [] b h k = cc
contains-Starts id (x ∷ a) [] h k = cc
contains-Starts id (x ∷ a) (y ∷ b) (e, h) k = elim (Bool-cases (x == id)) [
  | inl t ↦ rw (← e, t) refl
  | inr t ↦ rw (← e, t) (contains-Starts id a b h (ground arith))
]

contains-append : (id : ℕ) (l : List ℕ) → contains id (l ++ (id ∷ [])) ≡ true
contains-append id [] = ground arith
contains-append id (x ∷ l) = ground (arith, contains-append id l)

append_times-Starts : (n x : ℕ) (l : List ℕ) → Starts l (append_times n x l)
unfolding append_times
append_times-Starts zero x l = Starts-refl l
append_times-Starts (suc n) x l =
    Starts-trans l (l ++ (x ∷ [])) (append_times n x (l ++ (x ∷ []))) (Starts-append l (x ∷ []))
      (append_times-Starts n x (l ++ (x ∷ [])))

length-append_times : (n x : ℕ) (l : List ℕ) → length (append_times n x l) ≡ length l + n
unfolding append_times
length-append_times zero x l = omega arith
length-append_times (suc n) x l =
    omega (arith, length-append_times n x (l ++ (x ∷ [])), length-append l (x ∷ []))

-- Every node of a leg has its SNR.
abbrev pub IsAligned : Leg → Type 0
IsAligned l = length l.snr ≡ length l.route

-- A leg that keeps what another one has recorded.
abbrev pub Keeps : Leg → Leg → Type 0
Keeps l l' = Starts l.route l'.route × Starts l.snr l'.snr

Keeps-refl : (l : Leg) → Keeps l l
Keeps-refl l = (Starts-refl l.route, Starts-refl l.snr)

Keeps-trans : (a b d : Leg) → Keeps a b → Keeps b d → Keeps a d
Keeps-trans a b d (h, k) (h', k') =
    (Starts-trans a.route b.route d.route h h', Starts-trans a.snr b.snr d.snr k k')

-- What a step on a leg promises.
abbrev Grows : Leg → Leg → Type 0
Grows l l' = Keeps l l' × IsAligned l'

pad_leg-Grows : (n : ℕ) (l : Leg) → IsAligned l → Grows l (pad_leg n l)
unfolding pad_leg
pad_leg-Grows n l h =
    let route = append_times (n - length l.route) broadcast_node_id l.route in
    (
      (
        append_times-Starts (n - length l.route) broadcast_node_id l.route,
        append_times-Starts (length route - length l.snr) unknown_snr l.snr,
      ),
      omega (
        arith,
        h,
        length-append_times (length route - length l.snr) unknown_snr l.snr,
        length-append_times (n - length l.route) broadcast_node_id l.route,
      ),
    )

insert_in-Grows : (evt : EventContext) (l : Leg) → IsAligned l → Grows l (insert_in evt l)
unfolding insert_in
insert_in-Grows evt l h =
    elim (Bool-cases (evt.hop_start == 0 || ltb evt.hop_start evt.hop_limit)) [
      | inl e ↦ rw e (Keeps-refl l, h)
      | inr e ↦ rw e (pad_leg-Grows (evt.hop_start - evt.hop_limit) l h)
    ]

add_node-Grows : (id snr : ℕ) (l : Leg) → IsAligned l → Grows l (add_node id snr l)
unfolding add_node
add_node-Grows id snr l h = elim (Bool-cases (contains id l.route)) [
  | inl e ↦ rw e (Keeps-refl l, h)
  | inr e ↦ rw e (
    (Starts-append l.route (id ∷ []), Starts-append l.snr (snr ∷ [])),
    omega (arith, h, length-append l.route (id ∷ []), length-append l.snr (snr ∷ [])),
  )
]

add_node-contains : (id snr : ℕ) (l : Leg) → contains id (add_node id snr l).route ≡ true
unfolding add_node
add_node-contains id snr l = elim (Bool-cases (contains id l.route)) [
  | inl e ↦ rw e e
  | inr e ↦ rw e (contains-append id l.route)
]

-- The hops that a packet has taken, as far as its header tells.
abbrev pub hops_taken : EventContext → ℕ
hops_taken evt =
    if evt.hop_start == 0 || ltb evt.hop_start evt.hop_limit
    then 0
    else evt.hop_start - evt.hop_limit

insert_in-long : (evt : EventContext) (l : Leg) → hops_taken evt ≤ length (insert_in evt l).route
unfolding insert_in pad_leg
insert_in-long evt l = elim (Bool-cases (evt.hop_start == 0 || ltb evt.hop_start evt.hop_limit)) [
  | inl e ↦ rw e (omega arith)
  | inr e ↦ rw e (
      omega (
        arith,
        length-append_times (evt.hop_start - evt.hop_limit - length l.route) broadcast_node_id
            l.route,
      ))
]

add_bridge-Grows :
    (bridge : ℕ) (evt : EventContext) (l : Leg) → IsAligned l → Grows l (add_bridge bridge evt l)
unfolding add_bridge
add_bridge-Grows bridge evt l h = elim (Bool-cases (evt.to == bridge)) [
  | inl e ↦ rw e (Keeps-refl l, h)
  | inr e ↦ rw e (add_node-Grows bridge 0 l h)
]

add_bridge-contains :
    (bridge : ℕ) (evt : EventContext) (l : Leg)
    → evt.to == bridge || contains bridge (add_bridge bridge evt l).route ≡ true
unfolding add_bridge
add_bridge-contains bridge evt l = elim (Bool-cases (evt.to == bridge)) [
  | inl e ↦ rw e refl
  | inr e ↦ rw e (add_node-contains bridge 0 l)
]

module _ (quarters : ℕ → ℕ) where
  add_gateway-Grows :
      (evt : EventContext) (l : Leg) → IsAligned l → Grows l (add_gateway quarters evt l)
  unfolding add_gateway
  add_gateway-Grows evt l h = elim (Bool-cases (evt.via == 0 || evt.via == evt.from)) [
    | inl e ↦ rw e (Keeps-refl l, h)
    | inr e ↦ rw e (add_node-Grows evt.via (quarters evt.rx_snr) l h)
  ]

  add_gateway-contains :
      (evt : EventContext) (l : Leg)
      → (evt.via == 0 || evt.via == evt.from) || contains evt.via (add_gateway quarters evt l).route
        ≡ true
  unfolding add_gateway
  add_gateway-contains evt l = elim (Bool-cases (evt.via == 0 || evt.via == evt.from)) [
    | inl e ↦ rw e refl
    | inr e ↦ rw e (add_node-contains evt.via (quarters evt.rx_snr) l)
  ]

  -- The three steps on one direction.
  abbrev completed : ℕ → EventContext → Leg → Leg
  completed bridge evt l = add_bridge bridge evt (add_gateway quarters evt (insert_in evt l))

  -- A completed leg keeps what was recorded, is aligned, accounts for the hops taken, and has the
  -- gateway and the bridge in it where they stand between the two nodes.
  abbrev pub IsCompleted : ℕ → EventContext → Leg → Leg → Type 0
  IsCompleted bridge evt l l' =
      Keeps l l'
      × IsAligned l'
      × (hops_taken evt ≤ length l'.route)
      × ((evt.via == 0 || evt.via == evt.from) || contains evt.via l'.route ≡ true)
      × (evt.to == bridge || contains bridge l'.route ≡ true)

  or_Starts :
      (t : Bool) (id : ℕ) (a b : List ℕ)
      → Starts a b
      → t || contains id a ≡ true
      → t || contains id b ≡ true
  or_Starts true id a b h k = refl
  or_Starts false id a b h k = contains-Starts id a b h k

  completed-IsCompleted :
      (bridge : ℕ) (evt : EventContext) (l : Leg)
      → IsAligned l
      → IsCompleted bridge evt l (completed bridge evt l)
  completed-IsCompleted bridge evt l h =
      let filled = insert_in evt l in
      let via = add_gateway quarters evt filled in
      let (keep, even) = insert_in-Grows evt l h in
      let (keep', even') = add_gateway-Grows evt filled even in
      let (keep'', even'') = add_bridge-Grows bridge evt via even' in
      let last = add_bridge bridge evt via in
      (
        Keeps-trans l filled last keep (Keeps-trans filled via last keep' keep''),
        even'',
        omega (
          arith,
          insert_in-long evt l,
          length-Starts filled.route via.route keep'.0,
          length-Starts via.route last.route keep''.0,
        ),
        or_Starts (evt.via == 0 || evt.via == evt.from) evt.via via.route last.route keep''.0
            (add_gateway-contains evt filled),
        add_bridge-contains bridge evt via,
      )

  -- The route of a traceroute answer, if the recorded one has an SNR for every node: each direction
  -- keeps what was recorded and gains an SNR with every node that it gains, and towards the destination
  -- one more SNR, 0, comes last, its own; that direction has at least as many nodes as hops were taken,
  -- when the header tells, and names a gateway that is not the sender; both name the bridge unless it
  -- is itself the destination.
  pub answered_route-Recorded :
      (bridge : ℕ) (evt : EventContext) (disco : RouteDiscovery)
      → length disco.snr_towards ≡ length disco.route
      → length disco.snr_back ≡ length disco.route_back
      → let answer = answered_route quarters bridge evt disco in
        Starts disco.route answer.route
        × Starts disco.route_back answer.route_back
        × Starts disco.snr_back answer.snr_back
        × ((measured : List ℕ) × Starts disco.snr_towards measured
            × (length measured ≡ length answer.route)
            × (answer.snr_towards ≡ measured ++ (0 ∷ [])))
        × (length answer.snr_back ≡ length answer.route_back)
        × (hops_taken evt ≤ length answer.route)
        × ((evt.via == 0 || evt.via == evt.from) || contains evt.via answer.route ≡ true)
        × (evt.to == bridge || contains bridge answer.route ≡ true)
        × (evt.to == bridge || contains bridge answer.route_back ≡ true)
  unfolding answered_route
  answered_route-Recorded bridge evt disco h h' =
      let forward = completed bridge evt (leg true disco) in
      let ((keep, keep'), even, long, via, own) =
        completed-IsCompleted bridge evt (leg true disco) h in
      let ((back, back'), even') = add_bridge-Grows bridge evt (leg false disco) h' in
      (
        keep,
        back,
        back',
        (forward.snr, keep', even, refl),
        even',
        long,
        via,
        own,
        add_bridge-contains bridge evt (leg false disco),
      )

  -- What an answer of another node passes on, if every node on its way back has an SNR: the way forward
  -- is left alone; the way back keeps what was recorded and gains an SNR with every node that it gains,
  -- and one more SNR, 0, comes last, that of the node it is for; it has at least as many nodes as hops
  -- were taken, when the header tells, and names a gateway that is not the sender, and the bridge
  -- unless the answer is for the bridge.
  pub returned_route-Recorded :
      (bridge : ℕ) (evt : EventContext) (disco : RouteDiscovery)
      → length disco.snr_back ≡ length disco.route_back
      → let passed = returned_route quarters bridge evt disco in
        (passed.route ≡ disco.route)
        × (passed.snr_towards ≡ disco.snr_towards)
        × Starts disco.route_back passed.route_back
        × ((measured : List ℕ) × Starts disco.snr_back measured
            × (length measured ≡ length passed.route_back)
            × (passed.snr_back ≡ measured ++ (0 ∷ [])))
        × (hops_taken evt ≤ length passed.route_back)
        × ((evt.via == 0 || evt.via == evt.from) || contains evt.via passed.route_back ≡ true)
        × (evt.to == bridge || contains bridge passed.route_back ≡ true)
  unfolding returned_route
  returned_route-Recorded bridge evt disco h =
      let back = completed bridge evt (leg false disco) in
      let ((keep, keep'), even, long, via, own) =
        completed-IsCompleted bridge evt (leg false disco) h in
      (refl, refl, keep, (back.snr, keep', even, refl), long, via, own)
