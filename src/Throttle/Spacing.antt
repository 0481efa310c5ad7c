-- ===== src/Throttle/Spacing.antt =====
-- Two replies for one (node, port) pair are a cooldown apart.
use meshtastic_go.Common.{
  ℕ, ◌+◌, ◌≤◌, ◌<◌, ◌≡◌, refl, ◌↔◌, ◌⊎◌, true, false, Option, none, some, List, [], ◌∷◌, arith, All,
}
use meshtastic_go.Common.Dict.{lookup, lookup-insert}
use meshtastic_go.Throttle.{
  ThrottleKey, key_eqb_iff, key_eq, RequestThrottle, cooldown_for_portnum, expired, can_respond,
}

-- A call: the two clock readings, the node and the port.
pub record Call : Type 0 where
  pub since : ℕ
  pub now : ℕ
  pub node_id : ℕ
  pub portnum : ℕ

unfoldable pub run : List Call → RequestThrottle → RequestThrottle
run [] t = t
run (c ∷ cs) t = run cs (can_respond c.since c.now c.node_id c.portnum t).0

-- The last reply to `k` was at `d` or later.
abbrev RepliedSince : ℕ → Option ℕ → Type 0
RepliedSince d none = ⊥
RepliedSince d (some x) = d ≤ x

call-RepliedSince :
    (c : Call) (k : ThrottleKey) (d : ℕ) (t : RequestThrottle)
    → RepliedSince d (lookup k t.last)
    → d ≤ c.now
    → RepliedSince d (lookup k (can_respond c.since c.now c.node_id c.portnum t).0.last)
unfolding can_respond
call-RepliedSince c k d t r h =
    let j : ThrottleKey = record { node_id = c.node_id; portnum = c.portnum } in
    ground (arith, lookup-insert j k c.now t.last)

run-RepliedSince :
    (cs : List Call) (k : ThrottleKey) (d : ℕ) (t : RequestThrottle)
    → RepliedSince d (lookup k t.last)
    → All (λ c. d ≤ c.now) cs
    → RepliedSince d (lookup k (run cs t).last)
unfolding run
run-RepliedSince [] k d t r h = r
run-RepliedSince (c ∷ cs) k d t r (h, hs) =
    run-RepliedSince cs k d _ (call-RepliedSince c k d t r h) hs

reply-RepliedSince :
    (since now n p : ℕ) (t : RequestThrottle)
    → 0 < cooldown_for_portnum p
    → (can_respond since now n p t).1 ≡ true
    → RepliedSince now
        (lookup (record { node_id = n; portnum = p }) (can_respond since now n p t).0.last)
unfolding can_respond
reply-RepliedSince since now n p t c h =
    let j : ThrottleKey = record { node_id = n; portnum = p } in
    ground (arith, lookup-insert j j now t.last, (key_eqb_iff j j).1 refl)

spaced :
    (since now n p d : ℕ) (t : RequestThrottle)
    → 0 < cooldown_for_portnum p
    → RepliedSince d (lookup (record { node_id = n; portnum = p }) t.last)
    → (can_respond since now n p t).1 ≡ true
    → d + cooldown_for_portnum p ≤ since
unfolding can_respond
spaced since now n p d t c r h = ground arith

-- Two replies for one node and port are at least the port's cooldown apart, whatever calls come
-- between them, provided that the clock does not run backwards over those calls.
pub replies_spaced :
    (first last : Call) (between : List Call) (t : RequestThrottle)
    → first.node_id ≡ last.node_id
    → first.portnum ≡ last.portnum
    → 0 < cooldown_for_portnum last.portnum
    → (can_respond first.since first.now first.node_id first.portnum t).1 ≡ true
    → All (λ c. first.now ≤ c.now) between
    → (can_respond last.since last.now last.node_id last.portnum
        (run between (can_respond first.since first.now first.node_id first.portnum t).0)).1
      ≡ true
    → first.now + cooldown_for_portnum last.portnum ≤ last.since
replies_spaced first last between t en ep c a hs b =
    let n = last.node_id in
    let p = last.portnum in
    let a' : (can_respond first.since first.now n p t).1 ≡ true = rw (en, ep) at a in
    let b' : (can_respond last.since last.now n p
          (run between (can_respond first.since first.now n p t).0)).1
        ≡ true =
      rw (en, ep) at b in
    spaced last.since last.now n p first.now _ c
      (run-RepliedSince between _ first.now _ (reply-RepliedSince first.since first.now n p t c a')
        hs)
      b'

-- A request is answered exactly when its port has no cooldown, or no reply for the node and port
-- is recorded, or the cooldown has passed since the last one. One that is not answered changes
-- nothing, so refused requests do not extend the wait.
can_respond_iff :
    (since now n p : ℕ) (t : RequestThrottle)
    → (((can_respond since now n p t).1 ≡ true) ↔ (
        (cooldown_for_portnum p ≡ 0)
        ⊎ (expired
              (cooldown_for_portnum p)
              since
              (lookup (record { node_id = n; portnum = p }) t.last)
            ≡ true)))
      × ((can_respond since now n p t).1 ≡ false → (can_respond since now n p t).0 ≡ t)
unfolding can_respond
can_respond_iff since now n p t = ground arith
