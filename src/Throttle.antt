-- ===== src/Throttle.antt =====
-- device/node/throttle.go: requestThrottle. Times are nanoseconds; a call reads the clock twice.
pub mod Spacing
mod Examples
use meshtastic_go.Common.{
  ℕ, zero, suc, ◌+◌, ◌-◌, ◌*◌, ◌/◌, ◌%◌, ◌^◌, ◌≤◌, ◌<◌, bit_and, bit_or, bit_xor, ◌≡◌, refl, sym,
  ap, ◌∙◌, ◌≢◌, ◌↔◌, ◌⊎◌, inl, inr, Bool, true, false, not, ◌&&◌, ◌||◌, Option, none, some, List,
  [], ◌∷◌, ◌++◌, map, arith, ltb, leb, ◌==◌, if◌then◌else◌, bool_eq, ==_iff, ==_refl, Bool-cases,
  Option-cases, is_some, length, get_elem?, get_or, take, drop, replicate, select, find_first, All,
  length-append, Bytes, bytes_eq, bytes_eq_iff, bytes_eq_refl, text,
}
use meshtastic_go.Common.Dict.{Dict, Eq, lookup, insert}
use meshtastic_go.Proto

pub record ThrottleKey : Type 0 where
  pub node_id : ℕ
  pub portnum : ℕ

abbrev pub key_eqb : ThrottleKey → ThrottleKey → Bool
key_eqb a b = a.node_id == b.node_id && a.portnum == b.portnum

pub key_eqb_iff : (a b : ThrottleKey) → (key_eqb a b ≡ true) ↔ (a ≡ b)
key_eqb_iff a b = ground arith

instance abbrev pub key_eq : Eq ThrottleKey
key_eq = record { eqb = key_eqb; eqb_iff = key_eqb_iff }

pub record RequestThrottle : Type 0 where
  pub last : Dict ThrottleKey ℕ

abbrev pub new_request_throttle : RequestThrottle
new_request_throttle = record { last = [] }

abbrev second : ℕ
second = 1_000_000_000

-- the cooldowns, in nanoseconds
unfoldable pub cooldown_for_portnum : ℕ → ℕ
cooldown_for_portnum portnum =
    if portnum == Proto.nodeinfo_app
    then 5 * 60 * second
    else if portnum == Proto.telemetry_app
    then 3 * 60 * second
    else if portnum == Proto.neighborinfo_app
    then 3 * 60 * second
    else if portnum == Proto.traceroute_app
    then 30 * second
    else 0

abbrev pub expired : ℕ → ℕ → Option ℕ → Bool
expired cooldown since none = true
expired cooldown since (some last_time) = not (ltb (since - last_time) cooldown)

-- `since` is the clock that `time.Since` reads, and `now` the one that `time.Now` reads after it.
unfoldable pub can_respond : ℕ → ℕ → ℕ → ℕ → RequestThrottle → RequestThrottle × Bool
can_respond since now node_id portnum t =
    let cooldown = cooldown_for_portnum portnum in
    let key : ThrottleKey = record { node_id = node_id; portnum = portnum } in
    if cooldown == 0
    then (t, true)
    else if expired cooldown since (lookup key t.last)
    then (record { last = insert key now t.last }, true)
    else (t, false)
