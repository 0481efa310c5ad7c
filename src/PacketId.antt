-- ===== src/PacketId.antt =====
-- device/node/packetid.go: packetIDGenerator. The random words are arguments.
pub mod Sequence
mod Examples
use meshtastic_go.Common.{
  ℕ, zero, suc, ◌+◌, ◌-◌, ◌*◌, ◌/◌, ◌%◌, ◌^◌, ◌≤◌, ◌<◌, bit_and, bit_or, bit_xor, ◌≡◌, refl, sym,
  ap, ◌∙◌, ◌≢◌, ◌↔◌, ◌⊎◌, inl, inr, Bool, true, false, not, ◌&&◌, ◌||◌, Option, none, some, List,
  [], ◌∷◌, ◌++◌, map, arith, ltb, leb, ◌==◌, if◌then◌else◌, bool_eq, ==_iff, ==_refl, Bool-cases,
  Option-cases, is_some, length, get_elem?, get_or, take, drop, replicate, select, find_first, All,
  length-append, Bytes, bytes_eq, bytes_eq_iff, bytes_eq_refl, text,
}

pub record PacketIdGenerator : Type 0 where
  pub counter : ℕ

-- `seed` is the draw made when the counter is 0 and `high` the draw for the upper 22 bits.
unfoldable pub next : ℕ → ℕ → PacketIdGenerator → PacketIdGenerator × ℕ
next seed high g =
    let start = if g.counter == 0 then seed else g.counter in
    let counter = (start + 1) % 2 ^ 32 in
    let id = bit_or (bit_and counter 0x3FF) (high * 2 ^ 10 % 2 ^ 32) in
    (record { counter = id }, id)
