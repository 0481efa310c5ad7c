-- ===== src/Stream.antt =====
-- transport/stream/conn.go: the frames of the client API. The bytes that a connection still has to
-- give are a list, whose end is the error of io.ReadFull.
pub mod RoundTrip
mod Examples
use meshtastic_go.Common.{
  ℕ, zero, suc, ◌+◌, ◌-◌, ◌*◌, ◌/◌, ◌%◌, ◌^◌, ◌≤◌, ◌<◌, bit_and, bit_or, bit_xor, ◌≡◌, refl, sym,
  ap, ◌∙◌, ◌≢◌, ◌↔◌, ◌⊎◌, inl, inr, Bool, true, false, not, ◌&&◌, ◌||◌, Option, none, some, List,
  [], ◌∷◌, ◌++◌, map, arith, ltb, leb, ◌==◌, if◌then◌else◌, bool_eq, ==_iff, ==_refl, Bool-cases,
  Option-cases, is_some, length, get_elem?, get_or, take, drop, replicate, select, find_first, All,
  length-append, Bytes, bytes_eq, bytes_eq_iff, bytes_eq_refl, text,
}

abbrev pub start1 : ℕ
start1 = 0x94

abbrev pub start2 : ℕ
start2 = 0xc3

abbrev pub packet_mtu : ℕ
packet_mtu = 512

-- `binary.Write` of a uint16 is big-endian.
unfoldable pub stream_header : ℕ → Bytes
stream_header data_len = start1 ∷ start2 ∷ data_len / 2 ^ 8 % 2 ^ 8 ∷ data_len % 2 ^ 8 ∷ []

-- The bytes that WriteBytes writes; `none` is its error.
unfoldable pub write_bytes : Bytes → Option Bytes
unfolding stream_header
write_bytes bs =
    if ltb packet_mtu (length bs) then none else some (stream_header (length bs % 2 ^ 16) ++ bs)

-- The read that ReadBytes is at: the first byte, the second, or one of the two of the length.
pub data Phase : Type 0 where
  first second high : Phase
  low : ℕ → Phase

-- `io.ReadFull(c.conn, data)`: the message and what follows it.
abbrev pub read_full : ℕ → Bytes → Option (Bytes × Bytes)
read_full n input = if ltb (length input) n then none else some (take n input, drop n input)

unfoldable pub read_from : Phase → Bytes → Option (Bytes × Bytes)
read_from phase [] = none
read_from first (b ∷ input) = read_from (if b == start1 then second else first) input
read_from second (b ∷ input) = read_from (if b == start2 then high else first) input
read_from high (b ∷ input) = read_from (low b) input
read_from (low h) (b ∷ input) =
    let corrupt = read_from first input in
    let n = h * 2 ^ 8 + b in if ltb packet_mtu n then corrupt else read_full n input

unfoldable pub read_bytes : Bytes → Option (Bytes × Bytes)
unfolding read_from
read_bytes input = read_from first input
