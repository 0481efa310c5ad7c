-- ===== src/Stream/RoundTrip.antt =====
-- What is read of what was written.
use meshtastic_go.Common.{
  ◌+◌, ◌*◌, ◌/◌, ◌%◌, ◌^◌, ◌≤◌, ◌≡◌, refl, ap, ◌∙◌, ◌≢◌, Bool, false, Option, none, some, [], ◌∷◌,
  ◌++◌, arith, ltb, ◌==◌, if◌then◌else◌, length, take, drop, All, length-append, Bytes,
}
use meshtastic_go.Stream.{
  start1, packet_mtu, stream_header, write_bytes, first, second, read_full, read_from, read_bytes,
}

-- No byte starts a frame.
abbrev pub IsNoise : Bytes → Type 0
IsNoise bs = All (λ b. (b == start1) ≡ false) bs

take-front : (l m : Bytes) → take (length l) (l ++ m) ≡ l
take-front [] m = refl
take-front (x ∷ l) m = ap (λ t. x ∷ t) (take-front l m)

drop-front : (l m : Bytes) → drop (length l) (l ++ m) ≡ m
drop-front [] m = refl
drop-front (x ∷ l) m = drop-front l m

read_full-append : (l m : Bytes) → read_full (length l) (l ++ m) ≡ some (l, m)
read_full-append l m =
    let enough : ltb (length (l ++ m)) (length l) ≡ false = ground (arith, length-append l m) in
    rw (enough, take-front l m, drop-front l m) refl

if_false : {t : Bool} → t ≡ false → (if t then second else first) ≡ first
if_false e = rw e refl

read_from-noise :
    (noise input : Bytes) → IsNoise noise → read_from first (noise ++ input) ≡ read_from first input
unfolding read_from
read_from-noise [] input h = refl
read_from-noise (b ∷ noise) input (h, hs) =
    ap (λ p. read_from p (noise ++ input)) (if_false h) ∙ read_from-noise noise input hs

-- The length field of a frame is read back.
read_from-header :
    (bs input : Bytes)
    → length bs ≤ packet_mtu
    → read_from first (stream_header (length bs % 2 ^ 16) ++ (bs ++ input)) ≡ some (bs, input)
unfolding read_from stream_header
read_from-header bs input h =
    let n : length bs % 2 ^ 16 / 2 ^ 8 % 2 ^ 8 * 2 ^ 8 + length bs % 2 ^ 16 % 2 ^ 8 ≡ length bs =
      omega arith in
    let fits : ltb packet_mtu (length bs) ≡ false = ground arith in
    rw (n, fits) (read_full-append bs input)

-- The message read next, when it was written after noise.
abbrev pub after_noise : Bytes → Option Bytes → Bytes → Option (Bytes × Bytes)
after_noise noise none rest = none
after_noise noise (some frame) rest = read_bytes (noise ++ (frame ++ rest))

-- A message of at most 512 bytes that WriteBytes writes is what ReadBytes gives, with all that
-- follows it left unread, after any bytes none of which starts a frame.
pub read_bytes-write_bytes :
    (noise bs rest : Bytes)
    → IsNoise noise
    → length bs ≤ packet_mtu
    → after_noise noise (write_bytes bs) rest ≡ some (bs, rest)
unfolding read_bytes write_bytes
read_bytes-write_bytes noise bs rest h le =
    let fits : ltb packet_mtu (length bs) ≡ false = ground arith in
    rw fits (
      read_from-noise noise ((stream_header (length bs % 2 ^ 16) ++ bs) ++ rest) h
      ∙ read_from-header bs rest le)

-- A byte 0x94 just before a frame makes ReadBytes miss the frame: with no further such byte in the
-- length or in the message, nothing is read.
pub stray_start-loses :
    (bs : Bytes)
    → IsNoise bs
    → length bs ≤ packet_mtu
    → length bs % 2 ^ 8 ≢ start1
    → after_noise (start1 ∷ []) (write_bytes bs) [] ≡ none
unfolding read_bytes write_bytes read_from
stray_start-loses bs h le ne =
    let fits : ltb packet_mtu (length bs) ≡ false = ground arith in
    rw fits (
      read_from-noise (length bs % 2 ^ 16 / 2 ^ 8 % 2 ^ 8 ∷ length bs % 2 ^ 16 % 2 ^ 8 ∷ bs) []
        (ground arith, (ground arith, h)))
