-- ===== src/PositionSharing.antt =====
-- core/position.go: with what precision a node may send its position on a channel. A channel table is
-- a list of slots, where a nil channel is `none`; an index below 0 is out of range like one that is too
-- large.
pub mod Cap
pub mod Ends
mod Examples
use meshtastic_go.Common.{
  ℕ, zero, suc, ◌+◌, ◌-◌, ◌*◌, ◌/◌, ◌%◌, ◌^◌, ◌≤◌, ◌<◌, bit_and, bit_or, bit_xor, ◌≡◌, refl, sym,
  ap, ◌∙◌, ◌≢◌, ◌↔◌, ◌⊎◌, inl, inr, Bool, true, false, not, ◌&&◌, ◌||◌, Option, none, some, List,
  [], ◌∷◌, ◌++◌, map, arith, ltb, leb, ◌==◌, if◌then◌else◌, bool_eq, ==_iff, ==_refl, Bool-cases,
  Option-cases, is_some, length, get_elem?, get_or, take, drop, replicate, select, find_first, All,
  length-append, Bytes, bytes_eq, bytes_eq_iff, bytes_eq_refl, text,
}
use meshtastic_go.Crypto.Keys.{default_key}
use meshtastic_go.Lora.{truncate_coordinate}
use meshtastic_go.Proto.{
  ChannelSettings, ChannelRole, role_disabled, role_primary, role_secondary, ChannelSlot, Position,
  empty_position,
}

abbrev pub max_position_precision_public_key : ℕ
max_position_precision_public_key = 15

abbrev pub ChannelTable : Type 0
ChannelTable = List (Option ChannelSlot)

abbrev pub is_primary_role : ChannelRole → Bool
is_primary_role role_primary = true
is_primary_role role_secondary = false
is_primary_role role_disabled = false

abbrev pub is_primary : Option ChannelSlot → Bool
is_primary none = false
is_primary (some ch) = is_primary_role ch.role

-- The index of the first primary channel of a table, counted from `i`.
abbrev pub first_primary : ℕ → ChannelTable → Option ℕ
first_primary i [] = none
first_primary i (ch ∷ l) =
    let rest = first_primary (suc i) l in if is_primary ch then some i else rest

-- `len(psk)` above 1: the default family differs in the last byte only.
abbrev pub is_default_family : Bytes → Bool
is_default_family psk =
    length psk == length default_key
    && bytes_eq (take (length psk - 1) psk) (take (length default_key - 1) default_key)

-- ChannelUsesPublicKey runs on fuel, and `none` is a call that has run out of it. `rest` is the answer
-- for another index, here the primary one for a secondary channel without a key.
abbrev pub inherits : ℕ → Option ℕ → (ℕ → Option Bool) → Option Bool
inherits index none rest = some true
inherits index (some i) rest = let primary = rest i in if i == index then some true else primary

abbrev pub empty_key : ChannelRole → ℕ → ChannelTable → (ℕ → Option Bool) → Option Bool
empty_key role_primary index channels rest = some true
empty_key role_disabled index channels rest = some true
empty_key role_secondary index channels rest = inherits index (first_primary 0 channels) rest

abbrev pub settings_public :
    ChannelRole → Option ChannelSettings → ℕ → ChannelTable → (ℕ → Option Bool) → Option Bool
settings_public role none index channels rest = some false
settings_public role (some settings) index channels rest =
    let inherited = empty_key role index channels rest in
    if length settings.psk == 0
    then inherited
    else if length settings.psk == 1
    then some true
    else some (is_default_family settings.psk)

abbrev pub role_public :
    ChannelRole → Option ChannelSettings → ℕ → ChannelTable → (ℕ → Option Bool) → Option Bool
role_public role_disabled settings index channels rest = some false
role_public role_primary settings index channels rest =
    settings_public role_primary settings index channels rest
role_public role_secondary settings index channels rest =
    settings_public role_secondary settings index channels rest

abbrev pub slot_public :
    Option (Option ChannelSlot) → ℕ → ChannelTable → (ℕ → Option Bool) → Option Bool
slot_public none index channels rest = some false
slot_public (some none) index channels rest = some false
slot_public (some (some ch)) index channels rest =
    role_public ch.role ch.settings index channels rest

unfoldable pub uses_public_key : ℕ → ChannelTable → ℕ → Option Bool
uses_public_key zero channels index = none
uses_public_key (suc fuel) channels index =
    slot_public (get_elem? channels index) index channels (uses_public_key fuel channels)

abbrev pub answer_of : Option Bool → Bool
answer_of none = false
answer_of (some public) = public

-- A call for a secondary channel makes one for the primary, which makes none.
unfoldable pub channel_uses_public_key : ChannelTable → ℕ → Bool
unfolding uses_public_key
channel_uses_public_key channels index = answer_of (uses_public_key 2 channels index)

abbrev settings_precision : Option ChannelSettings → ℕ
settings_precision none = 0
settings_precision (some settings) = settings.position_precision

-- The precision that is configured for a channel that takes part.
abbrev pub configured_precision : Option (Option ChannelSlot) → ℕ
configured_precision none = 0
configured_precision (some none) = 0
configured_precision (some (some ch)) = elim ch.role [
  | role_disabled ↦ 0
  | role_primary ↦ settings_precision ch.settings
  | role_secondary ↦ settings_precision ch.settings
]

unfoldable pub position_precision_for_channel : ChannelTable → ℕ → ℕ
unfolding channel_uses_public_key
position_precision_for_channel channels index =
    let precision = configured_precision (get_elem? channels index) in
    if ltb max_position_precision_public_key precision && channel_uses_public_key channels index
    then max_position_precision_public_key
    else precision

-- The loop of FindPositionChannel over `n` indices from `i` on.
unfoldable pub find_from : ChannelTable → ℕ → ℕ → Option ℕ
unfolding position_precision_for_channel
find_from channels i zero = none
find_from channels i (suc n) =
    let rest = find_from channels (suc i) n in
    if not (position_precision_for_channel channels i == 0) then some i else rest

unfoldable pub find_position_channel : ChannelTable → Option ℕ
unfolding find_from
find_position_channel channels = find_from channels 0 (length channels)

abbrev pub truncated : ℕ → Option ℕ → Option ℕ
truncated precision none = none
truncated precision (some x) = some (truncate_coordinate x precision)

abbrev with_precision : ℕ → Position → Position
with_precision precision p =
    if precision == 32 then record p { precision_bits = precision } else record p {
      precision_bits = precision;
      latitude_i = truncated precision p.latitude_i;
      longitude_i = truncated precision p.longitude_i;
    }

-- A nil position is left alone; it is not an argument here.
unfoldable pub apply_position_precision : Position → ℕ → Position
unfolding truncate_coordinate
apply_position_precision p precision =
    if precision == 0
    then record empty_position { time = p.time }
    else with_precision (if ltb 32 precision then 32 else precision) p
