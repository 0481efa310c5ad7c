-- ===== src/PositionSharing/Examples.antt =====
-- Position sharing at concrete inputs.
use meshtastic_go.Common.{◌≡◌, refl, ◌⊎◌, none, some, [], ◌∷◌, get_elem?}
use Prim.Native.Nat.{min}
use meshtastic_go.PositionSharing.{
  ChannelTable, max_position_precision_public_key, uses_public_key, channel_uses_public_key,
  configured_precision, position_precision_for_channel, find_position_channel,
}
use meshtastic_go.PositionSharing.Cap.{IsDerivable, precision-capped}
use meshtastic_go.PositionSharing.Ends.{uses_public_key-settled}
use meshtastic_go.Proto.{role_primary, role_secondary, ChannelSlot}

abbrev slot_of : ChannelSlot
slot_of = record {
  index = 0;
  settings = some (record { name = []; psk = 1 ∷ []; position_precision = 32 });
  role = role_primary;
}

-- A secondary channel without a key, after a primary one with the default key.
abbrev table : ChannelTable
table =
    some slot_of
    ∷ none
    ∷ some (record slot_of {
      settings = some (record { name = []; psk = []; position_precision = 20 });
      role = role_secondary;
    })
    ∷ []

inherited : position_precision_for_channel table 2 ≡ 15
unfolding position_precision_for_channel
inherited = refl

lowest : find_position_channel table ≡ some 0
unfolding find_position_channel
lowest = refl

precision-capped_example :
    let precision = position_precision_for_channel table 2 in
    let configured = configured_precision (get_elem? table 2) in
    (IsDerivable (1 ∷ []) × (precision ≡ min configured max_position_precision_public_key))
    ⊎ ((¬ IsDerivable (1 ∷ [])) × (precision ≡ configured))
precision-capped_example = precision-capped table 2 (1 ∷ []) refl

uses_public_key-settled_example : uses_public_key 5 table 2 ≡ some (channel_uses_public_key table 2)
uses_public_key-settled_example = uses_public_key-settled 3 table 2
