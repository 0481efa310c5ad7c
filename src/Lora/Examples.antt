-- ===== src/Lora/Examples.antt =====
-- The advertised regions.
use meshtastic_go.Common.{◌+◌, ◌*◌, ◌/◌, ◌^◌, ◌≡◌, refl, arith, length}
use meshtastic_go.Common.Dict.{lookup, insert}
use meshtastic_go.Lora.Regions.Caps.{FitsWire, region_preset_map-FitsWire}
use meshtastic_go.Lora.{truncate_coordinate, precision_bits_to_meters, meters_to_precision_bits}
use meshtastic_go.Lora.Cells.{truncate_coordinate-centre}
use meshtastic_go.Lora.Regions.{regions, region_preset_map}

-- The table fits whole: every region is there, in six groups.
all_regions : length (region_preset_map regions).region_groups ≡ length regions
unfolding region_preset_map lookup insert
all_regions = refl

group_count : length (region_preset_map regions).groups ≡ 6
unfolding region_preset_map lookup insert
group_count = refl

region_preset_map-FitsWire_example : FitsWire (region_preset_map regions)
region_preset_map-FitsWire_example = region_preset_map-FitsWire regions

truncate_coordinate-centre_example :
    (truncate_coordinate 377_000_123 15 ≡ 377_000_123 / 2 ^ 17 * 2 ^ 17 + 2 ^ 16)
    × (truncate_coordinate 377_000_123 15 / 2 ^ 17 ≡ 377_000_123 / 2 ^ 17)
truncate_coordinate-centre_example =
    truncate_coordinate-centre 377_000_123 15 (omega arith) (omega arith) (omega arith)

metres : meters_to_precision_bits (precision_bits_to_meters 15) ≡ 15
unfolding meters_to_precision_bits precision_bits_to_meters
metres = refl
