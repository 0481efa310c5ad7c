-- ===== src/Lora/Regions.antt =====
-- core/lora/regions.go: the modem presets that each region permits, as they are advertised to clients.
-- Regions and presets are numbers, as in core/proto/config.pb.go.
pub mod Caps
use meshtastic_go.Common.{
  ℕ, zero, suc, ◌+◌, ◌-◌, ◌*◌, ◌/◌, ◌%◌, ◌^◌, ◌≤◌, ◌<◌, bit_and, bit_or, bit_xor, ◌≡◌, refl, sym,
  ap, ◌∙◌, ◌≢◌, ◌↔◌, ◌⊎◌, inl, inr, Bool, true, false, not, ◌&&◌, ◌||◌, Option, none, some, List,
  [], ◌∷◌, ◌++◌, map, arith, ltb, leb, ◌==◌, if◌then◌else◌, bool_eq, ==_iff, ==_refl, Bool-cases,
  Option-cases, is_some, length, get_elem?, get_or, take, drop, replicate, select, find_first, All,
  length-append, Bytes, bytes_eq, bytes_eq_iff, bytes_eq_refl, text,
}
use meshtastic_go.Proto.{PresetGroup, RegionPresets}
use meshtastic_go.Common.Dict.{Dict, Eq, lookup, insert}

abbrev pub max_preset_groups : ℕ
max_preset_groups = 8

abbrev pub max_region_groups : ℕ
max_region_groups = 38

abbrev pub max_group_presets : ℕ
max_group_presets = 11

-- A pointer to a regionProfile is a number, so that two profiles with the same content are distinct.
pub record RegionProfile : Type 0 where
  pub id : ℕ
  pub presets : List ℕ
  pub licensed_only : Bool

abbrev pub presets_std : List ℕ
presets_std = 0 ∷ 1 ∷ 3 ∷ 4 ∷ 5 ∷ 6 ∷ 7 ∷ 8 ∷ 9 ∷ 16 ∷ []

abbrev pub presets_eu868 : List ℕ
presets_eu868 = 0 ∷ 1 ∷ 3 ∷ 4 ∷ 5 ∷ 6 ∷ 7 ∷ []

abbrev pub presets_lite : List ℕ
presets_lite = 10 ∷ 11 ∷ []

abbrev pub presets_narrow : List ℕ
presets_narrow = 12 ∷ 13 ∷ []

abbrev pub presets_tiny : List ℕ
presets_tiny = 14 ∷ 15 ∷ []

abbrev pub presets_eu_superset : List ℕ
presets_eu_superset = 0 ∷ 1 ∷ 3 ∷ 4 ∷ 5 ∷ 6 ∷ 7 ∷ 10 ∷ 11 ∷ 12 ∷ 13 ∷ []

abbrev pub std : RegionProfile
std = record { id = 0; presets = presets_std; licensed_only = false }

abbrev pub eu868 : RegionProfile
eu868 = record { id = 1; presets = presets_eu868; licensed_only = false }

abbrev pub lite : RegionProfile
lite = record { id = 2; presets = presets_lite; licensed_only = false }

abbrev pub narrow : RegionProfile
narrow = record { id = 3; presets = presets_narrow; licensed_only = false }

abbrev pub ham_20khz : RegionProfile
ham_20khz = record { id = 4; presets = presets_tiny; licensed_only = true }

abbrev pub ham_100khz : RegionProfile
ham_100khz = record { id = 5; presets = presets_narrow; licensed_only = true }

pub record RegionEntry : Type 0 where
  pub code : ℕ
  pub profile : RegionProfile
  pub default_preset : ℕ

-- swappableEURegions: EU_868, EU_866 and EU_N_868
abbrev pub is_swappable : ℕ → Bool
is_swappable code = code == 3 || code == 29 || code == 32

abbrev region : ℕ → RegionProfile → ℕ → RegionEntry
region code profile default_preset = record {
  code = code;
  profile = profile;
  default_preset = default_preset;
}

abbrev pub regions : List RegionEntry
regions =
    region 1 std 0
    ∷ region 2 std 0
    ∷ region 3 eu868 0
    ∷ region 29 lite 10
    ∷ region 32 narrow 13
    ∷ region 4 std 0
    ∷ region 5 std 0
    ∷ region 6 std 0
    ∷ region 22 std 0
    ∷ region 9 std 0
    ∷ region 7 std 0
    ∷ region 8 std 0
    ∷ region 10 std 0
    ∷ region 11 std 0
    ∷ region 12 std 0
    ∷ region 14 std 0
    ∷ region 16 std 0
    ∷ region 17 std 0
    ∷ region 18 std 0
    ∷ region 19 std 0
    ∷ region 20 std 0
    ∷ region 21 std 0
    ∷ region 23 std 0
    ∷ region 24 std 0
    ∷ region 25 std 0
    ∷ region 26 std 0
    ∷ region 27 ham_20khz 14
    ∷ region 28 ham_20khz 14
    ∷ region 33 ham_20khz 14
    ∷ region 37 ham_100khz 13
    ∷ region 34 ham_100khz 13
    ∷ region 35 ham_100khz 13
    ∷ region 36 ham_100khz 13
    ∷ region 13 std 0
    ∷ []

pub record GroupKey : Type 0 where
  pub profile : ℕ
  pub default_preset : ℕ

abbrev pub group_eqb : GroupKey → GroupKey → Bool
group_eqb a b = a.profile == b.profile && a.default_preset == b.default_preset

pub group_eqb_iff : (a b : GroupKey) → (group_eqb a b ≡ true) ↔ (a ≡ b)
group_eqb_iff a b = ground arith

instance abbrev pub group_eq : Eq GroupKey
group_eq = record { eqb = group_eqb; eqb_iff = group_eqb_iff }

-- pb.LoRaRegionPresetMap and the index of its groups.
pub record PresetMap : Type 0 where
  pub groups : List PresetGroup
  pub region_groups : List RegionPresets
  pub index : Dict GroupKey ℕ

abbrev pub advertised : RegionEntry → List ℕ
advertised r =
    take max_group_presets (if is_swappable r.code then presets_eu_superset else r.profile.presets)

abbrev pub key_of : RegionEntry → GroupKey
key_of r = record { profile = r.profile.id; default_preset = r.default_preset }

abbrev pub refer : RegionEntry → ℕ → PresetMap → PresetMap
refer r gi m = record m {
  region_groups = m.region_groups ++ (record { region = r.code; group_index = gi } ∷ []);
}

abbrev pub open_group : RegionEntry → PresetMap → PresetMap
open_group r m = record m {
  groups =
      m.groups
      ++ (record {
        presets = advertised r;
        default_preset = r.default_preset;
        licensed_only = r.profile.licensed_only;
      }
          ∷ []);
  index = insert (key_of r) (length m.groups) m.index;
}

abbrev pub place : RegionEntry → Option ℕ → PresetMap → PresetMap
place r (some gi) m = refer r gi m
place r none m =
    if leb max_preset_groups (length m.groups)
    then m
    else refer r (length m.groups) (open_group r m)

-- One turn of the loop; the `break` is a turn, and every later one, without effect.
unfoldable pub add_region : RegionEntry → PresetMap → PresetMap
add_region r m =
    if leb max_region_groups (length m.region_groups)
    then m
    else place r (lookup (key_of r) m.index) m

unfoldable pub add_regions : List RegionEntry → PresetMap → PresetMap
unfolding add_region
add_regions [] m = m
add_regions (r ∷ l) m = add_regions l (add_region r m)

-- RegionPresetMap, over any table.
unfoldable pub region_preset_map : List RegionEntry → PresetMap
unfolding add_regions
region_preset_map table = add_regions table (record { groups = []; region_groups = []; index = [] })
