-- ===== src/Lora/Regions/Caps.antt =====
-- The caps of the wire format, and what a region of the map refers to.
use meshtastic_go.Common.{
  ℕ, ◌+◌, ◌≤◌, ◌<◌, ◌≡◌, refl, sym, ◌∙◌, ◌≢◌, inl, inr, Bool, true, false, Option, none, some, List,
  [], ◌∷◌, ◌++◌, arith, leb, if◌then◌else◌, Bool-cases, length, All, length-append,
}
use meshtastic_go.Common.{length-take, All-append}
use meshtastic_go.Common.Dict.{lookup, lookup-insert}
use meshtastic_go.Proto.{PresetGroup, RegionPresets}
use meshtastic_go.Lora.Regions.{
  max_preset_groups, max_region_groups, max_group_presets, RegionEntry, is_swappable,
  presets_eu_superset, GroupKey, group_eqb, group_eq, PresetMap, advertised, key_of, refer,
  open_group, place, add_region, add_regions, region_preset_map,
}

-- Every region refers to a group, each group has at most 11 presets, and there are at most 8 groups
-- and 38 regions.
abbrev pub FitsWire : PresetMap → Type 0
FitsWire m =
    (length m.groups ≤ max_preset_groups)
    × (length m.region_groups ≤ max_region_groups)
    × All (λ g. length g.presets ≤ max_group_presets) m.groups
    × All (λ r. r.group_index < length m.groups) m.region_groups

-- The index knows only groups.
abbrev IndexFits : PresetMap → Type 0
IndexFits m = (k : GroupKey) (gi : ℕ) → lookup k m.index ≡ some gi → gi < length m.groups

All-weaken :
    (n n' : ℕ) (l : List RegionPresets)
    → n ≤ n'
    → All (λ r. r.group_index < n) l
    → All (λ r. r.group_index < n') l
All-weaken n n' [] h a = tt
All-weaken n n' (r ∷ l) h (x, a) = (omega arith, All-weaken n n' l h a)

refer-FitsWire :
    (r : RegionEntry) (gi : ℕ) (m : PresetMap)
    → length m.region_groups < max_region_groups
    → gi < length m.groups
    → FitsWire m
    → FitsWire (refer r gi m)
refer-FitsWire r gi m n h (g, l, ps, rs) = (
  g,
  omega
      (arith, n, length-append m.region_groups (record { region = r.code; group_index = gi } ∷ [])),
  ps,
  All-append (λ r. r.group_index < length m.groups) m.region_groups _ rs (h, tt),
)

open_group-FitsWire :
    (r : RegionEntry) (m : PresetMap)
    → length m.groups < max_preset_groups
    → FitsWire m
    → (FitsWire (open_group r m)) × (length (open_group r m).groups ≡ length m.groups + 1)
open_group-FitsWire r m n (g, l, ps, rs) =
    let group : PresetGroup = record {
      presets = advertised r;
      default_preset = r.default_preset;
      licensed_only = r.profile.licensed_only;
    } in
    let longer : length (m.groups ++ (group ∷ [])) ≡ length m.groups + 1 =
      length-append m.groups (group ∷ []) in
    (
      (
        omega (arith, n, longer),
        l,
        All-append (λ g. length g.presets ≤ max_group_presets) m.groups (group ∷ []) ps
            (short r, tt),
        All-weaken (length m.groups) (length (m.groups ++ (group ∷ []))) m.region_groups
            (omega (arith, longer)) rs,
      ),
      longer,
    )
  where
    short : (r : RegionEntry) → length (advertised r) ≤ max_group_presets
    short r = omega (
      arith,
      length-take max_group_presets
          (if is_swappable r.code then presets_eu_superset else r.profile.presets),
    )

open_group-IndexFits : (r : RegionEntry) (m : PresetMap) → IndexFits m → IndexFits (open_group r m)
open_group-IndexFits r m h k gi e =
    let longer = length-append m.groups (
      record {
        presets = advertised r;
        default_preset = r.default_preset;
        licensed_only = r.profile.licensed_only;
      }
      ∷ []) in
    elim (Bool-cases (group_eqb (key_of r) k)) [
      | inl t ↦
          let s : some (length m.groups) ≡ some gi =
            sym (if_of _ _ t) ∙ (sym (lookup-insert (key_of r) k (length m.groups) m.index) ∙ e) in
          omega (arith, longer, some_injective s)
      | inr t ↦
          let s : lookup k m.index ≡ some gi =
            sym (else_of _ _ t)
            ∙ (sym (lookup-insert (key_of r) k (length m.groups) m.index) ∙ e) in
          omega (arith, longer, h k gi s)
    ]
  where
    if_of : {A : Type 0} (x y : A) {t : Bool} → t ≡ true → (if t then x else y) ≡ x
    if_of x y e = rw e refl

    else_of : {A : Type 0} (x y : A) {t : Bool} → t ≡ false → (if t then x else y) ≡ y
    else_of x y e = rw e refl

    some_injective : {x y : ℕ} → some x ≡ some y → x ≡ y
    some_injective {x} {y} e = cc

abbrev Sound : PresetMap → Type 0
Sound m = FitsWire m × IndexFits m

place-Sound :
    (r : RegionEntry) (o : Option ℕ) (m : PresetMap)
    → length m.region_groups < max_region_groups
    → lookup (key_of r) m.index ≡ o
    → Sound m
    → Sound (place r o m)
place-Sound r (some gi) m n e (f, i) = (refer-FitsWire r gi m n (i (key_of r) gi e) f, i)
place-Sound r none m n e (f, i) = elim (Bool-cases (leb max_preset_groups (length m.groups))) [
  | inl t ↦ rw t (f, i)
  | inr t ↦
      let (f', longer) = open_group-FitsWire r m (ground arith) f in
      rw t (
        refer-FitsWire r (length m.groups) (open_group r m) n (omega (arith, longer)) f',
        open_group-IndexFits r m i,
      )
]

add_region-Sound : (r : RegionEntry) (m : PresetMap) → Sound m → Sound (add_region r m)
unfolding add_region
add_region-Sound r m s = elim (Bool-cases (leb max_region_groups (length m.region_groups))) [
  | inl t ↦ rw t s
  | inr t ↦ rw t (place-Sound r (lookup (key_of r) m.index) m (ground arith) refl s)
]

add_regions-Sound : (l : List RegionEntry) (m : PresetMap) → Sound m → Sound (add_regions l m)
unfolding add_regions
add_regions-Sound [] m s = s
add_regions-Sound (r ∷ l) m s = add_regions-Sound l (add_region r m) (add_region-Sound r m s)

empty_index : (k : GroupKey) (gi : ℕ) → lookup {V = ℕ} k [] ≢ some gi
unfolding lookup
empty_index k gi e = cc

-- Whatever the table of regions, the map fits what a client can decode: at most 8 groups of at most
-- 11 presets, at most 38 regions, and every region refers to a group of the map.
pub region_preset_map-FitsWire : (table : List RegionEntry) → FitsWire (region_preset_map table)
unfolding region_preset_map
region_preset_map-FitsWire table =
    (add_regions-Sound table (record { groups = []; region_groups = []; index = [] })
      ((omega arith, omega arith, tt, tt), λ k gi e. absurd (empty_index k gi e))).0
