-- ===== src/Channel.antt =====
-- core/channel.go: channel definitions and ChannelRegistry. A ChannelDef is what the four methods
-- of the interface return; Go's nil is `none`.
pub mod Indexed
pub mod Pairs
mod Examples
use meshtastic_go.Common.{
  ℕ, zero, suc, ◌+◌, ◌-◌, ◌*◌, ◌/◌, ◌%◌, ◌^◌, ◌≤◌, ◌<◌, bit_and, bit_or, bit_xor, ◌≡◌, refl, sym,
  ap, ◌∙◌, ◌≢◌, ◌↔◌, ◌⊎◌, inl, inr, Bool, true, false, not, ◌&&◌, ◌||◌, Option, none, some, List,
  [], ◌∷◌, ◌++◌, map, arith, ltb, leb, ◌==◌, if◌then◌else◌, bool_eq, ==_iff, ==_refl, Bool-cases,
  Option-cases, is_some, length, get_elem?, get_or, take, drop, replicate, select, find_first, All,
  length-append, Bytes, bytes_eq, bytes_eq_iff, bytes_eq_refl, text,
}
use meshtastic_go.Common.Dict.{Dict, lookup, insert, nat_eq, bytes_key}
use meshtastic_go.Common.Base64.{encode_std}
use meshtastic_go.Crypto.Keys.{default_key, expand_short_psk, try_compact_key, channel_hash}
use meshtastic_go.Proto.{ChannelSettings}

pub record ChannelDef : Type 0 where
  pub name : Bytes
  pub key_string : Bytes
  pub key_bytes : Bytes
  pub hash : ℕ

abbrev pub same_def : ChannelDef → ChannelDef → Bool
same_def a b = bytes_eq a.name b.name && bytes_eq a.key_bytes b.key_bytes

unfoldable pub same_channel : Option ChannelDef → Option ChannelDef → Bool
same_channel none b = false
same_channel (some a) none = false
same_channel (some a) (some b) = same_def a b

pub record Channel : Type 0 where
  pub name : Bytes
  pub key : Bytes

-- What GetName, GetKeyString, GetKeyBytes and GetHash of a Channel return.
unfoldable pub channel_def : Channel → ChannelDef
channel_def c = record {
  name = c.name;
  key_string = encode_std (try_compact_key c.key);
  key_bytes = c.key;
  hash = channel_hash c.name c.key;
}

unfoldable pub new_channel_with_key : Bytes → Bytes → Channel
new_channel_with_key name key = record { name = name; key = expand_short_psk key }

unfoldable pub channel_from_settings : Option ChannelSettings → Option Channel
channel_from_settings none = none
channel_from_settings (some settings) = some (record {
  name = settings.name;
  key = (if length settings.psk == 0 then default_key else expand_short_psk settings.psk);
})

pub record ChannelRegistry : Type 0 where
  pub order : List ChannelDef
  pub by_hash : Dict ℕ (List ChannelDef)
  pub by_name : Dict Bytes (List ChannelDef)

unfoldable pub new_channel_registry : ChannelRegistry
new_channel_registry = record { order = []; by_hash = []; by_name = [] }

-- A missing key of a Go map of slices reads as the empty slice.
abbrev pub or_empty : Option (List ChannelDef) → List ChannelDef
or_empty none = []
or_empty (some l) = l

abbrev pub with_hash : ℕ → ChannelRegistry → List ChannelDef
with_hash h r = or_empty (lookup h r.by_hash)

abbrev pub with_name : Bytes → ChannelRegistry → List ChannelDef
with_name n r = or_empty (lookup n r.by_name)

unfoldable pub replace_same : List ChannelDef → ChannelDef → List ChannelDef
replace_same [] ch = []
replace_same (existing ∷ l) ch =
    let rest = replace_same l ch in if same_def existing ch then ch ∷ rest else existing ∷ rest

abbrev pub after : ChannelDef → Option (List ChannelDef) → Option (List ChannelDef)
after existing none = none
after existing (some l) = some (existing ∷ l)

-- The loop of Register over `r.order`: the list with `ch` in place of the first same channel.
unfoldable pub replace_first : List ChannelDef → ChannelDef → Option (List ChannelDef)
replace_first [] ch = none
replace_first (existing ∷ l) ch =
    let rest = after existing (replace_first l ch) in
    if same_def existing ch then some (ch ∷ l) else rest

unfoldable pub register_in :
    Option (List ChannelDef) → ChannelDef → ChannelRegistry → ChannelRegistry
register_in (some order) ch r = record {
  order = order;
  by_hash = insert ch.hash (replace_same (with_hash ch.hash r) ch) r.by_hash;
  by_name = insert ch.name (replace_same (with_name ch.name r) ch) r.by_name;
}
register_in none ch r = record {
  order = r.order ++ (ch ∷ []);
  by_hash = insert ch.hash (with_hash ch.hash r ++ (ch ∷ [])) r.by_hash;
  by_name = insert ch.name (with_name ch.name r ++ (ch ∷ [])) r.by_name;
}

unfoldable pub register : ChannelDef → ChannelRegistry → ChannelRegistry
unfolding register_in replace_first replace_same
register ch r = register_in (replace_first r.order ch) ch r

unfoldable pub lookup_all : ℕ → ChannelRegistry → List ChannelDef
lookup_all hash r = with_hash hash r

abbrev pub first : List ChannelDef → Option ChannelDef
first [] = none
first (c ∷ l) = some c

unfoldable pub lookup_hash : ℕ → ChannelRegistry → Option ChannelDef
lookup_hash hash r = first (with_hash hash r)

unfoldable pub lookup_name : ℕ → ChannelRegistry → Bytes
unfolding lookup_hash
lookup_name hash r = elim (lookup_hash hash r) [ none ↦ [] | some ch ↦ ch.name ]

pub data Resolved : Type 0 where
  found : ChannelDef → Resolved
  not_found ambiguous : Resolved

abbrev pub resolve : List ChannelDef → Resolved
resolve [] = not_found
resolve (c ∷ []) = found c
resolve (c ∷ d ∷ l) = ambiguous

unfoldable pub resolve_by_name : Bytes → ChannelRegistry → Resolved
resolve_by_name name r = resolve (with_name name r)

unfoldable pub lookup_by_name : Bytes → ChannelRegistry → Option ChannelDef
unfolding resolve_by_name
lookup_by_name name r = elim (resolve_by_name name r) [ found c ↦ some c | _ ↦ none ]

unfoldable pub lookup_pair : Bytes → Bytes → ChannelRegistry → Option ChannelDef
lookup_pair name key r =
    find_first (λ ch. bytes_eq ch.key_bytes (expand_short_psk key)) (with_name name r)

unfoldable pub all_channels : ChannelRegistry → List ChannelDef
all_channels r = r.order
