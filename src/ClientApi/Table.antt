-- ===== src/ClientApi/Table.antt =====
-- The channel table of the handshake, and the indices into it.
use meshtastic_go.Common.{
  ℕ, zero, suc, ◌+◌, ◌-◌, ◌≤◌, ◌<◌, ◌≡◌, refl, ap, ◌∙◌, ◌⊎◌, inl, inr, Bool, true, false, ◌&&◌,
  ◌||◌, Option, none, some, List, [], ◌∷◌, arith, leb, ◌==◌, if◌then◌else◌, Bool-cases, get_elem?,
  take,
}
use meshtastic_go.Channel.{ChannelDef, same_channel}
use meshtastic_go.ClientApi.{
  ServerConfig, max_channels, index_from, index_of, channel_index_for, slot, slots_from,
  channel_table,
}
use meshtastic_go.Device.Node.{settings_def}
use meshtastic_go.NodeDb.{NodeDb, channel_of}
use meshtastic_go.Proto.{
  ChannelSettings, ChannelRole, role_disabled, role_primary, role_secondary, ChannelSlot,
}

abbrev pub is_settings_of : ChannelDef → ChannelSettings → Bool
is_settings_of ch s = same_channel (settings_def s) (some ch)

-- Whether some settings of a list are those of a channel.
abbrev pub is_listed : ChannelDef → List ChannelSettings → Bool
is_listed ch [] = false
is_listed ch (s ∷ l) = is_settings_of ch s || is_listed ch l

abbrev pub has_settings_of : ChannelDef → Option ChannelSettings → Bool
has_settings_of ch none = false
has_settings_of ch (some s) = is_settings_of ch s

abbrev pub is_enabled : ChannelRole → Bool
is_enabled role_disabled = false
is_enabled role_primary = true
is_enabled role_secondary = true

-- Whether there is a slot, not a disabled one, with the settings of a channel.
abbrev pub points_to : ChannelDef → Option ChannelSlot → Bool
points_to ch none = false
points_to ch (some s) = is_enabled s.role && has_settings_of ch s.settings

-- The answer of the loop from an index on, with `n` slots left: the place of the settings, or 0.
abbrev Found : ChannelDef → ℕ → ℕ → List ChannelSettings → ℕ → Type 0
Found ch i n l r =
    ((is_listed ch (take n l) ≡ true)
      × (i ≤ r)
      × (r < max_channels)
      × (has_settings_of ch (get_elem? l (r - i)) ≡ true))
    ⊎ ((is_listed ch (take n l) ≡ false) × (r ≡ 0))

Found-here :
    (ch : ChannelDef) (i n : ℕ) (s : ChannelSettings) (l : List ChannelSettings)
    → i + suc n ≡ max_channels
    → is_settings_of ch s ≡ true
    → Found ch i (suc n) (s ∷ l) i
Found-here ch i n s l e h =
    let zero_gap : i - i ≡ 0 = omega arith in
    inl (
      ap (λ b. b || is_listed ch (take n l)) h,
      omega arith,
      omega arith,
      ap (λ k. has_settings_of ch (get_elem? (s ∷ l) k)) zero_gap ∙ h,
    )

Found-there :
    (ch : ChannelDef) (i n : ℕ) (s : ChannelSettings) (l : List ChannelSettings) (r : ℕ)
    → is_settings_of ch s ≡ false
    → Found ch (suc i) n l r
    → Found ch i (suc n) (s ∷ l) r
Found-there ch i n s l r h (inl (listed, le, lt, same)) =
    let gap : r - i ≡ suc (r - suc i) = omega arith in
    inl (
      ap (λ b. b || is_listed ch (take n l)) h ∙ listed,
      omega arith,
      lt,
      ap (λ k. has_settings_of ch (get_elem? (s ∷ l) k)) gap ∙ same,
    )
Found-there ch i n s l r h (inr (listed, e)) =
    inr (ap (λ b. b || is_listed ch (take n l)) h ∙ listed, e)

-- The turn of the loop, for any answer of the rest.
Found-turn :
    (ch : ChannelDef) (i n : ℕ) (s : ChannelSettings) (l : List ChannelSettings) (r : ℕ) (b : Bool)
    → i + suc n ≡ max_channels
    → is_settings_of ch s ≡ b
    → Found ch (suc i) n l r
    → Found ch i (suc n) (s ∷ l) (if leb max_channels i then 0 else if b then i else r)
Found-turn ch i n s l r true e h f =
    let open_slot : leb max_channels i ≡ false = ground arith in
    rw open_slot (Found-here ch i n s l e h)
Found-turn ch i n s l r false e h f =
    let open_slot : leb max_channels i ≡ false = ground arith in
    rw open_slot (Found-there ch i n s l r h f)

index_from-Found :
    (ch : ChannelDef) (i n : ℕ) (l : List ChannelSettings)
    → i + n ≡ max_channels
    → Found ch i n l (index_from ch i l)
unfolding index_from
index_from-Found ch i n [] e = inr (nothing n, refl)
  where
    nothing : (n : ℕ) → is_listed ch (take n []) ≡ false
    nothing zero = refl
    nothing (suc n) = refl
index_from-Found ch i zero (s ∷ l) e =
    let closed : leb max_channels i ≡ true = ground arith in inr (refl, rw closed refl)
index_from-Found ch i (suc n) (s ∷ l) e =
    Found-turn ch i n s l (index_from ch (suc i) l) (is_settings_of ch s) e refl
      (index_from-Found ch (suc i) n l (omega arith))

get_elem?-slots_from :
    (j n k : ℕ) (l : List ChannelSettings)
    → k < n
    → get_elem? (slots_from j n l) k ≡ some (slot (j + k) (get_elem? l (j + k)))
unfolding slots_from
get_elem?-slots_from j zero k l h = absurd (omega arith)
get_elem?-slots_from j (suc n) zero l h =
    let same : j ≡ j + 0 = omega arith in ap (λ k. some (slot k (get_elem? l k))) same
get_elem?-slots_from j (suc n) (suc k) l h =
    let same : suc j + k ≡ j + suc k = omega arith in
    get_elem?-slots_from (suc j) n k l (omega arith) ∙ ap (λ k. some (slot k (get_elem? l k))) same

slot-points :
    (ch : ChannelDef) (i : ℕ) (o : Option ChannelSettings)
    → has_settings_of ch o ≡ true
    → points_to ch (some (slot i o)) ≡ true
slot-points ch i none h = cc
slot-points ch i (some s) h = elim (Bool-cases (i == 0)) [ inl e ↦ rw e h | inr e ↦ rw e h ]

Found-points :
    (ch : ChannelDef) (l : List ChannelSettings) (r : ℕ)
    → Found ch 0 max_channels l r
    → (r < max_channels)
      × (((is_listed ch (take max_channels l) ≡ true)
            × (points_to ch (get_elem? (slots_from 0 max_channels l) r) ≡ true))
          ⊎ ((is_listed ch (take max_channels l) ≡ false) × (r ≡ 0)))
Found-points ch l r (inl (listed, le, lt, same)) =
    let whole : r ≡ r - 0 = omega arith in
    let start : 0 + r ≡ r = omega arith in
    (
      lt,
      inl (
        listed,
        ap (points_to ch) (get_elem?-slots_from 0 max_channels r l lt)
            ∙ (ap (λ k. points_to ch (some (slot k (get_elem? l k)))) start
                ∙ slot-points ch r (get_elem? l r)
                    (ap (λ k. has_settings_of ch (get_elem? l k)) whole ∙ same)),
      ),
    )
Found-points ch l r (inr (listed, e)) = (omega arith, inr (listed, e))

-- A node that was last heard on a channel gets the index of a slot of the channel table: an enabled
-- slot with that channel's settings, if one of the first eight configured channels is that channel,
-- and the primary slot, 0, if not.
pub channel_index_for-points :
    (cfg : ServerConfig) (db : NodeDb) (id : ℕ) (ch : ChannelDef)
    → channel_of id db ≡ some ch
    → let i = channel_index_for cfg db id in
      (i < max_channels)
      × (((is_listed ch (take max_channels cfg.channels) ≡ true)
            × (points_to ch (get_elem? (channel_table cfg) i) ≡ true))
          ⊎ ((is_listed ch (take max_channels cfg.channels) ≡ false) × (i ≡ 0)))
unfolding channel_index_for channel_table
channel_index_for-points cfg db id ch h =
    let answer : index_of (channel_of id db) cfg.channels ≡ index_from ch 0 cfg.channels =
      ap (λ o. index_of o cfg.channels) h in
    rw answer (
      Found-points ch cfg.channels (index_from ch 0 cfg.channels)
        (index_from-Found ch 0 max_channels cfg.channels refl))
