-- ===== src/PositionSharing/Cap.antt =====
-- The precision with which a position may go out.
use meshtastic_go.Common.{
  ℕ, suc, ◌-◌, ◌≤◌, ◌≡◌, refl, sym, ap, ◌∙◌, ◌⊎◌, inl, inr, Bool, true, false, Option, none, some,
  [], ◌∷◌, ◌++◌, arith, ◌==◌, ==_iff, if◌then◌else◌, Bool-cases, Option-cases, length, get_elem?,
  get_or, take, find_first, Bytes, bytes_eq, bytes_eq_iff,
}
use Prim.Native.Nat.{min}
use meshtastic_go.Crypto.Keys.{default_key}
use meshtastic_go.Crypto.Keys.Laws.{split_last}
use meshtastic_go.PositionSharing.{
  max_position_precision_public_key, ChannelTable, is_primary, first_primary, uses_public_key,
  channel_uses_public_key, answer_of, configured_precision, position_precision_for_channel,
  slot_public, role_public, inherits, is_default_family,
}
use meshtastic_go.PositionSharing.Ends.{is_primary_slot, primary_is_one}
use meshtastic_go.Proto.{
  ChannelSettings, ChannelRole, role_disabled, role_primary, role_secondary, ChannelSlot,
}

-- A key that anybody can derive: none, a one-byte index, or one that differs from the default key in
-- its last byte only.
abbrev pub IsDerivable : Bytes → Type 0
IsDerivable key =
    (key ≡ []) ⊎ (length key ≡ 1) ⊎ ((x : ℕ) × (key ≡ take 15 default_key ++ (x ∷ [])))

abbrev pub psk_of : Option ChannelSettings → Option Bytes
psk_of none = none
psk_of (some settings) = some settings.psk

abbrev pub slot_psk : Option (Option ChannelSlot) → Option Bytes
slot_psk none = some []
slot_psk (some none) = none
slot_psk (some (some ch)) = psk_of ch.settings

-- The key of a channel without its own: a secondary one has that of the first primary channel, and
-- none if there is no primary channel.
abbrev pub inherited_key : ChannelRole → ChannelTable → Option Bytes
inherited_key role_disabled channels = none
inherited_key role_primary channels = some []
inherited_key role_secondary channels = slot_psk (find_first is_primary channels)

abbrev pub own_or_inherited : ChannelRole → ChannelTable → Option Bytes → Option Bytes
own_or_inherited role_disabled channels psk = none
own_or_inherited role_primary channels none = none
own_or_inherited role_primary channels (some psk) =
    if length psk == 0 then inherited_key role_primary channels else some psk
own_or_inherited role_secondary channels none = none
own_or_inherited role_secondary channels (some psk) =
    if length psk == 0 then inherited_key role_secondary channels else some psk

abbrev pub key_in : ChannelTable → Option (Option ChannelSlot) → Option Bytes
key_in channels none = none
key_in channels (some none) = none
key_in channels (some (some ch)) = own_or_inherited ch.role channels (psk_of ch.settings)

-- The key that the traffic of an enabled channel is encrypted with.
abbrev pub effective_key : ChannelTable → ℕ → Option Bytes
effective_key channels index = key_in channels (get_elem? channels index)

-- The test of ChannelUsesPublicKey on one key.
abbrev weak : Bytes → Bool
weak key = if length key == 0 then true else if length key == 1 then true else is_default_family key

weak-IsDerivable : (key : Bytes) → weak key ≡ true → IsDerivable key
weak-IsDerivable key h = elim (Bool-cases (length key == 0)) [
  | inl e ↦ inl (empty key ((==_iff (length key) 0).0 e))
  | inr e ↦ elim (Bool-cases (length key == 1)) [
    | inl e' ↦ inr (inl ((==_iff (length key) 1).0 e'))
    | inr e' ↦ inr (inr (family key (rw (e, e') at h)))
  ]
]
  where
    empty : (key : Bytes) → length key ≡ 0 → key ≡ []
    empty [] h = refl
    empty (x ∷ l) h = absurd (omega arith)

    family :
        (key : Bytes)
        → is_default_family key ≡ true
        → (x : ℕ) × (key ≡ take 15 default_key ++ (x ∷ []))
    family key h =
        let len : length key ≡ 16 = ground arith in
        let start : bytes_eq (take (length key - 1) key) (take 15 default_key) ≡ true =
          ground arith in
        let same : take 15 key ≡ take 15 default_key =
          (bytes_eq_iff (take 15 key) (take 15 default_key)).0
            (ap (λ n. bytes_eq (take (n - 1) key) (take 15 default_key)) (sym len) ∙ start) in
        (get_or key 15 0, sym (split_last 15 key len) ∙ ap (λ l. l ++ (get_or key 15 0 ∷ [])) same)

derivable-weak : (key : Bytes) → IsDerivable key → weak key ≡ true
unfolding bytes_eq
derivable-weak key (inl e) = ap weak e
derivable-weak key (inr (inl e)) = rw e refl
derivable-weak key (inr (inr (x, e))) = ap weak e

some_injective : {x y : Bytes} → some x ≡ some y → x ≡ y
some_injective {x} {y} e = cc

-- The search by index finds the channel that the search by predicate finds.
first-finds :
    (i : ℕ) (l : ChannelTable) (k : ℕ)
    → first_primary i l ≡ some k
    → (i ≤ k) × (find_first is_primary l ≡ get_elem? l (k - i))
first-finds i [] k h = cc
first-finds i (ch ∷ l) k h = elim (Bool-cases (is_primary ch)) [
  | inl e ↦
      let same : some i ≡ some k = rw e at h in
      let gap : k - i ≡ 0 = ground arith in (ground arith, rw (e, gap) refl)
  | inr e ↦
      let (le, p) = first-finds (suc i) l k (rw e at h) in
      let gap : k - i ≡ suc (k - suc i) = omega arith in (omega arith, rw (e, gap) p)
]

first-none : (i : ℕ) (l : ChannelTable) → first_primary i l ≡ none → find_first is_primary l ≡ none
first-none i [] h = refl
first-none i (ch ∷ l) h = elim (Bool-cases (is_primary ch)) [
  | inl e ↦ cc
  | inr e ↦ rw e (first-none (suc i) l (rw e at h))
]

-- A channel's own key decides, or the inherited one if it is empty.
chosen :
    (psk : Bytes) (inherited : Option Bytes) (code : Option Bool) (key : Bytes)
    → (inherited ≡ some key → code ≡ some (weak key))
    → (if length psk == 0 then inherited else some psk) ≡ some key
    → (if length psk == 0
        then code
        else if length psk == 1
        then some true
        else some (is_default_family psk))
      ≡ some (weak key)
chosen psk inherited code key f h = elim (Bool-cases (length psk == 0)) [
  | inl e ↦ rw e (f (rw e at h))
  | inr e ↦
      let same : psk ≡ key = some_injective (rw e at h) in
      elim (Bool-cases (length psk == 1)) [
        | inl e' ↦ rw (e, e') (ap some (sym (rw (e, e') refl) ∙ ap weak same))
        | inr e' ↦ rw (e, e') (ap some (sym (rw (e, e') refl) ∙ ap weak same))
      ]
]

primary-weak :
    (o : Option (Option ChannelSlot)) (i : ℕ) (channels : ChannelTable) (rest : ℕ → Option Bool)
    (key : Bytes)
    → is_primary_slot o ≡ true
    → slot_psk o ≡ some key
    → slot_public o i channels rest ≡ some (weak key)
primary-weak none i channels rest key p h = cc
primary-weak (some none) i channels rest key p h = cc
primary-weak (some (some ch)) i channels rest key p h = go ch.role ch.settings p h
  where
    go :
        (role : ChannelRole) (settings : Option ChannelSettings)
        → is_primary (some (record ch { role = role })) ≡ true
        → psk_of settings ≡ some key
        → role_public role settings i channels rest ≡ some (weak key)
    go role_disabled settings p h = cc
    go role_secondary settings p h = cc
    go role_primary none p h = cc
    go role_primary (some settings) p h =
        chosen settings.psk (some []) (some true) key
          (λ e. ap (λ k. some (weak k)) (some_injective e)) (alone settings.psk h)
      where
        alone :
            (psk : Bytes)
            → some psk ≡ some key
            → (if length psk == 0 then some [] else some psk) ≡ some key
        alone [] h = h
        alone (b ∷ l) h = ground arith

-- What a secondary channel without a key takes from the first primary one.
inherits-weak :
    (channels : ChannelTable) (index : ℕ) (key : Bytes)
    → is_primary_slot (get_elem? channels index) ≡ false
    → slot_psk (find_first is_primary channels) ≡ some key
    → inherits index (first_primary 0 channels) (uses_public_key 1 channels) ≡ some (weak key)
unfolding uses_public_key
inherits-weak channels index key n h = elim (Option-cases (first_primary 0 channels)) [
  | inl e ↦
      let absent : some [] ≡ some key = rw (first-none 0 channels e) at h in
      rw e (ap (λ k. some (weak k)) (some_injective absent))
  | inr (i, e) ↦
      let found : find_first is_primary channels ≡ get_elem? channels i =
        (first-finds 0 channels i e).1 ∙ ap (get_elem? channels) (omega arith) in
      let one = primary_is_one channels i e in
      elim (Bool-cases (i == index)) [
        | inl same ↦ absurd (
            cc (ap (λ k. is_primary_slot (get_elem? channels k)) ((==_iff i index).0 same), one, n))
        | inr other ↦
            rw (e, other)
              (primary-weak (get_elem? channels i) i channels (uses_public_key 0 channels) key one
                (sym (ap slot_psk found) ∙ h))
      ]
]

slot-weak :
    (channels : ChannelTable) (index : ℕ) (o : Option (Option ChannelSlot)) (key : Bytes)
    → get_elem? channels index ≡ o
    → key_in channels o ≡ some key
    → slot_public o index channels (uses_public_key 1 channels) ≡ some (weak key)
slot-weak channels index none key g h = cc
slot-weak channels index (some none) key g h = cc
slot-weak channels index (some (some ch)) key g h = go ch.role ch.settings (ap is_primary_slot g) h
  where
    go :
        (role : ChannelRole) (settings : Option ChannelSettings)
        → is_primary_slot (get_elem? channels index) ≡ is_primary (some (record ch { role = role }))
        → own_or_inherited role channels (psk_of settings) ≡ some key
        → role_public role settings index channels (uses_public_key 1 channels) ≡ some (weak key)
    go role_disabled settings p h = cc
    go role_primary none p h = cc
    go role_primary (some settings) p h =
        chosen settings.psk (some []) (some true) key
          (λ e. ap (λ k. some (weak k)) (some_injective e)) h
    go role_secondary none p h = cc
    go role_secondary (some settings) p h =
        chosen settings.psk (inherited_key role_secondary channels)
          (inherits index (first_primary 0 channels) (uses_public_key 1 channels)) key
          (inherits-weak channels index key p) h

uses-weak :
    (channels : ChannelTable) (index : ℕ) (key : Bytes)
    → effective_key channels index ≡ some key
    → channel_uses_public_key channels index ≡ weak key
unfolding channel_uses_public_key uses_public_key
uses-weak channels index key h =
    ap answer_of (slot-weak channels index (get_elem? channels index) key refl h)

-- A position goes out on an enabled channel with the configured precision, cut to 15 significant bits
-- if anybody can derive the key that its traffic is encrypted with, its own or that of the primary
-- channel, and in full if not.
pub precision-capped :
    (channels : ChannelTable) (index : ℕ) (key : Bytes)
    → effective_key channels index ≡ some key
    → let precision = position_precision_for_channel channels index in
      let configured = configured_precision (get_elem? channels index) in
      (IsDerivable key × (precision ≡ min configured max_position_precision_public_key))
      ⊎ ((¬ IsDerivable key) × (precision ≡ configured))
unfolding position_precision_for_channel
precision-capped channels index key h =
    let configured = configured_precision (get_elem? channels index) in
    elim (Bool-cases (weak key)) [
      | inl e ↦ inl (weak-IsDerivable key e, rw (uses-weak channels index key h, e) (ground arith))
      | inr e ↦ inr (
        (λ d. absurd (cc (derivable-weak key d, e))),
        rw (uses-weak channels index key h, e) (ground arith),
      )
    ]
