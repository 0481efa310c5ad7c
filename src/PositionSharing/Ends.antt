-- ===== src/PositionSharing/Ends.antt =====
-- The calls that ChannelUsesPublicKey makes of itself.
use meshtastic_go.Common.{
  is_some, ℕ, suc, ◌-◌, ◌≤◌, ◌≡◌, refl, sym, ap, ◌∙◌, inl, inr, Bool, true, false, Option, none,
  some, [], ◌∷◌, arith, ◌==◌, if◌then◌else◌, Bool-cases, length, get_elem?,
}
use meshtastic_go.PositionSharing.{
  ChannelTable, is_primary, first_primary, uses_public_key, channel_uses_public_key, answer_of,
  slot_public, role_public, settings_public, empty_key, inherits, is_primary_role,
  is_default_family,
}
use meshtastic_go.Proto.{
  ChannelSettings, ChannelRole, role_disabled, role_primary, role_secondary, ChannelSlot,
}

abbrev pub is_primary_slot : Option (Option ChannelSlot) → Bool
is_primary_slot none = false
is_primary_slot (some ch) = is_primary ch

some_injective : {x y : ℕ} → some x ≡ some y → x ≡ y
some_injective {x} {y} e = cc

-- The channel that a search finds is a primary one.
primary_found :
    (i : ℕ) (l : ChannelTable) (k : ℕ)
    → first_primary i l ≡ some k
    → (i ≤ k) × (is_primary_slot (get_elem? l (k - i)) ≡ true)
primary_found i [] k h = cc
primary_found i (ch ∷ l) k h = elim (Bool-cases (is_primary ch)) [
  | inl e ↦
      let same : i ≡ k =
        some_injective (sym (ap (λ b. if b then some i else first_primary (suc i) l) e) ∙ h) in
      let gap : k - i ≡ 0 = omega arith in
      (omega arith, ap (λ n. is_primary_slot (get_elem? (ch ∷ l) n)) gap ∙ e)
  | inr e ↦
      let (le, p) =
        primary_found (suc i) l k
          (sym (ap (λ b. if b then some i else first_primary (suc i) l) e) ∙ h) in
      let gap : k - i ≡ suc (k - suc i) = omega arith in
      (omega arith, ap (λ n. is_primary_slot (get_elem? (ch ∷ l) n)) gap ∙ p)
]

-- The answer for a primary channel needs no other.
role-alone :
    (role : ChannelRole) (settings : Option ChannelSettings) (index : ℕ) (channels : ChannelTable)
    (rest rest' : ℕ → Option Bool)
    → is_primary_role role ≡ true
    → role_public role settings index channels rest ≡ role_public role settings index channels rest'
role-alone role_disabled settings index channels rest rest' h = cc
role-alone role_secondary settings index channels rest rest' h = cc
role-alone role_primary none index channels rest rest' h = refl
role-alone role_primary (some settings) index channels rest rest' h = refl

slot-alone :
    (o : Option (Option ChannelSlot)) (index : ℕ) (channels : ChannelTable)
    (rest rest' : ℕ → Option Bool)
    → is_primary_slot o ≡ true
    → slot_public o index channels rest ≡ slot_public o index channels rest'
slot-alone none index channels rest rest' h = cc
slot-alone (some none) index channels rest rest' h = cc
slot-alone (some (some ch)) index channels rest rest' h =
    role-alone ch.role ch.settings index channels rest rest' h

-- Any other answer needs only the one for the first primary channel.
inherits-same :
    (index : ℕ) (o : Option ℕ) (rest rest' : ℕ → Option Bool)
    → ((i : ℕ) → o ≡ some i → rest i ≡ rest' i)
    → inherits index o rest ≡ inherits index o rest'
inherits-same index none rest rest' h = refl
inherits-same index (some i) rest rest' h = ap (λ b. if i == index then some true else b) (h i refl)

empty_key-same :
    (role : ChannelRole) (index : ℕ) (channels : ChannelTable) (rest rest' : ℕ → Option Bool)
    → ((i : ℕ) → first_primary 0 channels ≡ some i → rest i ≡ rest' i)
    → empty_key role index channels rest ≡ empty_key role index channels rest'
empty_key-same role_primary index channels rest rest' h = refl
empty_key-same role_disabled index channels rest rest' h = refl
empty_key-same role_secondary index channels rest rest' h =
    inherits-same index (first_primary 0 channels) rest rest' h

settings-same :
    (role : ChannelRole) (settings : Option ChannelSettings) (index : ℕ) (channels : ChannelTable)
    (rest rest' : ℕ → Option Bool)
    → ((i : ℕ) → first_primary 0 channels ≡ some i → rest i ≡ rest' i)
    → settings_public role settings index channels rest
      ≡ settings_public role settings index channels rest'
settings-same role none index channels rest rest' h = refl
settings-same role (some s) index channels rest rest' h =
    ap
      (λ b.
        if length s.psk == 0
        then b
        else if length s.psk == 1
        then some true
        else some (is_default_family s.psk))
      (empty_key-same role index channels rest rest' h)

slot-same :
    (o : Option (Option ChannelSlot)) (index : ℕ) (channels : ChannelTable)
    (rest rest' : ℕ → Option Bool)
    → ((i : ℕ) → first_primary 0 channels ≡ some i → rest i ≡ rest' i)
    → slot_public o index channels rest ≡ slot_public o index channels rest'
slot-same none index channels rest rest' h = refl
slot-same (some none) index channels rest rest' h = refl
slot-same (some (some ch)) index channels rest rest' h = go ch.role
  where
    go :
        (role : ChannelRole)
        → role_public role ch.settings index channels rest
          ≡ role_public role ch.settings index channels rest'
    go role_disabled = refl
    go role_primary = settings-same role_primary ch.settings index channels rest rest' h
    go role_secondary = settings-same role_secondary ch.settings index channels rest rest' h

-- A call with two units of fuel ends.
primary-ends :
    (role : ChannelRole) (settings : Option ChannelSettings) (index : ℕ) (channels : ChannelTable)
    (rest : ℕ → Option Bool)
    → is_primary_role role ≡ true
    → is_some (role_public role settings index channels rest) ≡ true
primary-ends role_disabled settings index channels rest h = cc
primary-ends role_secondary settings index channels rest h = cc
primary-ends role_primary none index channels rest h = refl
primary-ends role_primary (some settings) index channels rest h = ground arith

slot-ends :
    (o : Option (Option ChannelSlot)) (index : ℕ) (channels : ChannelTable) (rest : ℕ → Option Bool)
    → is_primary_slot o ≡ true
    → is_some (slot_public o index channels rest) ≡ true
slot-ends none index channels rest h = cc
slot-ends (some none) index channels rest h = cc
slot-ends (some (some ch)) index channels rest h =
    primary-ends ch.role ch.settings index channels rest h

inherits-ends :
    (index : ℕ) (o : Option ℕ) (rest : ℕ → Option Bool)
    → ((i : ℕ) → o ≡ some i → is_some (rest i) ≡ true)
    → is_some (inherits index o rest) ≡ true
inherits-ends index none rest h = refl
inherits-ends index (some i) rest h = elim (Bool-cases (i == index)) [
  | inl e ↦ rw e refl
  | inr e ↦ rw e (h i refl)
]

settings-ends :
    (role : ChannelRole) (settings : Option ChannelSettings) (index : ℕ) (channels : ChannelTable)
    (rest : ℕ → Option Bool)
    → is_some (empty_key role index channels rest) ≡ true
    → is_some (settings_public role settings index channels rest) ≡ true
settings-ends role none index channels rest h = refl
settings-ends role (some s) index channels rest h = elim (Bool-cases (length s.psk == 0)) [
  | inl e ↦ rw e h
  | inr e ↦ elim (Bool-cases (length s.psk == 1)) [
    | inl e' ↦ rw (e, e') refl
    | inr e' ↦ rw (e, e') refl
  ]
]

call-ends :
    (o : Option (Option ChannelSlot)) (index : ℕ) (channels : ChannelTable) (rest : ℕ → Option Bool)
    → ((i : ℕ) → first_primary 0 channels ≡ some i → is_some (rest i) ≡ true)
    → is_some (slot_public o index channels rest) ≡ true
call-ends none index channels rest h = refl
call-ends (some none) index channels rest h = refl
call-ends (some (some ch)) index channels rest h = go ch.role
  where
    go : (role : ChannelRole) → is_some (role_public role ch.settings index channels rest) ≡ true
    go role_disabled = refl
    go role_primary = settings-ends role_primary ch.settings index channels rest refl
    go role_secondary =
        settings-ends role_secondary ch.settings index channels rest
          (inherits-ends index (first_primary 0 channels) rest h)

-- The first primary channel is one.
pub primary_is_one :
    (channels : ChannelTable) (i : ℕ)
    → first_primary 0 channels ≡ some i
    → is_primary_slot (get_elem? channels i) ≡ true
primary_is_one channels i e =
    let whole : i ≡ i - 0 = omega arith in
    ap (λ n. is_primary_slot (get_elem? channels n)) whole ∙ (primary_found 0 channels i e).1

answered : (o : Option Bool) → is_some o ≡ true → o ≡ some (answer_of o)
answered none h = cc
answered (some public) h = refl

-- ChannelUsesPublicKey ends on every table and every index: with fuel for two nested calls, or for
-- more, it does not run out of it, and what it gives is its answer.
pub uses_public_key-settled :
    (fuel : ℕ) (channels : ChannelTable) (index : ℕ)
    → uses_public_key (suc (suc fuel)) channels index
      ≡ some (channel_uses_public_key channels index)
unfolding channel_uses_public_key uses_public_key
uses_public_key-settled fuel channels index =
    slot-same (get_elem? channels index) index channels (uses_public_key (suc fuel) channels)
      (uses_public_key 1 channels)
      (λ i e.
        slot-alone (get_elem? channels i) i channels (uses_public_key fuel channels)
          (uses_public_key 0 channels) (primary_is_one channels i e))
    ∙ answered (uses_public_key 2 channels index) (
        call-ends (get_elem? channels index) index channels (uses_public_key 1 channels) (λ i e.
          slot-ends (get_elem? channels i) i channels (uses_public_key 0 channels)
            (primary_is_one channels i e)))
