-- ===== src/Channel/Pairs.antt =====
-- Lookups after Register: by name and key the registry is a map, and by name alone it answers only
-- where the name is unambiguous.
use meshtastic_go.Common.{
  ℕ, ◌≤◌, ◌≡◌, refl, ap, ◌∙◌, ◌≢◌, ◌⊎◌, inl, inr, Bool, true, false, ◌&&◌, none, some, List, [],
  ◌∷◌, ◌++◌, arith, if◌then◌else◌, Bool-cases, length, select, find_first, Bytes, bytes_eq,
  bytes_eq_iff,
}
use meshtastic_go.Common.Dict.{nat_eq, bytes_key}
use meshtastic_go.Crypto.Keys.{expand_short_psk}
use meshtastic_go.Channel.{
  ChannelDef, same_def, ChannelRegistry, replace_same, replace_first, register, found, not_found,
  ambiguous, resolve, resolve_by_name, lookup_pair,
}
use meshtastic_go.Channel.Indexed.{
  IsHashed, has_name, IsIndexed, AllUnlike, same_def-name, same_def-key, register-IsIndexed,
  order-register,
}

abbrev is_pair : Bytes → Bytes → ChannelDef → Bool
is_pair n k c = bytes_eq c.name n && bytes_eq c.key_bytes k

find_first-select :
    (p q : ChannelDef → Bool) (l : List ChannelDef)
    → find_first q (select p l) ≡ find_first (λ c. p c && q c) l
find_first-select p q [] = refl
find_first-select p q (c ∷ l) = ground (arith, find_first-select p q l)

-- LookupPair in terms of the list of registered channels.
lookup_pair-order :
    (n k : Bytes) (r : ChannelRegistry)
    → IsIndexed r
    → lookup_pair n k r ≡ find_first (is_pair n (expand_short_psk k)) r.order
unfolding lookup_pair
lookup_pair-order n k r i =
    ap (find_first (λ ch. bytes_eq ch.key_bytes (expand_short_psk k))) (i.names n)
    ∙ find_first-select (has_name n) (λ ch. bytes_eq ch.key_bytes (expand_short_psk k)) r.order

find_first-append :
    (n k : Bytes) (l : List ChannelDef) (ch : ChannelDef)
    → AllUnlike l ch
    → find_first (is_pair n k) (l ++ (ch ∷ []))
      ≡ (if is_pair n k ch then some ch else find_first (is_pair n k) l)
find_first-append n k [] ch u = refl
find_first-append n k (x ∷ l) ch (ux, u) = ground (
  arith,
  find_first-append n k l ch u,
  bytes_eq_iff x.name n,
  bytes_eq_iff ch.name n,
  bytes_eq_iff x.name ch.name,
  bytes_eq_iff x.key_bytes k,
  bytes_eq_iff ch.key_bytes k,
  bytes_eq_iff x.key_bytes ch.key_bytes,
)

find_first-replace_other :
    (n k : Bytes) (l : List ChannelDef) (ch : ChannelDef)
    → is_pair n k ch ≡ false
    → find_first (is_pair n k) (replace_same l ch) ≡ find_first (is_pair n k) l
unfolding replace_same
find_first-replace_other n k [] ch e = refl
find_first-replace_other n k (x ∷ l) ch e = elim (Bool-cases (same_def x ch)) [
  | inl s ↦
      let e' : is_pair n k x ≡ false = rw (same_def-name x ch s, same_def-key x ch s) e in
      rw (s) (ground (arith, find_first-replace_other n k l ch e, e, e'))
  | inr s ↦ rw s (ground (arith, find_first-replace_other n k l ch e))
]

not_pair :
    (n k : Bytes) (x ch : ChannelDef)
    → same_def x ch ≡ false
    → is_pair n k ch ≡ true
    → is_pair n k x ≡ false
not_pair n k x ch s e = ground (
  arith,
  bytes_eq_iff x.name n,
  bytes_eq_iff ch.name n,
  bytes_eq_iff x.name ch.name,
  bytes_eq_iff x.key_bytes k,
  bytes_eq_iff ch.key_bytes k,
  bytes_eq_iff x.key_bytes ch.key_bytes,
)

find_first-replace_self :
    (n k : Bytes) (l : List ChannelDef) (ch : ChannelDef)
    → is_pair n k ch ≡ true
    → replace_first l ch ≢ none
    → find_first (is_pair n k) (replace_same l ch) ≡ some ch
unfolding replace_same replace_first
find_first-replace_self n k [] ch e h = absurd (h refl)
find_first-replace_self n k (x ∷ l) ch e h = elim (Bool-cases (same_def x ch)) [
  | inl s ↦ rw (s, e)
  | inr s ↦ rw (s, not_pair n k x ch s e) (find_first-replace_self n k l ch e (λ q. h (rw (s, q))))
]

-- The lookup of a name and key after Register of `ch`: the new definition if they are its own, the
-- key given in full or in its short form, and what it was before if not.
pub lookup_pair-register :
    (n k : Bytes) (ch : ChannelDef) (r : ChannelRegistry)
    → IsIndexed r
    → IsHashed ch
    → lookup_pair n k (register ch r) ≡ (
        if bytes_eq ch.name n && bytes_eq ch.key_bytes (expand_short_psk k)
        then some ch
        else lookup_pair n k r)
lookup_pair-register n k ch r i hc =
    let w = expand_short_psk k in
    let now = lookup_pair-order n k (register ch r) (register-IsIndexed ch r i hc) in
    let before = lookup_pair-order n k r i in
    elim (order-register ch r i) [
      | inl (e, u) ↦ rw (now, e, before) (find_first-append n w r.order ch u)
      | inr (e, found_it) ↦
          rw (now, e, before)
            (elim (Bool-cases (is_pair n w ch)) [
              | inl t ↦ rw t (find_first-replace_self n w r.order ch t found_it)
              | inr f ↦ rw f (find_first-replace_other n w r.order ch f)
            ])
    ]

-- How many registered channels carry a name.
abbrev pub carrying : Bytes → ChannelRegistry → ℕ
carrying n r = length (select (has_name n) r.order)

-- ResolveByName says that there is no channel, or that the name is ambiguous, exactly when no
-- registered channel carries the name, or several do; else it gives the one that does, and so does
-- the list of those channels.
resolve_by_name_cases :
    (n : Bytes) (r : ChannelRegistry)
    → IsIndexed r
    → ((resolve_by_name n r ≡ not_found) × (carrying n r ≡ 0))
      ⊎ ((resolve_by_name n r ≡ ambiguous) × (2 ≤ carrying n r))
      ⊎ ((c : ChannelDef) × (resolve_by_name n r ≡ found c)
          × (select (has_name n) r.order ≡ c ∷ []))
unfolding resolve_by_name
resolve_by_name_cases n r i = rw (i.names n) (cases (select (has_name n) r.order))
  where
    cases :
        (l : List ChannelDef)
        → ((resolve l ≡ not_found) × (length l ≡ 0))
          ⊎ ((resolve l ≡ ambiguous) × (2 ≤ length l))
          ⊎ ((c : ChannelDef) × (resolve l ≡ found c) × (l ≡ c ∷ []))
    cases [] = inl (refl, refl)
    cases (c ∷ []) = inr (inr (c, refl, refl))
    cases (c ∷ d ∷ l) = inr (inl (refl, omega arith))
