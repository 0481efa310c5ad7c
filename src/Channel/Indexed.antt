-- ===== src/Channel/Indexed.antt =====
-- The registry's two indexes hold, for each hash and each name, the channels of the list `order`
-- that carry it, in registration order, and no channel is listed twice.
use meshtastic_go.Common.{
  ℕ, ◌≡◌, refl, sym, ap, ◌∙◌, ◌≢◌, ◌⊎◌, inl, inr, Bool, true, false, none, some, List, [], ◌∷◌,
  ◌++◌, arith, ◌==◌, if◌then◌else◌, ==_iff, Bool-cases, select, All, select-append, All-append,
  Bytes, bytes_eq, bytes_eq_iff, bytes_eq_refl,
}
use mathlib.Core.List.{append-nil}
use meshtastic_go.Common.Dict.{lookup, insert, nat_eq, bytes_key, lookup-insert}
use meshtastic_go.Crypto.Keys.{channel_hash}
use meshtastic_go.Channel.{
  ChannelDef, same_def, ChannelRegistry, new_channel_registry, or_empty, with_hash, with_name,
  replace_same, replace_first, register_in, register,
}

-- The hash is that of the name and the key, as every definition of the library computes it.
abbrev pub IsHashed : ChannelDef → Type 0
IsHashed c = c.hash ≡ channel_hash c.name c.key_bytes

abbrev pub has_hash : ℕ → ChannelDef → Bool
has_hash h c = c.hash == h

abbrev pub has_name : Bytes → ChannelDef → Bool
has_name n c = bytes_eq c.name n

-- No two entries have one name and key.
abbrev pub Distinct : List ChannelDef → Type 0
Distinct [] = Unit
Distinct (c ∷ l) = All (λ d. same_def c d ≡ false) l × Distinct l

pub record IsIndexed (r : ChannelRegistry) : Type 0 where
  pub hashes : (h : ℕ) → with_hash h r ≡ select (has_hash h) r.order
  pub names : (n : Bytes) → with_name n r ≡ select (has_name n) r.order
  pub distinct : Distinct r.order
  pub hashed : All IsHashed r.order

pub same_def-name : (c d : ChannelDef) → same_def c d ≡ true → c.name ≡ d.name
same_def-name c d h = (bytes_eq_iff c.name d.name).0 (ground arith)

pub same_def-key : (c d : ChannelDef) → same_def c d ≡ true → c.key_bytes ≡ d.key_bytes
same_def-key c d h = (bytes_eq_iff c.key_bytes d.key_bytes).0 (ground arith)

pub same_def-hash :
    (c d : ChannelDef) → IsHashed c → IsHashed d → same_def c d ≡ true → c.hash ≡ d.hash
same_def-hash c d hc hd e = cc (hc, hd, same_def-name c d e, same_def-key c d e)

-- A test that does not tell `ch` from a same channel in the list.
abbrev Respects : (ChannelDef → Bool) → ChannelDef → List ChannelDef → Type 0
Respects p ch = All (λ x. same_def x ch ≡ true → p x ≡ p ch)

select-replace :
    (p : ChannelDef → Bool) (ch : ChannelDef) (l : List ChannelDef)
    → p ch ≡ true
    → Respects p ch l
    → select p (replace_same l ch) ≡ replace_same (select p l) ch
unfolding replace_same
select-replace p ch [] e h = refl
select-replace p ch (x ∷ l) e (hx, h) = ground (arith, select-replace p ch l e h)

select-replace_other :
    (p : ChannelDef → Bool) (ch : ChannelDef) (l : List ChannelDef)
    → p ch ≡ false
    → Respects p ch l
    → select p (replace_same l ch) ≡ select p l
unfolding replace_same
select-replace_other p ch [] e h = refl
select-replace_other p ch (x ∷ l) e (hx, h) = ground (arith, select-replace_other p ch l e h)

none_same :
    (l : List ChannelDef) (ch : ChannelDef)
    → All (λ x. same_def x ch ≡ false) l
    → replace_same l ch ≡ l
unfolding replace_same
none_same [] ch h = refl
none_same (x ∷ l) ch (hx, h) = ground (arith, none_same l ch h)

same_def_refl : (c : ChannelDef) → same_def c c ≡ true
same_def_refl c = cc (bytes_eq_refl c.name, bytes_eq_refl c.key_bytes)

same_def_cong : (c d x : ChannelDef) → same_def c d ≡ true → same_def c x ≡ same_def d x
same_def_cong c d x h = cc (same_def-name c d h, same_def-key c d h)

same_def_right : (x c d : ChannelDef) → same_def c d ≡ true → same_def x c ≡ same_def x d
same_def_right x c d h = cc (same_def-name c d h, same_def-key c d h)

unlike_cong :
    (c d : ChannelDef) (l : List ChannelDef)
    → same_def c d ≡ true
    → All (λ x. same_def c x ≡ false) l
    → All (λ x. same_def d x ≡ false) l
unlike_cong c d [] e h = tt
unlike_cong c d (x ∷ l) e (hx, h) = (sym (same_def_cong c d x e) ∙ hx, unlike_cong c d l e h)

unlike :
    (c d : ChannelDef) (l : List ChannelDef)
    → same_def c d ≡ true
    → All (λ x. same_def c x ≡ false) l
    → All (λ x. same_def x d ≡ false) l
unlike c d [] e h = tt
unlike c d (x ∷ l) e (hx, h) = (
  ground (
    arith,
    bytes_eq_iff c.name x.name,
    bytes_eq_iff x.name d.name,
    bytes_eq_iff c.name d.name,
    bytes_eq_iff c.key_bytes x.key_bytes,
    bytes_eq_iff x.key_bytes d.key_bytes,
    bytes_eq_iff c.key_bytes d.key_bytes,
  ),
  unlike c d l e h,
)

abbrev pub AllUnlike : List ChannelDef → ChannelDef → Type 0
AllUnlike l ch = All (λ x. same_def x ch ≡ false) l

-- In a list of distinct channels the loop of Register replaces the one same channel there is.
pub replace_first_cases :
    (l : List ChannelDef) (ch : ChannelDef)
    → Distinct l
    → ((replace_first l ch ≡ none) × AllUnlike l ch)
      ⊎ (replace_first l ch ≡ some (replace_same l ch))
unfolding replace_first replace_same
replace_first_cases [] ch h = inl (refl, tt)
replace_first_cases (x ∷ l) ch (hx, h) = elim (Bool-cases (same_def x ch)) [
  | inl e ↦ inr (rw e (rw (none_same l ch (unlike x ch l e hx))))
  | inr e ↦ elim (replace_first_cases l ch h) [
    | inl (q, u) ↦ inl (rw (e, q), (e, u))
    | inr q ↦ inr (rw (e, q))
  ]
]

Distinct-append :
    (l : List ChannelDef) (ch : ChannelDef)
    → Distinct l
    → AllUnlike l ch
    → Distinct (l ++ (ch ∷ []))
Distinct-append [] ch h u = (tt, tt)
Distinct-append (x ∷ l) ch (hx, h) (ux, u) =
    (All-append (λ d. same_def x d ≡ false) l (ch ∷ []) hx (ux, tt), Distinct-append l ch h u)

-- Replacing keeps which entries are the same as `c`.
unlike-replace :
    (c ch : ChannelDef) (l : List ChannelDef)
    → All (λ d. same_def c d ≡ false) l
    → All (λ d. same_def c d ≡ false) (replace_same l ch)
unfolding replace_same
unlike-replace c ch [] h = tt
unlike-replace c ch (x ∷ l) (hx, h) = elim (Bool-cases (same_def x ch)) [
  | inl e ↦ rw e (sym (same_def_right c x ch e) ∙ hx, unlike-replace c ch l h)
  | inr e ↦ rw e (hx, unlike-replace c ch l h)
]

Distinct-replace :
    (l : List ChannelDef) (ch : ChannelDef) → Distinct l → Distinct (replace_same l ch)
unfolding replace_same
Distinct-replace [] ch h = tt
Distinct-replace (x ∷ l) ch (hx, h) =
    let kept = unlike-replace x ch l hx in
    elim (Bool-cases (same_def x ch)) [
      | inl e ↦ rw e (unlike_cong x ch (replace_same l ch) e kept, Distinct-replace l ch h)
      | inr e ↦ rw e (kept, Distinct-replace l ch h)
    ]

IsHashed-replace :
    (l : List ChannelDef) (ch : ChannelDef)
    → IsHashed ch
    → All IsHashed l
    → All IsHashed (replace_same l ch)
unfolding replace_same
IsHashed-replace [] ch hc h = tt
IsHashed-replace (x ∷ l) ch hc (hx, h) = ground (arith, IsHashed-replace l ch hc h)

module _ (p : ChannelDef → Bool) (ch : ChannelDef) where
  -- The index entry after Register, in both of its cases.
  index_replaced :
      (l index : List ChannelDef)
      → index ≡ select p l
      → Respects p ch l
      → (if p ch then replace_same index ch else index) ≡ select p (replace_same l ch)
  index_replaced l index e h = elim (Bool-cases (p ch)) [
    | inl t ↦ rw (t, e) (sym (select-replace p ch l t h))
    | inr f ↦ rw (f, e) (sym (select-replace_other p ch l f h))
  ]

  index_appended :
      (l index : List ChannelDef)
      → index ≡ select p l
      → (if p ch then index ++ (ch ∷ []) else index) ≡ select p (l ++ (ch ∷ []))
  index_appended l index e = elim (Bool-cases (p ch)) [
    | inl t ↦ rw (t, select-append, t, e)
    | inr f ↦ rw (f, select-append, f, e, append-nil)
  ]

hash-Respects :
    (h : ℕ) (ch : ChannelDef) (l : List ChannelDef)
    → IsHashed ch
    → All IsHashed l
    → Respects (has_hash h) ch l
hash-Respects h ch [] hc hl = tt
hash-Respects h ch (x ∷ l) hc (hx, hl) =
    ((λ e. ap (λ t. t == h) (same_def-hash x ch hx hc e)), hash-Respects h ch l hc hl)

name-Respects : (n : Bytes) (ch : ChannelDef) (l : List ChannelDef) → Respects (has_name n) ch l
name-Respects n ch [] = tt
name-Respects n ch (x ∷ l) =
    ((λ e. ap (λ t. bytes_eq t n) (same_def-name x ch e)), name-Respects n ch l)

-- A map entry written at the key of `ch` and read at any key.
with_hash-insert :
    (h : ℕ) (ch : ChannelDef) (l : List ChannelDef) (r : ChannelRegistry)
    → or_empty (lookup h (insert ch.hash l r.by_hash))
      ≡ (if has_hash h ch then l else with_hash h r)
with_hash-insert h ch l r = ground (arith, lookup-insert ch.hash h l r.by_hash)

with_name-insert :
    (n : Bytes) (ch : ChannelDef) (l : List ChannelDef) (r : ChannelRegistry)
    → or_empty (lookup n (insert ch.name l r.by_name))
      ≡ (if has_name n ch then l else with_name n r)
with_name-insert n ch l r = ground (arith, lookup-insert ch.name n l r.by_name)

module _ (F : List ChannelDef → List ChannelDef) (ch : ChannelDef) (r : ChannelRegistry) where
  -- Where the key is that of `ch`, so is the entry that Register changes.
  at_hash :
      (h : ℕ)
      → (if has_hash h ch then F (with_hash ch.hash r) else with_hash h r)
        ≡ (if has_hash h ch then F (with_hash h r) else with_hash h r)
  at_hash h = elim (Bool-cases (has_hash h ch)) [
    | inl t ↦ rw t (ap (λ k. F (with_hash k r)) ((==_iff ch.hash h).0 t))
    | inr f ↦ rw f
  ]

  at_name :
      (n : Bytes)
      → (if has_name n ch then F (with_name ch.name r) else with_name n r)
        ≡ (if has_name n ch then F (with_name n r) else with_name n r)
  at_name n = elim (Bool-cases (has_name n ch)) [
    | inl t ↦ rw t (ap (λ k. F (with_name k r)) ((bytes_eq_iff ch.name n).0 t))
    | inr f ↦ rw f
  ]

module _ (ch : ChannelDef) (r : ChannelRegistry) (i : IsIndexed r) (hc : IsHashed ch) where
  append-IsIndexed : AllUnlike r.order ch → IsIndexed (register_in none ch r)
  unfolding register_in
  append-IsIndexed u = record {
    hashes = λ h.
        with_hash-insert h ch (with_hash ch.hash r ++ (ch ∷ [])) r
        ∙ at_hash (λ l. l ++ (ch ∷ [])) ch r h
        ∙ index_appended (has_hash h) ch r.order (with_hash h r) (i.hashes h);
    names = λ n.
        with_name-insert n ch (with_name ch.name r ++ (ch ∷ [])) r
        ∙ at_name (λ l. l ++ (ch ∷ [])) ch r n
        ∙ index_appended (has_name n) ch r.order (with_name n r) (i.names n);
    distinct = Distinct-append r.order ch i.distinct u;
    hashed = All-append IsHashed r.order (ch ∷ []) i.hashed (hc, tt);
  }

  replace-IsIndexed : IsIndexed (register_in (some (replace_same r.order ch)) ch r)
  unfolding register_in
  replace-IsIndexed = record {
    hashes = λ h.
        with_hash-insert h ch (replace_same (with_hash ch.hash r) ch) r
        ∙ at_hash (λ l. replace_same l ch) ch r h
        ∙ index_replaced (has_hash h) ch r.order (with_hash h r) (i.hashes h)
            (hash-Respects h ch r.order hc i.hashed);
    names = λ n.
        with_name-insert n ch (replace_same (with_name ch.name r) ch) r
        ∙ at_name (λ l. replace_same l ch) ch r n
        ∙ index_replaced (has_name n) ch r.order (with_name n r) (i.names n)
            (name-Respects n ch r.order);
    distinct = Distinct-replace r.order ch i.distinct;
    hashed = IsHashed-replace r.order ch hc i.hashed;
  }

pub new_channel_registry-IsIndexed : IsIndexed new_channel_registry
unfolding new_channel_registry lookup
new_channel_registry-IsIndexed = record {
  hashes = λ h. refl;
  names = λ n. refl;
  distinct = tt;
  hashed = tt;
}

-- Register keeps a registry well indexed: the entry of each hash and each name lists exactly the
-- registered channels that carry it, in registration order, and no name and key are registered
-- twice. The hash of the new definition is that of its name and key.
pub register-IsIndexed :
    (ch : ChannelDef) (r : ChannelRegistry) → IsIndexed r → IsHashed ch → IsIndexed (register ch r)
unfolding register
register-IsIndexed ch r i hc = elim (replace_first_cases r.order ch i.distinct) [
  | inl (e, u) ↦ rw e (append-IsIndexed ch r i hc u)
  | inr e ↦ rw e (replace-IsIndexed ch r i hc)
]

-- Register puts `ch` in the place of the same channel, or else at the end.
pub order-register :
    (ch : ChannelDef) (r : ChannelRegistry)
    → IsIndexed r
    → (((register ch r).order ≡ r.order ++ (ch ∷ [])) × AllUnlike r.order ch)
      ⊎ ((register ch r).order ≡ replace_same r.order ch) × (replace_first r.order ch ≢ none)
unfolding register register_in
order-register ch r i = elim (replace_first_cases r.order ch i.distinct) [
  | inl (e, u) ↦ inl (rw e, u)
  | inr e ↦ inr (rw e, λ q. cc (e, q))
]
