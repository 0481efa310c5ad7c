-- ===== src/Crypto/Keys/Laws.antt =====
-- The short form of a key and its expansion, and the range of the channel hash.
use meshtastic_go.Common.{
  ℕ, zero, suc, ◌≤◌, ◌<◌, bit_xor, ◌≡◌, refl, ap, ◌≢◌, ◌⊎◌, inl, inr, false, ◌&&◌, [], ◌∷◌, ◌++◌,
  arith, ◌==◌, if◌then◌else◌, ==_iff, Bool-cases, length, get_or, take, replicate, All,
  length-append, length-take, Bytes, bytes_eq, bytes_eq_iff,
}
use mathlib.Core.List.{foldl}
use meshtastic_go.Common.ByteStrings.{IsByte}
use meshtastic_go.Common.Bits.{xor-lt}
use meshtastic_go.Crypto.Keys.{default_key, padded, expand_short_psk, try_compact_key, channel_hash}

-- A one-byte key other than 0 comes back from its expansion.
compact-expand : (b : ℕ) → b ≢ 0 → b < 256 → try_compact_key (expand_short_psk (b ∷ [])) ≡ b ∷ []
unfolding try_compact_key expand_short_psk bytes_eq
compact-expand b h lt = ground arith

pub split_last : (n : ℕ) (k : Bytes) → length k ≡ suc n → take n k ++ (get_or k n 0 ∷ []) ≡ k
split_last zero [] h = absurd (omega arith)
split_last zero (b ∷ []) h = refl
split_last zero (b ∷ c ∷ k) h = absurd (omega arith)
split_last (suc n) [] h = absurd (omega arith)
split_last (suc n) (b ∷ k) h = ap (◌∷◌ b) (split_last n k (omega arith))

get_or-IsByte : (n : ℕ) (k : Bytes) → All IsByte k → get_or k n 0 < 256
get_or-IsByte n [] h = omega arith
get_or-IsByte zero (b ∷ k) h = h.0
get_or-IsByte (suc n) (b ∷ k) h = get_or-IsByte n k h.1

-- The key whose short form is the index 0, which stands for no key at all.
abbrev pub index_zero_key : Bytes
index_zero_key = take 15 default_key ++ (0 ∷ [])

expand_long : (k : Bytes) → 16 ≤ length k → expand_short_psk k ≡ k
unfolding expand_short_psk
expand_long [] h = absurd (omega arith)
expand_long (b ∷ []) h = absurd (omega arith)
expand_long (b ∷ c ∷ k) h = ground arith

expand-compact_form :
    (w : ℕ)
    → w < 256
    → expand_short_psk (try_compact_key (take 15 default_key ++ (w ∷ []))) ≡ (
        if bytes_eq (take 15 default_key ++ (w ∷ [])) index_zero_key
        then []
        else take 15 default_key ++ (w ∷ []))
unfolding expand_short_psk try_compact_key bytes_eq
expand-compact_form w h = ground arith

expand-compact_family :
    (k : Bytes)
    → length k ≡ 16
    → All IsByte k
    → take 15 k ≡ take 15 default_key
    → expand_short_psk (try_compact_key k) ≡ (if bytes_eq k index_zero_key then [] else k)
expand-compact_family k len hb e =
    let whole : take 15 default_key ++ (get_or k 15 0 ∷ []) ≡ k = rw e at (split_last 15 k len) in
    rw whole at (expand-compact_form (get_or k 15 0) (get_or-IsByte 15 k hb))

-- Outside the default family.
abbrev IsOther : Bytes → Type 0
IsOther k = (length k ≢ 16) ⊎ (take 15 k ≢ take 15 default_key)

not_index_zero : (k : Bytes) → IsOther k → bytes_eq k index_zero_key ≡ false
not_index_zero k h = elim (Bool-cases (bytes_eq k index_zero_key)) [
  | inl e ↦ absurd (contradicts h ((bytes_eq_iff k index_zero_key).0 e))
  | inr e ↦ e
]
  where
    contradicts : IsOther k → k ≡ index_zero_key → ⊥
    contradicts (inl n) e = n (ap length e)
    contradicts (inr n) e = n (ap (take 15) e)

IsOther-test :
    (k : Bytes) → (length k == 16 && bytes_eq (take 15 k) (take 15 default_key)) ≡ false → IsOther k
IsOther-test k e = elim (Bool-cases (length k == 16)) [
  | inl l ↦ inr (λ p. cc (e, l, (bytes_eq_iff (take 15 k) (take 15 default_key)).1 p))
  | inr l ↦ inl (λ p. cc (l, (==_iff (length k) 16).1 p))
]

compact_other : (k : Bytes) → IsOther k → try_compact_key k ≡ k
unfolding try_compact_key
compact_other k (inl h) = ground arith
compact_other k (inr h) = ground (arith, bytes_eq_iff (take 15 k) (take 15 default_key))

-- A full key comes back from its short form, but for one key of the default family: the one that
-- ends in the byte 0 has the short form 0, which expands to the empty key.
pub expand-compact :
    (k : Bytes)
    → 16 ≤ length k
    → All IsByte k
    → expand_short_psk (try_compact_key k) ≡ (if bytes_eq k index_zero_key then [] else k)
expand-compact k len hb =
    elim (Bool-cases (length k == 16 && bytes_eq (take 15 k) (take 15 default_key))) [
      | inl e ↦
          expand-compact_family k (ground arith) hb
            ((bytes_eq_iff (take 15 k) (take 15 default_key)).0 (ground arith))
      | inr e ↦
          let other = IsOther-test k e in
          rw (compact_other k other, not_index_zero k other) (expand_long k len)
    ]

length-padded : (b c : ℕ) (k : Bytes) → length (padded 16 (b ∷ c ∷ k)) ≡ 16
length-padded b c k =
    omega (arith, length-take 14 (k ++ replicate 16 0), length-append k (replicate 16 0))

-- An expanded key is empty, exactly when the input is the single byte 0, or has at least 16 bytes.
pub length-expand :
    (k : Bytes)
    → (k ≡ 0 ∷ []) × (expand_short_psk k ≡ []) ⊎ (k ≢ 0 ∷ []) × (16 ≤ length (expand_short_psk k))
unfolding expand_short_psk
length-expand [] = ground arith
length-expand (b ∷ []) = ground arith
length-expand (b ∷ c ∷ k) = ground (arith, length-padded b c k)

xor_hash-lt : (p : Bytes) (acc : ℕ) → acc < 256 → All IsByte p → foldl bit_xor acc p < 256
xor_hash-lt [] acc h hs = h
xor_hash-lt (b ∷ p) acc h (hb, hs) = xor_hash-lt p (bit_xor acc b) (xor-lt 8 acc b h hb) hs

-- The channel hash of a name and a key made of bytes fits one byte.
channel_hash-lt :
    (name key : Bytes) → All IsByte name → All IsByte key → channel_hash name key < 256
unfolding channel_hash
channel_hash-lt name key hn hk =
    xor-lt 8 _ _ (xor_hash-lt name 0 (omega arith) hn) (xor_hash-lt key 0 (omega arith) hk)
