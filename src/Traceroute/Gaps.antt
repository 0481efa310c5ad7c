-- ===== src/Traceroute/Gaps.antt =====
-- Routes with gaps filled.
use meshtastic_go.Common.{
  ℕ, zero, suc, ◌+◌, ◌-◌, ◌≤◌, ◌≡◌, refl, sym, ap, ◌∙◌, inl, inr, Bool, false, not, List, [], ◌∷◌,
  ◌++◌, arith, ltb, ◌==◌, Bool-cases, length, replicate, select, length-append,
}
use Prim.Native.Nat.{max}
use meshtastic_go.Common.{length-replicate}
use meshtastic_go.Common.Lists.{select-append}
use meshtastic_go.Traceroute.{Hop, unknown_hop, but_last, last_of, insert_unknown}

abbrev pub is_known : Hop → Bool
is_known h = not h.unknown

but_last-last : (l : List Hop) → but_last l ++ last_of l ≡ l
but_last-last [] = refl
but_last-last (h ∷ []) = refl
but_last-last (h ∷ next ∷ l) = ap (λ m. h ∷ m) (but_last-last (next ∷ l))

select-unknown : (n : ℕ) → select is_known (replicate n unknown_hop) ≡ []
select-unknown zero = refl
select-unknown (suc n) = select-unknown n

last_of-append : (a b : List Hop) → 1 ≤ length b → last_of (a ++ b) ≡ last_of b
last_of-append [] b h = refl
last_of-append (x ∷ []) [] h = absurd (omega arith)
last_of-append (x ∷ []) (y ∷ b) h = refl
last_of-append (x ∷ x' ∷ a) b h = last_of-append (x' ∷ a) b h

last_of-last : (l : List Hop) → last_of (last_of l) ≡ last_of l
last_of-last [] = refl
last_of-last (h ∷ []) = refl
last_of-last (h ∷ next ∷ l) = last_of-last (next ∷ l)

length-last_of : (l : List Hop) → 1 ≤ length l → length (last_of l) ≡ 1
length-last_of [] h = absurd (omega arith)
length-last_of (x ∷ []) h = refl
length-last_of (x ∷ next ∷ l) h = length-last_of (next ∷ l) (omega arith)

-- The route with a block of unknown hops before its last one.
filled : (hops : List Hop) (n : ℕ) → List Hop
filled hops n = but_last hops ++ (replicate n unknown_hop ++ last_of hops)

filled-keeps :
    (hops : List Hop) (n : ℕ)
    → 2 ≤ length hops
    → (length (filled hops n) ≡ length hops + n)
      × (select is_known (filled hops n) ≡ select is_known hops)
      × (last_of (filled hops n) ≡ last_of hops)
unfolding filled
filled-keeps hops n h =
    let head = but_last hops in
    let gap = replicate n unknown_hop in
    let last = last_of hops in
    let one : length last ≡ 1 = length-last_of hops (omega arith) in
    let whole : length head + length last ≡ length hops =
      sym (length-append head last) ∙ ap length (but_last-last hops) in
    let tail : 1 ≤ length (gap ++ last) = omega (arith, length-append gap last, one) in
    (
      omega (
        arith,
        length-append head (gap ++ last),
        length-append gap last,
        length-replicate n unknown_hop,
        whole,
      ),
      select-append is_known head (gap ++ last)
          ∙ (ap (λ l. select is_known head ++ l)
                (select-append is_known gap last
                  ∙ ap (λ l. l ++ select is_known last) (select-unknown n))
              ∙ (sym (select-append is_known head last)
                  ∙ ap (select is_known) (but_last-last hops))),
      last_of-append head (gap ++ last) tail
          ∙ (last_of-append gap last (omega (arith, one)) ∙ last_of-last hops),
    )

-- Filling the gaps of a route with at least its two ends neither drops nor reorders a known hop, and
-- keeps the last hop; the route then has a hop for each expected one, of which the last hop is one, and
-- one for the sender, unless it was longer already.
pub insert_unknown-keeps :
    (hops : List Hop) (expected : ℕ)
    → 2 ≤ length hops
    → (length (insert_unknown hops expected) ≡ max (length hops) (expected + 1))
      × (select is_known (insert_unknown hops expected) ≡ select is_known hops)
      × (last_of (insert_unknown hops expected) ≡ last_of hops)
unfolding insert_unknown filled
insert_unknown-keeps hops expected h =
    let missing = expected + 1 - length hops in
    let two : ltb (length hops) 2 ≡ false = ground arith in
    let (len, known, last) = filled-keeps hops missing h in
    elim (Bool-cases (missing == 0)) [
      | inl e ↦ rw (two, e) (ground arith, refl, refl)
      | inr e ↦ rw (two, e) (ground (arith, len), known, last)
    ]
