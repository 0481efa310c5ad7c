-- ===== src/Transport/Multi/Aggregate.antt =====
-- The state events of a MultiTransport, as its user sees them.
use meshtastic_go.Common.{
  ◌⊎◌, some, get_elem?, ℕ, zero, suc, ◌<◌, ◌≡◌, refl, sym, ap, ◌∙◌, ◌≢◌, inl, inr, Bool, true,
  false, not, ◌||◌, List, [], ◌∷◌, arith, if◌then◌else◌, Bool-cases, length, All,
}
use mathlib.Core.Path.{subst}
use meshtastic_go.Transport.{ListenerEvent, connected, disconnected, reconnecting, failed}
use meshtastic_go.Transport.Multi.{
  Child, MultiTransport, any_up, is_connected, any_other_up, emit, handle_child_state,
}

-- What a child does: it comes up, goes down, reports that it reconnects, after it went down (`retries`)
-- or without a change of its state (`rebinds`, as the UDP transport does while it is connected), or
-- reports an error.
pub data Move : Type 0 where
  comes_up goes_down retries rebinds errs : ℕ → Move

abbrev pub set_up : ℕ → Bool → List Child → List Child
set_up i v [] = []
set_up zero v (e ∷ l) = record e { is_up = v } ∷ l
set_up (suc i) v (e ∷ l) = e ∷ set_up i v l

abbrev pub put : ℕ → Bool → MultiTransport → MultiTransport
put i v m = record m { transports = set_up i v m.transports }

-- A child changes its state and then calls its state handler.
unfoldable pub move : Move → MultiTransport → MultiTransport
unfolding handle_child_state
move (comes_up i) m = handle_child_state i connected (put i true m)
move (goes_down i) m = handle_child_state i disconnected (put i false m)
move (retries i) m = handle_child_state i reconnecting (put i false m)
move (rebinds i) m = handle_child_state i reconnecting m
move (errs i) m = handle_child_state i failed m

abbrev pub run_moves : List Move → MultiTransport → MultiTransport
run_moves [] m = m
run_moves (x ∷ l) m = run_moves l (move x m)

-- Whether some child has reported Reconnecting without going down.
abbrev pub is_rebind : Move → Bool
is_rebind (comes_up i) = false
is_rebind (goes_down i) = false
is_rebind (retries i) = false
is_rebind (rebinds i) = true
is_rebind (errs i) = false

abbrev pub rebound_after : Bool → List Move → Bool
rebound_after rebound [] = rebound
rebound_after rebound (x ∷ l) = rebound_after (is_rebind x || rebound) l

-- What the events, newest first, say of the connection. After Reconnecting it is down, if no child has
-- rebound.
abbrev pub Says : Bool → List ListenerEvent → Bool → Type 0
Says rebound [] up = up ≡ false
Says rebound (connected ∷ l) up = up ≡ true
Says rebound (disconnected ∷ l) up = up ≡ false
Says rebound (reconnecting ∷ l) up = (rebound ≡ true) ⊎ (up ≡ false)
Says rebound (failed ∷ l) up = Says rebound l up

-- The indices of the moves are those of children.
abbrev pub index_of : Move → ℕ
index_of (comes_up i) = i
index_of (goes_down i) = i
index_of (retries i) = i
index_of (rebinds i) = i
index_of (errs i) = i

length-set_up : (i : ℕ) (v : Bool) (l : List Child) → length (set_up i v l) ≡ length l
length-set_up i v [] = refl
length-set_up zero v (e ∷ l) = refl
length-set_up (suc i) v (e ∷ l) = ap suc (length-set_up i v l)

any_up-set_up :
    (i : ℕ) (v : Bool) (l : List Child)
    → i < length l
    → any_up (set_up i v l) ≡ v || any_other_up i l
any_up-set_up i v [] h = absurd (omega arith)
any_up-set_up zero v (e ∷ l) h = refl
any_up-set_up (suc i) true (e ∷ l) h = ground (arith, any_up-set_up i true l (omega arith))
any_up-set_up (suc i) false (e ∷ l) h = rw (any_up-set_up i false l (omega arith)) refl

any_other_up-set_up :
    (i : ℕ) (v : Bool) (l : List Child) → any_other_up i (set_up i v l) ≡ any_other_up i l
any_other_up-set_up i v [] = refl
any_other_up-set_up zero v (e ∷ l) = refl
any_other_up-set_up (suc i) v (e ∷ l) = ap (λ t. e.is_up || t) (any_other_up-set_up i v l)

any_up-other : (i : ℕ) (l : List Child) → any_other_up i l ≡ true → any_up l ≡ true
any_up-other i [] h = h
any_up-other zero (e ∷ l) h = ground arith
any_up-other (suc i) (e ∷ l) h = elim (Bool-cases e.is_up) [
  | inl t ↦ rw t refl
  | inr t ↦ rw t (any_up-other i l (ground arith))
]

-- With the state handler installed, what the events say holds of IsConnected.
abbrev pub Agrees : Bool → MultiTransport → Type 0
Agrees rebound m = (m.state ≡ true) × Says rebound m.emitted (is_connected m)

Says-rebound :
    (rebound : Bool) (l : List ListenerEvent) (up : Bool) → Says rebound l up → Says true l up
Says-rebound rebound [] up h = h
Says-rebound rebound (connected ∷ l) up h = h
Says-rebound rebound (disconnected ∷ l) up h = h
Says-rebound rebound (reconnecting ∷ l) up h = inl refl
Says-rebound rebound (failed ∷ l) up h = Says-rebound rebound l up h

moved-Agrees :
    (rebound : Bool) (i : ℕ) (v : Bool) (event : ListenerEvent) (m : MultiTransport)
    → i < length m.transports
    → Agrees rebound m
    → Says rebound (event ∷ m.emitted) v
    → Agrees rebound (if any_other_up i m.transports then put i v m else emit event (put i v m))
unfolding is_connected
moved-Agrees rebound i v event m h (state, says) e =
    elim (Bool-cases (any_other_up i m.transports)) [
      | inl t ↦ rw t (
        state,
        subst (Says rebound m.emitted)
            (any_up-other i m.transports t ∙ sym (any_up-set_up i v m.transports h ∙ or_true v t))
            says,
      )
      | inr t ↦ rw t (
        state,
        subst (Says rebound (event ∷ m.emitted))
            (sym (any_up-set_up i v m.transports h ∙ or_false v t)) e,
      )
    ]
  where
    or_true : (v : Bool) {o : Bool} → o ≡ true → (v || o) ≡ true
    or_true true e = refl
    or_true false e = e

    or_false : (v : Bool) {o : Bool} → o ≡ false → (v || o) ≡ v
    or_false true e = refl
    or_false false e = e

rebound-Agrees :
    (rebound other : Bool) (m : MultiTransport)
    → Agrees rebound m
    → Agrees true (if other then m else emit reconnecting m)
unfolding is_connected
rebound-Agrees rebound true m (state, says) =
    (state, Says-rebound rebound m.emitted (is_connected m) says)
rebound-Agrees rebound false m (state, says) = (state, inl refl)

-- With the handler installed only the test counts.
past_guard :
    (state test test' : Bool) (x y z : MultiTransport)
    → state ≡ true
    → test ≡ test'
    → (if not state then x else if test then y else z) ≡ (if test' then y else z)
past_guard state test test' x y z h e = rw (h, e) refl

same_length :
    (state test : Bool) (x y : MultiTransport)
    → length y.transports ≡ length x.transports
    → length (if not state then x else if test then x else y).transports ≡ length x.transports
same_length true true x y h = refl
same_length true false x y h = h
same_length false test x y h = refl

ignored_report :
    (state test : Bool) (x y : MultiTransport)
    → test ≡ true
    → (if not state then x else if test then x else y) ≡ x
ignored_report true test x y h = rw h refl
ignored_report false test x y h = refl

move-Agrees :
    (rebound : Bool) (x : Move) (m : MultiTransport)
    → index_of x < length m.transports
    → Agrees rebound m
    → Agrees (is_rebind x || rebound) (move x m)
unfolding move handle_child_state is_connected
move-Agrees rebound (comes_up i) m h (state, says) =
    subst (Agrees rebound)
      (sym (past_guard m.state _ _ _ _ _ state (any_other_up-set_up i true m.transports)))
      (moved-Agrees rebound i true connected m h (state, says) refl)
move-Agrees rebound (goes_down i) m h (state, says) =
    subst (Agrees rebound)
      (sym (past_guard m.state _ _ _ _ _ state (any_up-set_up i false m.transports h)))
      (moved-Agrees rebound i false disconnected m h (state, says) refl)
move-Agrees rebound (retries i) m h (state, says) =
    subst (Agrees rebound)
      (sym (past_guard m.state _ _ _ _ _ state (any_other_up-set_up i false m.transports)))
      (moved-Agrees rebound i false reconnecting m h (state, says) (inr refl))
move-Agrees rebound (rebinds i) m h (state, says) =
    subst (Agrees true)
      (sym (
        past_guard m.state (any_other_up i m.transports) (any_other_up i m.transports) m m
          (emit reconnecting m) state refl))
      (rebound-Agrees rebound (any_other_up i m.transports) m (state, says))
move-Agrees rebound (errs i) m h (state, says) =
    subst (Agrees rebound) (sym (past_guard m.state false false m m (emit failed m) state refl))
      (state, says)

length-move : (x : Move) (m : MultiTransport) → length (move x m).transports ≡ length m.transports
unfolding move handle_child_state
length-move (comes_up i) m =
    same_length m.state (any_other_up i (set_up i true m.transports)) (put i true m)
      (emit connected (put i true m)) refl
    ∙ length-set_up i true m.transports
length-move (goes_down i) m =
    same_length m.state (any_up (set_up i false m.transports)) (put i false m)
      (emit disconnected (put i false m)) refl
    ∙ length-set_up i false m.transports
length-move (retries i) m =
    same_length m.state (any_other_up i (set_up i false m.transports)) (put i false m)
      (emit reconnecting (put i false m)) refl
    ∙ length-set_up i false m.transports
length-move (rebinds i) m =
    same_length m.state (any_other_up i m.transports) m (emit reconnecting m) refl
length-move (errs i) m = same_length m.state false m (emit failed m) refl

run-Agrees :
    (l : List Move) (m : MultiTransport) (rebound : Bool)
    → All (λ x. index_of x < length m.transports) l
    → Agrees rebound m
    → Agrees (rebound_after rebound l) (run_moves l m)
run-Agrees [] m rebound h a = a
run-Agrees (x ∷ l) m rebound (h, hs) a =
    run-Agrees l (move x m) (is_rebind x || rebound)
      (subst (λ n. All (λ x. index_of x < n) l) (sym (length-move x m)) hs)
      (move-Agrees rebound x m h a)

-- A child other than the one at an index is connected.
abbrev pub OtherUp : ℕ → List Child → Type 0
OtherUp i l = (j : ℕ) × (e : Child) × (j ≢ i) × (get_elem? l j ≡ some e) × (e.is_up ≡ true)

any_up-finds :
    (l : List Child)
    → any_up l ≡ true
    → (j : ℕ) × (e : Child) × (get_elem? l j ≡ some e) × (e.is_up ≡ true)
any_up-finds [] h = cc
any_up-finds (e ∷ l) h = elim (Bool-cases e.is_up) [
  | inl t ↦ (0, e, refl, t)
  | inr t ↦ let (j, e', g, u) = any_up-finds l (rw t at h) in (suc j, e', g, u)
]

found-any_up :
    (l : List Child) (j : ℕ) (e : Child) → get_elem? l j ≡ some e → e.is_up ≡ true → any_up l ≡ true
found-any_up [] j e g u = cc
found-any_up (x ∷ l) zero e g u = ground arith
found-any_up (x ∷ l) (suc j) e g u = elim (Bool-cases x.is_up) [
  | inl t ↦ rw t refl
  | inr t ↦ rw t (found-any_up l j e g u)
]

any_other_up-OtherUp : (i : ℕ) (l : List Child) → any_other_up i l ≡ true → OtherUp i l
any_other_up-OtherUp i [] h = cc
any_other_up-OtherUp zero (e ∷ l) h =
    let (j, e', g, u) = any_up-finds l h in (suc j, e', (λ p. absurd (omega (arith, p))), g, u)
any_other_up-OtherUp (suc i) (e ∷ l) h = elim (Bool-cases e.is_up) [
  | inl t ↦ (0, e, (λ p. absurd (omega (arith, p))), refl, t)
  | inr t ↦
      let (j, e', d, g, u) = any_other_up-OtherUp i l (rw t at h) in
      (suc j, e', (λ p. d (omega (arith, p))), g, u)
]

OtherUp-any_other_up : (i : ℕ) (l : List Child) → OtherUp i l → any_other_up i l ≡ true
OtherUp-any_other_up i [] (j, e, d, g, u) = cc
OtherUp-any_other_up zero (x ∷ l) (zero, e, d, g, u) = absurd (d refl)
OtherUp-any_other_up zero (x ∷ l) (suc j, e, d, g, u) = found-any_up l j e g u
OtherUp-any_other_up (suc i) (x ∷ l) (zero, e, d, g, u) = ground arith
OtherUp-any_other_up (suc i) (x ∷ l) (suc j, e, d, g, u) = elim (Bool-cases x.is_up) [
  | inl t ↦ rw t refl
  | inr t ↦ rw t (OtherUp-any_other_up i l (j, e, (λ p. d (ap suc p)), g, u))
]

-- A Reconnecting report is passed on exactly when no other child is connected.
abbrev pub Reports : ℕ → MultiTransport → Type 0
Reports i m =
    (OtherUp i m.transports × (handle_child_state i reconnecting m ≡ m))
    ⊎ ((¬ OtherUp i m.transports) × (handle_child_state i reconnecting m ≡ emit reconnecting m))

state-Reports : (i : ℕ) (m : MultiTransport) → m.state ≡ true → Reports i m
unfolding handle_child_state
state-Reports i m state = elim (Bool-cases (any_other_up i m.transports)) [
  | inl t ↦ inl (
    any_other_up-OtherUp i m.transports t,
    past_guard m.state _ true m m (emit reconnecting m) state t,
  )
  | inr t ↦ inr (
    (λ o. absurd (cc (OtherUp-any_other_up i m.transports o, t))),
    past_guard m.state _ false m m (emit reconnecting m) state t,
  )
]

-- Once the state handler is installed and the events agree with IsConnected, they agree after any
-- moves of the children, in any order, when every child reports a move before the next move. The last
-- event that is not an error says so: after Connected some child is connected, and after
-- Disconnected, or before any event, none is; nor is one after Reconnecting, unless a child reported
-- it without going down. A child that then reports Reconnecting is passed on, whatever its own state,
-- exactly when no other child is connected.
pub run_moves-Agrees :
    (l : List Move) (m : MultiTransport) (rebound : Bool) (i : ℕ)
    → All (λ x. index_of x < length m.transports) l
    → Agrees rebound m
    → Agrees (rebound_after rebound l) (run_moves l m) × Reports i (run_moves l m)
run_moves-Agrees l m rebound i h a =
    let (state, says) = run-Agrees l m rebound h a in
    ((state, says), state-Reports i (run_moves l m) state)

any_other_up-put :
    (i j : ℕ) (l : List Child) → i ≢ j → j < length l → any_other_up i (set_up j true l) ≡ true
any_other_up-put i j [] d h = absurd (omega arith)
any_other_up-put zero zero (e ∷ l) d h = absurd (d refl)
any_other_up-put zero (suc j) (e ∷ l) d h = any_up-set_up j true l (omega arith)
any_other_up-put (suc i) zero (e ∷ l) d h = refl
any_other_up-put (suc i) (suc j) (e ∷ l) d h = elim (Bool-cases e.is_up) [
  | inl t ↦ rw t refl
  | inr t ↦ rw t (any_other_up-put i j l (λ p. d (ap suc p)) (omega arith))
]

-- When two children come up before either has reported it, neither report is passed on: the
-- transport is connected, and its user is not told.
pub lost_connected :
    (i j : ℕ) (m : MultiTransport)
    → i ≢ j
    → i < length m.transports
    → j < length m.transports
    → let both = put j true (put i true m) in
      let reported = handle_child_state j connected (handle_child_state i connected both) in
      (reported ≡ both) × (is_connected reported ≡ true)
unfolding handle_child_state is_connected
lost_connected i j m d hi hj =
    let l = set_up i true m.transports in
    let both = put j true (put i true m) in
    let other : any_other_up i (set_up j true l) ≡ true =
      any_other_up-put i j l d (rw (length-set_up i true m.transports) hj) in
    let other' : any_other_up j (set_up j true l) ≡ true =
      any_other_up-set_up j true l ∙ any_other_up-put j i m.transports (λ p. d (sym p)) hi in
    let first = ignored_report m.state _ both (emit connected both) other in
    let second = ignored_report m.state _ both (emit connected both) other' in
    (
      ap (handle_child_state j connected) first ∙ second,
      ap is_connected (ap (handle_child_state j connected) first ∙ second)
          ∙ any_up-set_up j true l (rw (length-set_up i true m.transports) hj),
    )
