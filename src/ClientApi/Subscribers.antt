-- ===== src/ClientApi/Subscribers.antt =====
-- device/clientapi/server.go: the subscribers, one buffered channel for each connected client, and what
-- the writers of the connections take from them.
use meshtastic_go.Common.{
  ℕ, ◌≤◌, ◌≡◌, refl, sym, ap, ◌∙◌, inl, inr, Bool, not, List, [], ◌∷◌, ◌++◌, map, arith, ltb, ◌==◌,
  if◌then◌else◌, Bool-cases, length, select, All, length-append,
}
use mathlib.Core.Path.{subst}
use mathlib.Core.List.{append-nil, append_assoc}
use meshtastic_go.Common.Tests.{ltb→lt}
use meshtastic_go.ClientApi.{subscriber_buffer_size}
use meshtastic_go.Proto.{FromRadio}

-- A client's channel: what is buffered, and what its writer has taken, both oldest first.
pub record Subscriber : Type 0 where
  pub id : ℕ
  pub buffer : List FromRadio
  pub taken : List FromRadio

-- `subscribers` lists the clients that are connected.
abbrev pub add_subscriber : ℕ → List Subscriber → List Subscriber
add_subscriber id l = record { id = id; buffer = []; taken = [] } ∷ l

abbrev pub remove_subscriber : ℕ → List Subscriber → List Subscriber
remove_subscriber id l = select (λ s. not (s.id == id)) l

-- The send that does not wait.
abbrev pub offer : FromRadio → Subscriber → Subscriber
offer msg s =
    if ltb (length s.buffer) subscriber_buffer_size
    then record s { buffer = s.buffer ++ (msg ∷ []) }
    else s

unfoldable pub dispatch_to_clients : FromRadio → List Subscriber → List Subscriber
dispatch_to_clients msg l = map (offer msg) l

abbrev take_next : Subscriber → List FromRadio → Subscriber
take_next s [] = s
take_next s (msg ∷ rest) = record s { buffer = rest; taken = s.taken ++ (msg ∷ []) }

-- A turn of the writer of a client.
abbrev pub write_next : ℕ → Subscriber → Subscriber
write_next id s = if s.id == id then take_next s s.buffer else s

pub data ServerMove : Type 0 where
  subscribe unsubscribe writes : ℕ → ServerMove
  dispatch : FromRadio → ServerMove

unfoldable pub server_move : ServerMove → List Subscriber → List Subscriber
unfolding dispatch_to_clients
server_move (subscribe id) l = add_subscriber id l
server_move (unsubscribe id) l = remove_subscriber id l
server_move (writes id) l = map (write_next id) l
server_move (dispatch msg) l = dispatch_to_clients msg l

abbrev pub server_moves : List ServerMove → List Subscriber → List Subscriber
server_moves [] l = l
server_moves (x ∷ xs) l = server_moves xs (server_move x l)

-- The messages of the moves that dispatch one, in order.
abbrev pub dispatched : List ServerMove → List FromRadio
dispatched [] = []
dispatched (subscribe id ∷ xs) = dispatched xs
dispatched (unsubscribe id ∷ xs) = dispatched xs
dispatched (writes id ∷ xs) = dispatched xs
dispatched (dispatch msg ∷ xs) = msg ∷ dispatched xs

-- The first list is the second one with some elements left out.
pub data Subsequence : List FromRadio → List FromRadio → Type 0 where
  done : Subsequence [] []
  keep : (x : FromRadio) {a b : List FromRadio} → Subsequence a b → Subsequence (x ∷ a) (x ∷ b)
  skip : (x : FromRadio) {a b : List FromRadio} → Subsequence a b → Subsequence a (x ∷ b)

none_of : (b : List FromRadio) → Subsequence [] b
none_of [] = done
none_of (x ∷ b) = skip x (none_of b)

Subsequence-snoc :
    {a b : List FromRadio} (x : FromRadio)
    → Subsequence a b
    → Subsequence (a ++ (x ∷ [])) (b ++ (x ∷ []))
Subsequence-snoc x done = keep x done
Subsequence-snoc x (keep y s) = keep y (Subsequence-snoc x s)
Subsequence-snoc x (skip y s) = skip y (Subsequence-snoc x s)

Subsequence-longer :
    {a b : List FromRadio} (x : FromRadio) → Subsequence a b → Subsequence a (b ++ (x ∷ []))
Subsequence-longer x done = skip x done
Subsequence-longer x (keep y s) = keep y (Subsequence-longer x s)
Subsequence-longer x (skip y s) = skip y (Subsequence-longer x s)

-- What a client has taken and still has to take comes from the dispatched messages, in their order,
-- and its buffer is within its size.
abbrev pub IsServedFrom : List FromRadio → Subscriber → Type 0
IsServedFrom sent s =
    Subsequence (s.taken ++ s.buffer) sent × (length s.buffer ≤ subscriber_buffer_size)

offer-IsServedFrom :
    (sent : List FromRadio) (msg : FromRadio) (s : Subscriber)
    → IsServedFrom sent s
    → IsServedFrom (sent ++ (msg ∷ [])) (offer msg s)
offer-IsServedFrom sent msg s (sub, le) =
    elim (Bool-cases (ltb (length s.buffer) subscriber_buffer_size)) [
      | inl e ↦ rw e (
        subst (λ l. Subsequence l (sent ++ (msg ∷ []))) (append_assoc s.taken s.buffer (msg ∷ []))
            (Subsequence-snoc msg sub),
        omega (
          arith,
          ltb→lt (length s.buffer) subscriber_buffer_size e,
          length-append s.buffer (msg ∷ []),
        ),
      )
      | inr e ↦ rw e (Subsequence-longer msg sub, le)
    ]

take_next-IsServedFrom :
    (sent : List FromRadio) (s : Subscriber) (l : List FromRadio)
    → s.buffer ≡ l
    → IsServedFrom sent s
    → IsServedFrom sent (take_next s l)
take_next-IsServedFrom sent s [] e h = h
take_next-IsServedFrom sent s (msg ∷ rest) e (sub, le) = (
  subst (λ l. Subsequence l sent)
      (ap (λ l. s.taken ++ l) e ∙ sym (append_assoc s.taken (msg ∷ []) rest)) sub,
  omega (arith, le, ap length e),
)

write_next-IsServedFrom :
    (sent : List FromRadio) (id : ℕ) (s : Subscriber)
    → IsServedFrom sent s
    → IsServedFrom sent (write_next id s)
write_next-IsServedFrom sent id s h = elim (Bool-cases (s.id == id)) [
  | inl e ↦ rw e (take_next-IsServedFrom sent s s.buffer refl h)
  | inr e ↦ rw e h
]

All-map :
    (P Q : Subscriber → Type 0) (f : Subscriber → Subscriber) (l : List Subscriber)
    → ((s : Subscriber) → P s → Q (f s))
    → All P l
    → All Q (map f l)
All-map P Q f [] h a = tt
All-map P Q f (s ∷ l) h (p, a) = (h s p, All-map P Q f l h a)

All-kept :
    (P : Subscriber → Type 0) (p : Subscriber → Bool) (l : List Subscriber)
    → All P l
    → All P (select p l)
All-kept P p [] a = tt
All-kept P p (s ∷ l) (h, a) = elim (Bool-cases (p s)) [
  | inl e ↦ rw e (h, All-kept P p l a)
  | inr e ↦ rw e (All-kept P p l a)
]

nothing_sent :
    (sent : List FromRadio) (l : List Subscriber)
    → All (IsServedFrom sent) l
    → All (IsServedFrom (sent ++ [])) l
nothing_sent sent l a = subst (λ m. All (IsServedFrom m) l) (sym (append-nil sent)) a

server_move-IsServedFrom :
    (x : ServerMove) (sent : List FromRadio) (l : List Subscriber)
    → All (IsServedFrom sent) l
    → All (IsServedFrom (sent ++ dispatched (x ∷ []))) (server_move x l)
unfolding server_move dispatch_to_clients
server_move-IsServedFrom (subscribe id) sent l a =
    nothing_sent sent (add_subscriber id l) ((none_of sent, omega arith), a)
server_move-IsServedFrom (unsubscribe id) sent l a =
    nothing_sent sent (remove_subscriber id l)
      (All-kept (IsServedFrom sent) (λ s. not (s.id == id)) l a)
server_move-IsServedFrom (writes id) sent l a = nothing_sent sent (map (write_next id) l) (
    All-map (IsServedFrom sent) (IsServedFrom sent) (write_next id) l
      (write_next-IsServedFrom sent id) a)
server_move-IsServedFrom (dispatch msg) sent l a =
    All-map (IsServedFrom sent) (IsServedFrom (sent ++ (msg ∷ []))) (offer msg) l
      (offer-IsServedFrom sent msg) a

dispatched-cons :
    (x : ServerMove) (xs : List ServerMove)
    → dispatched (x ∷ []) ++ dispatched xs ≡ dispatched (x ∷ xs)
dispatched-cons (subscribe id) xs = refl
dispatched-cons (unsubscribe id) xs = refl
dispatched-cons (writes id) xs = refl
dispatched-cons (dispatch msg) xs = refl

moves-IsServedFrom :
    (xs : List ServerMove) (sent : List FromRadio) (l : List Subscriber)
    → All (IsServedFrom sent) l
    → All (IsServedFrom (sent ++ dispatched xs)) (server_moves xs l)
moves-IsServedFrom [] sent l a = nothing_sent sent l a
moves-IsServedFrom (x ∷ xs) sent l a =
    subst (λ m. All (IsServedFrom m) (server_moves xs (server_move x l)))
      (append_assoc sent (dispatched (x ∷ [])) (dispatched xs)
        ∙ ap (λ m. sent ++ m) (dispatched-cons x xs))
      (moves-IsServedFrom xs (sent ++ dispatched (x ∷ [])) (server_move x l)
        (server_move-IsServedFrom x sent l a))

-- Whatever the order in which clients connect and disconnect, messages are dispatched and writers take
-- their turns, each client that is connected at the end has taken messages that were dispatched, in
-- the order of their dispatch and none of them twice, followed by those in its buffer, and no buffer
-- holds more than sixteen.
pub server_moves-IsServedFrom :
    (xs : List ServerMove) → All (IsServedFrom (dispatched xs)) (server_moves xs [])
server_moves-IsServedFrom xs = moves-IsServedFrom xs [] [] tt
