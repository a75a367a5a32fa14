-- ===== src/Ipc/Msg/Fifo.antt =====
-- A queue gives its messages back in the order in which they were sent.
use lizarx.Prelude.{
  set, set-same, ℕ, ◌+◌, ◌≤◌, ◌≡◌, ◌≢◌, refl, Option, none, some, List, [], ◌∷◌, ◌++◌, arith,
  length, length-append, ap, sym, ◌∙◌,
}
use mathlib.Core.List.{append_assoc, append-nil}
use lizarx.Ipc.Msg.{Store, find_queue, msgsnd, msgrcv}
use lizarx.Ipc.Msg.Chains.{Holds}
use lizarx.Ipc.Msg.Send.{Sent, msgsnd-Sent}
use lizarx.Ipc.Msg.Receive.{msgrcv-Received}

-- Messages, each with the memory that `kmalloc` gives it, sent one after the other.
abbrev pub send_all : ℕ → ℕ → List (ℕ × List ℕ) → Store → Option Store
send_all fuel msqid [] s = some s
send_all fuel msqid ((addr, m) ∷ posts) s = elim (msgsnd fuel addr msqid m s) [
  | none ↦ none
  | some (r, s') ↦ send_all fuel msqid posts s'
]

-- Messages of these sizes, received one after the other; `none` also where `msgrcv` returns 0.
abbrev pub receive_all : ℕ → List ℕ → Store → Option (List (List ℕ) × Store)
receive_all msqid [] s = some ([], s)
receive_all msqid (size ∷ sizes) s = elim (msgrcv msqid size s) [
  | none ↦ none
  | some (r, s') ↦ elim r [
    | none ↦ none
    | some d ↦ elim (receive_all msqid sizes s') [
      | none ↦ none
      | some (ds, s'') ↦ some (d ∷ ds, s'')
    ]
  ]
]

abbrev pub messages : List (ℕ × List ℕ) → List (List ℕ)
messages [] = []
messages ((addr, m) ∷ posts) = m ∷ messages posts

abbrev pub sizes_of : List (List ℕ) → List ℕ
sizes_of [] = []
sizes_of (d ∷ ds) = length d ∷ sizes_of ds

abbrev Other : ℕ → List (ℕ × List ℕ) → Type 0
Other addr [] = Unit
Other addr ((b, m) ∷ posts) = (b ≢ addr) × Other addr posts

-- The memory of the messages is not NULL, not in use and not given out twice.
abbrev pub Fresh : Store → List (ℕ × List ℕ) → Type 0
Fresh s [] = Unit
Fresh s ((addr, m) ∷ posts) = (addr ≢ 0) × (s.blocks addr ≡ none) × Other addr posts × Fresh s posts

Fresh-Sent :
    (addr q : ℕ) (m : List ℕ) (s s' : Store) (held : ℕ → List (List ℕ)) (posts : List (ℕ × List ℕ))
    → Sent addr q m s s' held
    → Other addr posts
    → Fresh s posts
    → Fresh s' posts
Fresh-Sent addr q m s s' held [] sent o f = tt
Fresh-Sent addr q m s s' held ((b, m') ∷ posts) sent o f =
    (f.0, sent.unused b o.0 f.1, f.2, Fresh-Sent addr q m s s' held posts sent o.1 f.3)

-- The store when the messages are sent.
record Posted (fuel msqid q : ℕ) (ds : List (List ℕ)) (posts : List (ℕ × List ℕ)) (s : Store)
    : Type 0 where
  store : Store
  held : ℕ → List (List ℕ)
  sent : send_all fuel msqid posts s ≡ some store
  holds : Holds store held
  waiting : held q ≡ ds ++ messages posts
  found : find_queue store msqid ≡ some q

send_all-Posted :
    (fuel msqid q : ℕ) (ds : List (List ℕ)) (posts : List (ℕ × List ℕ)) (s : Store)
    (held : ℕ → List (List ℕ))
    → Holds s held
    → find_queue s msqid ≡ some q
    → held q ≡ ds
    → Fresh s posts
    → length ds + length posts ≤ fuel
    → Posted fuel msqid q ds posts s
send_all-Posted fuel msqid q ds [] s held h there e f enough = record {
  store = s;
  held = held;
  sent = refl;
  holds = h;
  waiting = e ∙ sym (append-nil ds);
  found = there;
}
send_all-Posted fuel msqid q ds ((addr, m) ∷ posts) s held h there e f enough =
    let (s1, went, sent) =
      msgsnd-Sent fuel addr msqid q m s held h there f.0 f.1 (omega (arith, ap length e)) in
    let at : set held q (held q ++ (m ∷ [])) q ≡ ds ++ (m ∷ []) =
      set-same held q (held q ++ (m ∷ [])) ∙ ap (λ xs. xs ++ (m ∷ [])) e in
    let more : length (ds ++ (m ∷ [])) ≡ length ds + 1 = length-append ds (m ∷ []) in
    let r =
      send_all-Posted fuel msqid q (ds ++ (m ∷ [])) posts s1 (set held q (held q ++ (m ∷ [])))
        sent.holds (sent.found msqid ∙ there) at (Fresh-Sent addr q m s s1 held posts sent f.2 f.3)
        (omega (arith, enough, more)) in
    record {
      store = r.store;
      held = r.held;
      sent = rw (went, send_all) r.sent;
      holds = r.holds;
      waiting = r.waiting ∙ append_assoc ds (m ∷ []) (messages posts);
      found = r.found;
    }

receive_all-Holds :
    (msqid q : ℕ) (ds : List (List ℕ)) (s : Store) (held : ℕ → List (List ℕ))
    → Holds s held
    → find_queue s msqid ≡ some q
    → held q ≡ ds
    → (s' : Store) × (receive_all msqid (sizes_of ds) s ≡ some (ds, s'))
receive_all-Holds msqid q [] s held h there e = (s, refl)
receive_all-Holds msqid q (d ∷ ds) s held h there e =
    let (s1, got, r) = msgrcv-Received msqid q d ds s held h there e in
    let (s2, rest) =
      receive_all-Holds msqid q ds s1 (set held q ds) r.holds (r.found msqid ∙ there)
        (set-same held q ds) in
    (s2, rw (got, receive_all, rest))

-- Messages that are sent to an empty queue and then received in their sizes come out in the order in which they
-- went in, whatever memory they get and whatever the other queues hold.
pub fifo :
    (fuel msqid q : ℕ) (posts : List (ℕ × List ℕ)) (s : Store) (held : ℕ → List (List ℕ))
    → Holds s held
    → find_queue s msqid ≡ some q
    → held q ≡ []
    → Fresh s posts
    → length posts ≤ fuel
    → (s' s'' : Store) × (send_all fuel msqid posts s ≡ some s')
      × (receive_all msqid (sizes_of (messages posts)) s' ≡ some (messages posts, s''))
fifo fuel msqid q posts s held h there e f enough =
    let r = send_all-Posted fuel msqid q [] posts s held h there e f (omega arith) in
    let (s2, got) =
      receive_all-Holds msqid q (messages posts) r.store r.held r.holds r.found r.waiting in
    (r.store, s2, r.sent, got)
