-- ===== src/Ipc/Msg/Send.antt =====
-- `msgsnd`: the message goes to the end of its queue.
use mathlib.Core.Path.{subst}
use lizarx.Prelude.{
  set, set-same, set-other, ℕ, ◌+◌, ◌<◌, ◌≤◌, ◌≡◌, ◌≢◌, refl, Option, none, some, List, [], ◌∷◌,
  ◌++◌, arith, length, ◌==◌, ap, sym, ◌∙◌, false,
}
use lizarx.Prelude.Int.{pos}
use lizarx.Ipc.Msg.{Block, Store, new_block, set_next, link, find_queue, msgsnd}
use lizarx.Ipc.Msg.Append.{
  set_next-other, set_next-none, Appended, Chain-append, placed, Chain-allocated,
}
use lizarx.Ipc.Msg.Chains.{Chain, Chain-kept, Holds, by_queue, find_queue-set}

-- What `msgsnd` did: the message is behind those of its queue, the other queues hold what they held, the
-- queues are found as before, and no other memory is in use.
pub record Sent (addr q : ℕ) (m : List ℕ) (s s' : Store) (held : ℕ → List (List ℕ)) : Type 0 where
  pub holds : Holds s' (set held q (held q ++ (m ∷ [])))
  pub found : (n : ℕ) → find_queue s' n ≡ find_queue s n
  pub unused : (b : ℕ) → b ≢ addr → s.blocks b ≡ none → s'.blocks b ≡ none

-- The first message of an empty queue.
link-first :
    (fuel addr q : ℕ) (m : List ℕ) (s : Store) (held : ℕ → List (List ℕ)) (h : Holds s held)
    → held q ≡ []
    → addr ≢ 0
    → s.blocks addr ≡ none
    → (s' : Store) × (link fuel addr q
          (record s { blocks = set s.blocks addr (some (new_block m)) })
        ≡ some s')
      × Sent addr q m s s' held
link-first fuel addr q m s held h e nz fresh = (
  s',
  ground (arith, empty),
  record {
    holds = by_queue s' (placed s held h addr q) h.start held q (held q ++ (m ∷ [])) own others;
    found = find_queue-set s q addr (set s.blocks addr (some (new_block m)));
    unused = λ b ne e. set-other s.blocks addr (some (new_block m)) b ne ∙ e;
  },
)
  where
    empty : (s.queues q).first_message ≡ 0
    empty = subst (Chain s.blocks h.place q (h.start q) (s.queues q).first_message) e (h.chain q)

    s' : Store
    s' = record s {
      queues = set s.queues q (record (s.queues q) { first_message = addr });
      blocks = set s.blocks addr (some (new_block m));
    }

    own :
        Chain s'.blocks
          (placed s held h addr q)
          q
          (h.start q)
          (s'.queues q).first_message
          (held q ++ (m ∷ []))
    own =
        rw (set-same s.queues q (record (s.queues q) { first_message = addr }), e)
          (
            nz,
            ap (λ x. x.0) at,
            (ap (λ x. x.1) at) ∙ omega arith,
            0,
            set-same s.blocks addr (some (new_block m)),
            refl,
          )
      where
        at : set h.place addr (q, h.start q + length {A = List ℕ} []) addr ≡ (q, h.start q + 0)
        at = set-same h.place addr (q, h.start q + 0)

    others :
        (p : ℕ)
        → p ≢ q
        → Chain s'.blocks
            (placed s held h addr q)
            p
            (h.start p)
            (s'.queues p).first_message
            (held p)
    others p ne =
        rw (set-other s.queues q (record (s.queues q) { first_message = addr }) p ne)
          (Chain-allocated s held h addr q p (new_block m) fresh)

-- A message behind others.
link-behind :
    (fuel addr q : ℕ) (m d : List ℕ) (ds : List (List ℕ)) (s : Store) (held : ℕ → List (List ℕ))
    (h : Holds s held)
    → held q ≡ d ∷ ds
    → addr ≢ 0
    → s.blocks addr ≡ none
    → length ds < fuel
    → (s' : Store) × (link fuel addr q
          (record s { blocks = set s.blocks addr (some (new_block m)) })
        ≡ some s')
      × Sent addr q m s s' held
link-behind fuel addr q m d ds s held h e nz fresh enough = (
  s',
  rw (filled, r.found),
  record {
    holds =
        by_queue s' place h.start held q (held q ++ (m ∷ []))
          (subst
            (λ xs. Chain s'.blocks place q (h.start q) (s.queues q).first_message (xs ++ (m ∷ [])))
            (sym e) r.chain)
          others;
    found = λ n. refl;
    unused = λ b ne e.
        set_next-none blocks r.last addr b (set-other s.blocks addr (some (new_block m)) b ne ∙ e);
  },
)
  where
    blocks : ℕ → Option Block
    blocks = set s.blocks addr (some (new_block m))

    place : ℕ → ℕ × ℕ
    place = placed s held h addr q

    at : place addr ≡ (q, h.start q + length (held q))
    at = set-same h.place addr (q, h.start q + length (held q))

    own : Chain blocks place q (h.start q) (s.queues q).first_message (d ∷ ds)
    own =
        subst (Chain blocks place q (h.start q) (s.queues q).first_message) e
          (Chain-allocated s held h addr q q (new_block m) fresh)

    filled : ((s.queues q).first_message == 0) ≡ false
    filled = ground (arith, own.0)

    r : Appended fuel blocks place q (h.start q) (s.queues q).first_message addr d m ds
    r =
        Chain-append fuel blocks place q (h.start q) (s.queues q).first_message addr d m ds own nz
          (ap (λ x. x.0) at) (ap (λ x. x.1) at ∙ ap (λ l. h.start q + length l) e)
          (set-same s.blocks addr (some (new_block m))) enough

    s' : Store
    s' = record s { blocks = set_next blocks r.last addr }

    others :
        (p : ℕ) → p ≢ q → Chain s'.blocks place p (h.start p) (s'.queues p).first_message (held p)
    others p ne =
        Chain-kept blocks s'.blocks place place p (h.start p) (s.queues p).first_message (held p)
          (λ b v f own num. (
            set_next-other blocks r.last addr b
                  (λ same. absurd (ne (sym own ∙ ap (λ k. (place k).0) same ∙ r.owner)))
                ∙ f,
            refl,
            refl,
          ))
          (Chain-allocated s held h addr q p (new_block m) fresh)

-- `msgsnd` to a queue that is there returns 0 and puts the message behind the others of that queue, for any
-- memory that `kmalloc` gives it and fuel for the messages that wait. The other queues hold what they held.
pub msgsnd-Sent :
    (fuel addr msqid q : ℕ) (m : List ℕ) (s : Store) (held : ℕ → List (List ℕ))
    → Holds s held
    → find_queue s msqid ≡ some q
    → addr ≢ 0
    → s.blocks addr ≡ none
    → length (held q) ≤ fuel
    → (s' : Store) × (msgsnd fuel addr msqid m s ≡ some (pos 0, s')) × Sent addr q m s s' held
unfolding msgsnd
msgsnd-Sent fuel addr msqid q m s held h there nz fresh enough = go (held q) refl
  where
    result :
        (s' : Store) × (link fuel addr q
              (record s { blocks = set s.blocks addr (some (new_block m)) })
            ≡ some s')
          × Sent addr q m s s' held
        → (s' : Store) × (msgsnd fuel addr msqid m s ≡ some (pos 0, s')) × Sent addr q m s s' held
    result (s', e, sent) = (s', rw (there, msgsnd, e), sent)

    go :
        (ds : List (List ℕ))
        → held q ≡ ds
        → (s' : Store) × (msgsnd fuel addr msqid m s ≡ some (pos 0, s')) × Sent addr q m s s' held
    go [] e = result (link-first fuel addr q m s held h e nz fresh)
    go (d ∷ ds) e =
        result
          (link-behind fuel addr q m d ds s held h e nz fresh (omega (arith, enough, ap length e)))
