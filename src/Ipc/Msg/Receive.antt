-- ===== src/Ipc/Msg/Receive.antt =====
-- `msgrcv`: the first message of its queue goes, if it has the size that is asked for.
use mathlib.Core.Path.{subst}
use lizarx.Prelude.{
  set, set-same, set-other, ℕ, ◌+◌, ◌≡◌, ◌≢◌, refl, none, some, List, [], ◌∷◌, arith, length, ◌==◌,
  ap, sym, ◌∙◌, true, false,
}
use lizarx.Ipc.Msg.{Block, Store, find_queue, msgrcv}
use lizarx.Ipc.Msg.Chains.{Chain, Chain-kept, Holds, by_queue, find_queue-set}

-- What `msgrcv` did when it took the first message of `q`.
pub record Received (q : ℕ) (ds : List (List ℕ)) (s s' : Store) (held : ℕ → List (List ℕ))
    : Type 0 where
  pub holds : Holds s' (set held q ds)
  pub found : (n : ℕ) → find_queue s' n ≡ find_queue s n

-- The store without the first block of `q`.
abbrev taken : ℕ → ℕ → Store → Store
taken q next s = record s {
  queues = set s.queues q (record (s.queues q) { first_message = next });
  blocks = set s.blocks (s.queues q).first_message none;
}

taken-Holds :
    (q : ℕ) (d : List ℕ) (ds : List (List ℕ)) (s : Store) (held : ℕ → List (List ℕ))
    (h : Holds s held)
    (c : Chain s.blocks h.place q (h.start q) (s.queues q).first_message (d ∷ ds))
    → Holds (taken q c.3 s) (set held q ds)
taken-Holds q d ds s held h (nz, own, num, next, e, rest) =
    by_queue (taken q next s) h.place start held q ds mine others
  where
    a : ℕ
    a = (s.queues q).first_message

    start : ℕ → ℕ
    start = set h.start q (h.start q + 1)

    kept : (b : ℕ) (v : Block) → s.blocks b ≡ some v → b ≢ a → set s.blocks a none b ≡ some v
    kept b v f ne = set-other s.blocks a none b ne ∙ f

    mine :
        Chain (set s.blocks a none) h.place q (start q) ((taken q next s).queues q).first_message ds
    mine =
        rw
          (
            set-same h.start q (h.start q + 1),
            set-same s.queues q (record (s.queues q) { first_message = next }),
          )
          (Chain-kept s.blocks (set s.blocks a none) h.place h.place q (h.start q + 1) next ds
            (λ b v f o n. (
              kept b v f (λ same.
                  let p : (h.place b).1 ≡ (h.place a).1 = ap (λ k. (h.place k).1) same in
                  omega (arith, p, n, num)),
              refl,
              refl,
            ))
            rest)

    others :
        (p : ℕ)
        → p ≢ q
        → Chain
            (set s.blocks a none)
            h.place
            p
            (start p)
            ((taken q next s).queues p).first_message
            (held p)
    others p ne =
        rw
          (
            set-other h.start q (h.start q + 1) p ne,
            set-other s.queues q (record (s.queues q) { first_message = next }) p ne,
          )
          (Chain-kept s.blocks (set s.blocks a none) h.place h.place p (h.start p)
            (s.queues p).first_message (held p)
            (λ b v f o n. (
              kept b v f (λ same. absurd (ne (sym o ∙ ap (λ k. (h.place k).0) same ∙ own))),
              refl,
              refl,
            ))
            (h.chain p))

-- `msgrcv` of the size of the first message of the queue gives its bytes, and the queue holds the others. The other
-- queues hold what they held.
pub msgrcv-Received :
    (msqid q : ℕ) (d : List ℕ) (ds : List (List ℕ)) (s : Store) (held : ℕ → List (List ℕ))
    → Holds s held
    → find_queue s msqid ≡ some q
    → held q ≡ d ∷ ds
    → (s' : Store) × (msgrcv msqid (length d) s ≡ some (some d, s')) × Received q ds s s' held
unfolding msgrcv
msgrcv-Received msqid q d ds s held h there e = (
  taken q c.3 s,
  rw (there, msgrcv, filled, c.4, sized),
  record {
    holds = taken-Holds q d ds s held h c;
    found = find_queue-set s q c.3 (set s.blocks (s.queues q).first_message none);
  },
)
  where
    c : Chain s.blocks h.place q (h.start q) (s.queues q).first_message (d ∷ ds)
    c = subst (Chain s.blocks h.place q (h.start q) (s.queues q).first_message) e (h.chain q)

    filled : ((s.queues q).first_message == 0) ≡ false
    filled = ground (arith, c.0)

    sized : (length d == length d) ≡ true
    sized = ground arith

-- What the first message is, as far as a receiver of `size` bytes sees it.
abbrev pub Refuses : ℕ → List (List ℕ) → Type 0
Refuses size [] = Unit
Refuses size (d ∷ ds) = size ≢ length d

-- `msgrcv` on an empty queue, or of another size than that of the first message, returns 0 and changes nothing.
pub msgrcv-refused :
    (msqid q size : ℕ) (s : Store) (held : ℕ → List (List ℕ))
    → Holds s held
    → find_queue s msqid ≡ some q
    → Refuses size (held q)
    → msgrcv msqid size s ≡ some (none, s)
unfolding msgrcv
msgrcv-refused msqid q size s held h there refuses = go (held q) refuses (h.chain q)
  where
    go :
        (ds : List (List ℕ))
        → Refuses size ds
        → Chain s.blocks h.place q (h.start q) (s.queues q).first_message ds
        → msgrcv msqid size s ≡ some (none, s)
    go [] r c = rw (there, msgrcv, c)
    go (d ∷ ds) r c =
        let filled : ((s.queues q).first_message == 0) ≡ false = ground (arith, c.0) in
        let sized : (size == length d) ≡ false = ground arith in
        rw (there, msgrcv, filled, c.4, sized)
