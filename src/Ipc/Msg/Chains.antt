-- ===== src/Ipc/Msg/Chains.antt =====
-- What a chain of message blocks stands for.
use lizarx.Prelude.{
  set, set-same, set-other, ℕ, ◌+◌, ◌<◌, ◌≡◌, ◌≢◌, refl, Option, some, List, [], ◌∷◌, arith, length,
  ℕ_discrete, ap,
}
use mathlib.Core.Path.{fun_ext}
use lizarx.AList.{get_by_entry}
use lizarx.Ipc.Msg.{Block, Store, find_queue}

-- The blocks from `a` on hold the messages in order. Each block has its place, the queue and the
-- number in it, so that no block is in two places.
abbrev pub Chain : (ℕ → Option Block) → (ℕ → ℕ × ℕ) → ℕ → ℕ → ℕ → List (List ℕ) → Type 0
Chain blocks place queue i a [] = a ≡ 0
Chain blocks place queue i a (d ∷ ds) =
    (a ≢ 0)
    × ((place a).0 ≡ queue)
    × ((place a).1 ≡ i)
    × (next : ℕ) × (blocks a ≡ some (record { next = next; size = length d; bytes = d }))
    × Chain blocks place queue (i + 1) next ds

-- Each queue holds its messages.
pub record Holds (s : Store) (held : ℕ → List (List ℕ)) : Type 0 where
  pub place : ℕ → ℕ × ℕ
  pub start : ℕ → ℕ
  pub chain : (q : ℕ) → Chain s.blocks place q (start q) (s.queues q).first_message (held q)

-- A chain is kept where its blocks are.
pub Chain-kept :
    (old new : ℕ → Option Block) (place place' : ℕ → ℕ × ℕ) (q i a : ℕ) (ds : List (List ℕ))
    → ((b : ℕ) (v : Block)
        → old b ≡ some v
        → (place b).0 ≡ q
        → i < (place b).1 + 1
        → (new b ≡ some v) × ((place' b).0 ≡ (place b).0) × ((place' b).1 ≡ (place b).1))
    → Chain old place q i a ds
    → Chain new place' q i a ds
Chain-kept old new place place' q i a [] same c = c
Chain-kept old new place place' q i a (d ∷ ds) same (ne, at, nth, next, e, rest) =
    let k = same a (record { next = next; size = length d; bytes = d }) e at (omega (arith, nth)) in
    (
      ne,
      cc,
      cc,
      next,
      k.0,
      Chain-kept old new place place' q (i + 1) next ds
          (λ b v f g h. same b v f g (omega (arith, h))) rest,
    )

-- A chain at a queue that is not `q`, and at `q` itself.
pub by_queue :
    (s' : Store) (place : ℕ → ℕ × ℕ) (start : ℕ → ℕ) (held : ℕ → List (List ℕ)) (q : ℕ)
    (ds : List (List ℕ))
    → Chain s'.blocks place q (start q) (s'.queues q).first_message ds
    → ((p : ℕ) → p ≢ q → Chain s'.blocks place p (start p) (s'.queues p).first_message (held p))
    → Holds s' (set held q ds)
by_queue s' place start held q ds own others = record {
  place = place;
  start = start;
  chain = λ p. elim (ℕ_discrete p q) [
    | yes e ↦ rw (e, set-same held q ds) own
    | no ne ↦ rw (set-other held q ds p ne) (others p ne)
  ];
}

-- A queue with another first message keeps its id.
id-set :
    (s : Store) (q first a : ℕ)
    → (set s.queues q (record (s.queues q) { first_message = first }) a).id ≡ (s.queues a).id
id-set s q first a = elim (ℕ_discrete a q) [
  | yes e ↦ rw (e, set-same s.queues q (record (s.queues q) { first_message = first })) refl
  | no ne ↦
      ap (λ x. x.id) (set-other s.queues q (record (s.queues q) { first_message = first }) a ne)
]

-- The queues are found by their ids as before.
pub find_queue-set :
    (s : Store) (q first : ℕ) (blocks : ℕ → Option Block) (n : ℕ)
    → find_queue
        (record s {
          queues = set s.queues q (record (s.queues q) { first_message = first });
          blocks = blocks;
        })
        n
      ≡ find_queue s n
find_queue-set s q first blocks n =
    ap (λ load. get_by_entry load 0 n s.msqid_list) (fun_ext (λ a. id-set s q first a))
