-- ===== src/Ipc/Msg/Append.antt =====
-- The chain of message blocks with one more block at its end.
use lizarx.Prelude.{
  set, set-same, set-other, ℕ, zero, suc, ◌+◌, ◌<◌, ◌≡◌, ◌≢◌, refl, Option, none, some, List, [],
  ◌∷◌, ◌++◌, arith, length, ◌==◌, ℕ_discrete, ap, sym, ◌∙◌, false,
}
use lizarx.Ipc.Msg.{Block, Store, new_block, last_from, set_next}
use lizarx.Ipc.Msg.Chains.{Chain, Chain-kept, Holds}

pub set_next-other :
    (blocks : ℕ → Option Block) (cur next b : ℕ) → b ≢ cur → set_next blocks cur next b ≡ blocks b
set_next-other blocks cur next b ne = go (blocks cur) refl
  where
    go : (r : Option Block) → blocks cur ≡ r → set_next blocks cur next b ≡ blocks b
    go none e = rw (e, set_next)
    go (some v) e = rw (e, set_next) (set-other blocks cur (some (record v { next = next })) b ne)

pub set_next-none :
    (blocks : ℕ → Option Block) (cur next b : ℕ)
    → blocks b ≡ none
    → set_next blocks cur next b ≡ none
set_next-none blocks cur next b e = elim (ℕ_discrete b cur) [
  | yes same ↦ let n : blocks cur ≡ none = ap blocks (sym same) ∙ e in rw (n, set_next) e
  | no ne ↦ set_next-other blocks cur next b ne ∙ e
]

pub set_next-at :
    (blocks : ℕ → Option Block) (cur next : ℕ) (b : Block)
    → blocks cur ≡ some b
    → set_next blocks cur next cur ≡ some (record b { next = next })
set_next-at blocks cur next b e =
    rw (e, set_next) (set-same blocks cur (some (record b { next = next })))

-- The walk to the last block, with fuel for the length of the chain, and the chain with the new block behind it.
pub record Appended (fuel : ℕ) (blocks : ℕ → Option Block) (place : ℕ → ℕ × ℕ) (q i a addr : ℕ)
    (d m : List ℕ) (ds : List (List ℕ)) : Type 0 where
  pub last : ℕ
  pub found : last_from fuel blocks a ≡ some last
  pub owner : (place last).0 ≡ q
  pub number : (place last).1 ≡ i + length ds
  pub chain : Chain (set_next blocks last addr) place q i a (d ∷ (ds ++ (m ∷ [])))

pub Appended-cons :
    (fuel : ℕ) (blocks : ℕ → Option Block) (place : ℕ → ℕ × ℕ) (q i a addr : ℕ) (d m d' : List ℕ)
    (ds : List (List ℕ))
    → (c : Chain blocks place q i a (d ∷ d' ∷ ds))
    → Appended fuel blocks place q (i + 1) c.3 addr d' m ds
    → Appended (suc fuel) blocks place q i a addr d m (d' ∷ ds)
unfolding last_from
Appended-cons fuel blocks place q i a addr d m d' ds (ne, o, n, next, e, rest) r = record {
  last = r.last;
  found =
      let more : (next == 0) ≡ false = ground (arith, rest.0) in rw (e, last_from, more) r.found;
  owner = r.owner;
  number = omega (arith, r.number);
  chain = (ne, o, n, next, set_next-other blocks r.last addr a other ∙ e, r.chain);
}
  where
    other : a ≢ r.last
    other same =
        let p : (place a).1 ≡ (place r.last).1 = ap (λ k. (place k).1) same in
        omega (arith, p, n, r.number)

pub Chain-append :
    (fuel : ℕ) (blocks : ℕ → Option Block) (place : ℕ → ℕ × ℕ) (q i a addr : ℕ) (d m : List ℕ)
    (ds : List (List ℕ))
    → Chain blocks place q i a (d ∷ ds)
    → addr ≢ 0
    → (place addr).0 ≡ q
    → (place addr).1 ≡ i + suc (length ds)
    → blocks addr ≡ some (new_block m)
    → length ds < fuel
    → Appended fuel blocks place q i a addr d m ds
unfolding last_from
Chain-append zero blocks place q i a addr d m ds c nz own num at h = absurd (omega arith)
Chain-append (suc fuel) blocks place q i a addr d m [] (ne, o, n, next, e, z) nz own num at h =
    record {
      last = a;
      found = rw (e, last_from, z);
      owner = o;
      number = omega (arith, n);
      chain = (
        ne,
        o,
        n,
        addr,
        set_next-at blocks a addr (record { next = next; size = length d; bytes = d }) e,
        (nz, own, omega (arith, num), 0, set_next-other blocks a addr addr other ∙ at, refl),
      );
    }
  where
    other : addr ≢ a
    other same =
        let p : (place addr).1 ≡ (place a).1 = ap (λ k. (place k).1) same in
        omega (arith, p, num, n)
Chain-append (suc fuel) blocks place q i a addr d m (d' ∷ ds) c nz own num at h =
    Appended-cons fuel blocks place q i a addr d m d' ds c (
      Chain-append fuel blocks place q (i + 1) c.3 addr d' m ds c.5 nz own (omega (arith, num)) at
        (omega arith))

-- The places when the new block has the number behind the queue's last one.
abbrev pub placed : (s : Store) (held : ℕ → List (List ℕ)) → Holds s held → ℕ → ℕ → ℕ → ℕ × ℕ
placed s held h addr q = set h.place addr (q, h.start q + length (held q))

-- Every chain survives the allocation of a block.
pub Chain-allocated :
    (s : Store) (held : ℕ → List (List ℕ)) (h : Holds s held) (addr q p : ℕ) (b : Block)
    → s.blocks addr ≡ none
    → Chain
        (set s.blocks addr (some b))
        (placed s held h addr q)
        p
        (h.start p)
        (s.queues p).first_message
        (held p)
Chain-allocated s held h addr q p b fresh =
    Chain-kept s.blocks (set s.blocks addr (some b)) h.place (placed s held h addr q) p (h.start p)
      (s.queues p).first_message (held p)
      (λ c v e own num.
        let ne : c ≢ addr = λ same. absurd (differ c v e same) in
        let at : placed s held h addr q c ≡ h.place c =
          set-other h.place addr (q, h.start q + length (held q)) c ne in
        (set-other s.blocks addr (some b) c ne ∙ e, ap (λ x. x.0) at, ap (λ x. x.1) at))
      (h.chain p)
  where
    differ : (c : ℕ) (v : Block) → s.blocks c ≡ some v → c ≡ addr → ⊥
    differ c v e same = let n : s.blocks c ≡ none = ap s.blocks same ∙ fresh in cc
