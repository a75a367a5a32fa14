-- ===== src/Mt/Threads/Seek.antt =====
-- The search for the next thread goes round the list and finds the first that is not blocked.
use native.Mathlib.Nat.{mod-add-mod, mod-lt}
use lizarx.Prelude.{
  ℕ, zero, suc, ◌+◌, ◌%◌, ◌^◌, ◌<◌, ◌≡◌, ◌≢◌, ap, sym, ◌∙◌, some, List, arith, length, get_elem?,
  ◌==◌, false,
}
use lizarx.AList.{AList, get_by_index, get_entry_n}
use lizarx.AList.Contents.{IsValid, contents}
use lizarx.AList.Lookup.{get_by_index-contents, get_entry_n-length}
use lizarx.Mt.Threads.{Machine, thread_blckd}
use lizarx.Mt.Threads.Dispatch.{seek_next, next_index}

-- At `p` stands a thread that is blocked, or `t`, which is not.
abbrev pub BlockedAt : Machine → List ℕ → ℕ → Type 0
BlockedAt m xs p = (u : ℕ) × (get_elem? xs p ≡ some u) × ((m.threads u).exc_state ≡ thread_blckd)

abbrev pub ActiveAt : Machine → List ℕ → ℕ → ℕ → Type 0
ActiveAt m xs p t = (get_elem? xs p ≡ some t) × ((m.threads t).exc_state ≢ thread_blckd)

-- The place `k` steps behind the one after `index`, round the list.
abbrev pub round : List ℕ → ℕ → ℕ → ℕ
round xs index k = (index + 1 + k) % length xs

-- `t` stands `k` steps on, and all before it are blocked.
pub record Next (m : Machine) (xs : List ℕ) (index k t : ℕ) : Type 0 where
  pub active : ActiveAt m xs (round xs index k) t
  pub blocked : (i : ℕ) → i < k → BlockedAt m xs (round xs index i)

round-suc :
    (xs : List ℕ) (index k : ℕ) → round xs ((index + 1) % length xs) k ≡ round xs index (suc k)
round-suc xs index k =
    ap (λ a. a % length xs) (omega arith)
    ∙ mod-add-mod (index + 1) (length xs) (1 + k)
    ∙ ap (λ a. a % length xs) (omega arith)

round-zero : (xs : List ℕ) (index : ℕ) → round xs index 0 ≡ (index + 1) % length xs
round-zero xs index = ap (λ a. a % length xs) (omega arith)

-- The rest of a search behind a blocked thread.
Next-rest :
    (m : Machine) (xs : List ℕ) (index k t : ℕ)
    → Next m xs index (suc k) t
    → Next m xs ((index + 1) % length xs) k t
Next-rest m xs index k t n = record {
  active = rw (round-suc xs index k) n.active;
  blocked = λ i lt. rw (round-suc xs index i) (n.blocked (suc i) (omega arith));
}

next_index-round :
    (l : AList) (index : ℕ)
    → IsValid l
    → length (contents l) < 2 ^ 64
    → index < length (contents l)
    → next_index l index ≡ (index + 1) % length (contents l)
next_index-round l index v small h =
    let n : get_entry_n l ≡ length (contents l) = get_entry_n-length l v ∙ omega arith in
    let i : (index + 1) % 2 ^ 64 ≡ index + 1 = omega arith in
    ap (λ a. (index + 1) % 2 ^ 64 % a) n ∙ ap (λ a. a % length (contents l)) i

-- The search finds the thread, with fuel for the steps to it.
pub seek_next-Next :
    (fuel : ℕ) (m : Machine) (l : AList) (index k t : ℕ)
    → IsValid l
    → length (contents l) < 2 ^ 64
    → index < length (contents l)
    → k < fuel
    → Next m (contents l) index k t
    → seek_next fuel m l index ≡ some (round (contents l) index k, t)
unfolding seek_next
seek_next-Next zero m l index k t v small h enough n = absurd (omega arith)
seek_next-Next (suc fuel) m l index zero t v small h enough n =
    let at : next_index l index ≡ round (contents l) index 0 =
      next_index-round l index v small h ∙ sym (round-zero (contents l) index) in
    let found : get_by_index l (next_index l index) ≡ some t =
      get_by_index-contents l (next_index l index) ∙ ap (get_elem? (contents l)) at ∙ n.active.0 in
    let runs : ((m.threads t).exc_state == thread_blckd) ≡ false = ground (arith, n.active.1) in
    rw (found, seek_next, runs) (ap (λ a. some (a, t)) at)
seek_next-Next (suc fuel) m l index (suc k) t v small h enough n =
    step (n.blocked 0 (omega arith)) (
      seek_next-Next fuel m l ((index + 1) % length (contents l)) k t v small
        (mod-lt (index + 1) (omega arith)) (omega arith) (Next-rest m (contents l) index k t n))
  where
    step :
        BlockedAt m (contents l) (round (contents l) index 0)
        → seek_next fuel m l ((index + 1) % length (contents l))
          ≡ some (round (contents l) ((index + 1) % length (contents l)) k, t)
        → seek_next (suc fuel) m l index ≡ some (round (contents l) index (suc k), t)
    step (u, e, b) rest =
        let at : next_index l index ≡ (index + 1) % length (contents l) =
          next_index-round l index v small h in
        let found : get_by_index l (next_index l index) ≡ some u =
          get_by_index-contents l (next_index l index)
          ∙ ap (get_elem? (contents l)) at
          ∙ ap (get_elem? (contents l)) (sym (round-zero (contents l) index))
          ∙ e in
        rw (found, seek_next, b)
          (ap (seek_next fuel m l) at
            ∙ rest
            ∙ ap (λ a. some (a, t)) (round-suc (contents l) index k))
