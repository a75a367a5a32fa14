-- ===== src/Mm/Heap/Free.antt =====
-- `kfree`: the used block whose payload begins at the pointer is free again.
use lizarx.Prelude.{
  ℕ, ◌+◌, ◌^◌, ◌≤◌, ◌<◌, ◌≡◌, ◌≢◌, inl, inr, refl, true, false, not, ◌&&◌, List, [], ◌∷◌, ◌==◌,
  arith, Bool-cases, ap,
}
use lizarx.Mm.Heap.{Block, header, add_word, kfree, All, Any, Apart, IsHeap, HasHeaders}

-- The used block with its payload at `p`.
abbrev pub Used : ℕ → Block → Type 0
Used p b = (b.free ≡ false) × (b.addr + header ≡ p)

-- What `kfree` promises.
pub record Freed (p : ℕ) (l l' : List Block) : Type 0 where
  pub heap : IsHeap l'
  pub headers : HasHeaders l'
  pub others : (x : Block) → ¬ Used p x → Any (λ b. b ≡ x) l → Any (λ b. b ≡ x) l'
  pub freed : Any (Used p) l → Any (λ b. (b.free ≡ true) × (b.addr + header ≡ p)) l'
  pub gone : All (λ b. ¬ Used p b) l'

kfree-Apart : (x : Block) (l : List Block) (p : ℕ) → All (Apart x) l → All (Apart x) (kfree l p)
unfolding kfree
kfree-Apart x [] p d = tt
kfree-Apart x (b ∷ l) p d = elim (Bool-cases (add_word b.addr header == p && not b.free)) [
  | inl hit ↦ rw hit d
  | inr miss ↦ rw miss (d.0, kfree-Apart x l p d.1)
]

-- No other block begins where one with a header does.
alone :
    (b : Block) (l : List Block)
    → header ≤ b.size
    → HasHeaders l
    → All (Apart b) l
    → All (λ c. c.addr ≢ b.addr) l
alone b [] h hs d = tt
alone b (c ∷ l) h hs d = (omega (arith, hs.0, d.0), alone b l h hs.1 d.1)

not-Used :
    (p : ℕ) (b : Block) (l : List Block)
    → b.addr + header ≡ p
    → All (λ c. c.addr ≢ b.addr) l
    → All (λ c. ¬ Used p c) l
not-Used p b [] e a = tt
not-Used p b (c ∷ l) e a = (λ u. omega (arith, a.0), not-Used p b l e a.1)

-- On a heap whose blocks share no byte and have room for their headers, `kfree` frees the used block whose
-- payload begins at the pointer, if there is one, and leaves every other block as it is. The blocks still share no
-- byte and have room for their headers, and no used block with that payload is left.
pub kfree-Freed : (l : List Block) (p : ℕ) → IsHeap l → HasHeaders l → Freed p l (kfree l p)
unfolding kfree
kfree-Freed [] p v h = record {
  heap = tt;
  headers = tt;
  others = λ x ne i. i;
  freed = λ i. i;
  gone = tt;
}
kfree-Freed (b ∷ l) p v h =
    let w : b.addr + header < 2 ^ 64 = omega (arith, v.0, h.0) in
    elim (Bool-cases (add_word b.addr header == p && not b.free)) [
      | inl hit ↦ rw hit (record {
        heap = v;
        headers = h;
        others = λ x ne i. elim i [
          | inl e ↦ absurd (ne (ground (arith, w, ap (λ c. c.free) e, ap (λ c. c.addr) e)))
          | inr j ↦ inr j
        ];
        freed = λ i. inl (refl, ground (arith, w));
        gone = (λ u. ground arith, not-Used p b l (ground (arith, w)) (alone b l h.0 h.1 v.1));
      })
      | inr miss ↦ rw miss (
          let r = kfree-Freed l p v.2 h.1 in
          record {
            heap = (v.0, kfree-Apart b l p v.1, r.heap);
            headers = (h.0, r.headers);
            others = λ x ne i. elim i [ inl e ↦ inl e | inr j ↦ inr (r.others x ne j) ];
            freed = λ i. elim i [ inl u ↦ absurd (ground (arith, w)) | inr j ↦ inr (r.freed j) ];
            gone = (λ u. ground (arith, w), r.gone);
          })
    ]
