-- ===== src/Mm/Heap/Malloc.antt =====
-- `kmalloc` on a heap whose free blocks have room for their headers.
use lizarx.Prelude.{
  ℕ, ◌+◌, if◌then◌else◌, ◌-◌, ◌^◌, ◌≤◌, ◌<◌, ◌≡◌, ◌⊎◌, inl, inr, refl, sym, ap, ◌∙◌, true, false,
  Option, none, some, List, [], ◌∷◌, ltb, leb, arith, Bool-cases,
}
use mathlib.Core.Bool.{false≢true}
use lizarx.Mm.Heap.{
  Block, header, page_size, sub_word, add_word, Outcome, returned, hangs, corrupts, Search, absent,
  overlapping, found, pass, outcome, fits, cut, carve, push, kmalloc, All, Any, Apart, IsHeap,
  HasHeaders,
}

-- A free block of the chain that holds a header and the `size` bytes from `p` on.
abbrev pub Holds : ℕ → ℕ → Block → Type 0
Holds p size b = (b.free ≡ true) × (b.addr + header ≤ p) × (p + size ≤ b.addr + b.size)

-- A used block whose payload begins at `p` and has at least `size` bytes.
abbrev pub Owns : ℕ → ℕ → Block → Type 0
Owns p size b = (b.free ≡ false) × (b.addr + header ≡ p) × (p + size ≤ b.addr + b.size)

-- What a successful `kmalloc` does to the chain.
pub record Served (l : List Block) (size p : ℕ) (l' : List Block) : Type 0 where
  pub source : Any (Holds p size) l
  pub owner : Any (Owns p size) l'
  pub heap : IsHeap l'
  pub headers : HasHeaders l'
  pub apart : (x : Block) → All (Apart x) l → All (Apart x) l'
  pub kept : (x : Block) → x.free ≡ false → Any (λ b. b ≡ x) l → Any (λ b. b ≡ x) l'

-- A free block that the request would leave with fewer bytes than a header, and with some.
abbrev pub Tight : ℕ → Block → Type 0
Tight size b = (b.free ≡ true) × (size + header < b.size) × (b.size < size + header + header)

abbrev Carved : List Block → ℕ → Search → Type 0
Carved l size absent = All (λ b. b.free ≡ true → b.size < size + header) l
Carved l size overlapping = Any (Tight size) l
Carved l size (found n p l') = Served l size p (push n l')

-- `c` is a part of `b`.
abbrev Inside : Block → Block → Type 0
Inside c b = (b.addr ≤ c.addr) × (c.addr + c.size ≤ b.addr + b.size)

Apart-Inside : (x b c : Block) → Apart x b → Inside c b → Apart x c
Apart-Inside x b c d i = omega arith

Apart-symm : (b c : Block) → Apart b c → Apart c b
Apart-symm b c (inl h) = inr h
Apart-symm b c (inr h) = inl h

All-Apart-Inside : (b c : Block) (l : List Block) → Inside c b → All (Apart b) l → All (Apart c) l
All-Apart-Inside b c [] i d = tt
All-Apart-Inside b c (x ∷ l) i d = (omega arith, All-Apart-Inside b c l i d.1)

All-Apart-push :
    (b : Block) (n : Option Block) (l : List Block) → All (Apart b) (push n l) → All (Apart b) l
All-Apart-push b none l d = d
All-Apart-push b (some n) l d = d.1

-- A used block is not the one that a search found free.
Any-tail :
    (x b : Block) (l : List Block)
    → x.free ≡ false
    → b.free ≡ true
    → Any (λ c. c ≡ x) (b ∷ l)
    → Any (λ c. c ≡ x) l
Any-tail x b l used free (inl e) = absurd (false≢true (sym used ∙ sym (ap (λ c. c.free) e) ∙ free))
Any-tail x b l used free (inr i) = i

cut-Served :
    (b : Block) (l : List Block) (size : ℕ)
    → size < page_size
    → IsHeap (b ∷ l)
    → HasHeaders l
    → b.free ≡ true
    → size + header + header ≤ b.size
    → Served
        (b ∷ l)
        size
        (add_word (cut b size).addr header)
        (cut b size ∷ record b { size = sub_word b.size (add_word size header) } ∷ l)
cut-Served b l size small v h f room = record {
  source = inl (f, omega (arith, v.0), omega (arith, v.0));
  owner = inl (refl, omega (arith, v.0), omega (arith, v.0));
  heap = (
    omega (arith, v.0),
    (omega (arith, v.0), All-Apart-Inside b (cut b size) l upper v.1),
    (
      omega (arith, v.0),
      All-Apart-Inside b (record b { size = sub_word b.size (add_word size header) }) l lower v.1,
      v.2,
    ),
  );
  headers = (omega (arith, v.0), (omega (arith, v.0), h));
  apart = λ x d. (
    Apart-Inside x b (cut b size) d.0 upper,
    (Apart-Inside x b (record b { size = sub_word b.size (add_word size header) }) d.0 lower, d.1),
  );
  kept = λ x used i. inr (inr (Any-tail x b l used f i));
}
  where
    upper : Inside (cut b size) b
    upper = omega (arith, v.0)

    lower : Inside (record b { size = sub_word b.size (add_word size header) }) b
    lower = omega (arith, v.0)

whole-Served :
    (b : Block) (l : List Block) (size : ℕ)
    → IsHeap (b ∷ l)
    → HasHeaders (b ∷ l)
    → b.free ≡ true
    → size + header ≤ b.size
    → Served (b ∷ l) size (add_word b.addr header) (record b { free = false } ∷ l)
whole-Served b l size v h f room = record {
  source = inl (f, omega (arith, v.0), omega (arith, v.0));
  owner = inl (refl, omega (arith, v.0), omega (arith, v.0));
  heap = v;
  headers = h;
  apart = λ x d. d;
  kept = λ x used i. inr (Any-tail x b l used f i);
}

cons-Served :
    (b : Block) (l : List Block) (size p : ℕ) (n : Option Block) (l' : List Block)
    → IsHeap (b ∷ l)
    → header ≤ b.size
    → Served l size p (push n l')
    → Served (b ∷ l) size p (push n (b ∷ l'))
cons-Served b l size p none l' v h s = record {
  source = inr s.source;
  owner = inr s.owner;
  heap = (v.0, s.apart b v.1, s.heap);
  headers = (h, s.headers);
  apart = λ x d. (d.0, s.apart x d.1);
  kept = λ x used i. elim i [ inl e ↦ inl e | inr i' ↦ inr (s.kept x used i') ];
}
cons-Served b l size p (some n) l' v h s = record {
  source = inr s.source;
  owner = elim s.owner [ inl o ↦ inl o | inr o ↦ inr (inr o) ];
  heap =
      (s.heap.0, (Apart-symm b n (s.apart b v.1).0, s.heap.1), (v.0, (s.apart b v.1).1, s.heap.2));
  headers = (s.headers.0, (h, s.headers.1));
  apart = λ x d. ((s.apart x d.1).0, (d.0, (s.apart x d.1).1));
  kept = λ x used i. elim i [
    | inl e ↦ inr (inl e)
    | inr i' ↦ elim (s.kept x used i') [ inl e ↦ inl e | inr j ↦ inr (inr j) ]
  ];
}

fits_lem :
    (b : Block) (size : ℕ)
    → b.size < 2 ^ 64
    → header ≤ b.size
    → fits b size ≡ true
    → (b.free ≡ true) × (size + header ≤ b.size)
fits_lem b size v h fit = (ground arith, ground arith)

misfit :
    (b : Block) (size : ℕ)
    → b.size < 2 ^ 64
    → header ≤ b.size
    → fits b size ≡ false
    → b.free ≡ true
    → b.size < size + header
misfit b size v h miss free = ground arith

split-Carved :
    (b : Block) (l : List Block) (size : ℕ)
    → size < page_size
    → IsHeap (b ∷ l)
    → HasHeaders l
    → b.free ≡ true
    → size + header < b.size
    → Carved (b ∷ l) size (
        if ltb (sub_word b.size (add_word size header)) header
        then overlapping
        else found
            (some (cut b size))
            (add_word (cut b size).addr header)
            (record b { size = sub_word b.size (add_word size header) } ∷ l))
split-Carved b l size small v h free room =
    elim (Bool-cases (ltb (sub_word b.size (add_word size header)) header)) [
      | inl tight ↦ rw tight (inl (free, room, ground (arith, v.0)))
      | inr wide ↦ rw wide (cut-Served b l size small v h free (ground (arith, v.0)))
    ]

pass-Carved :
    (b : Block) (l : List Block) (size : ℕ) (r : Search)
    → IsHeap (b ∷ l)
    → header ≤ b.size
    → fits b size ≡ false
    → Carved l size r
    → Carved (b ∷ l) size (pass b r)
pass-Carved b l size absent v h miss c = (misfit b size (omega (arith, v.0)) h miss, c)
pass-Carved b l size overlapping v h miss t = inr t
pass-Carved b l size (found n p l') v h miss s = cons-Served b l size p n l' v h s

carve-Carved :
    (l : List Block) (size : ℕ)
    → size < page_size
    → IsHeap l
    → HasHeaders l
    → Carved l size (carve l size)
unfolding carve
carve-Carved [] size small v h = tt
carve-Carved (b ∷ l) size small v h = elim (Bool-cases (fits b size)) [
  | inl fit ↦
      let (free, room) = fits_lem b size (omega (arith, v.0)) h.0 fit in
      elim (Bool-cases (ltb header (sub_word b.size size))) [
        | inl split ↦
            rw (fit, split)
              (split-Carved b l size small v h.1 free (ground (arith, v.0, h.0, room)))
        | inr whole ↦ rw (fit, whole) (whole-Served b l size v h free room)
      ]
  | inr miss ↦
      rw miss (pass-Carved b l size (carve l size) v h.0 miss (carve-Carved l size small v.2 h.1))
]

-- What `kmalloc` may do with a request.
abbrev pub Result : List Block → ℕ → Outcome → Type 0
Result l size (returned p l') = Served l size p l'
Result l size corrupts = Any (Tight size) l
Result l size hangs =
    (page_size - header ≤ size) ⊎ All (λ b. b.free ≡ true → b.size < size + header) l

-- On a heap whose blocks share no byte and have room for their headers, `kmalloc` returns an address
-- whose `size` bytes lied behind a header in a block that was free, and now are the payload of a used
-- block; the blocks still share no byte and have room for their headers, and no used block has changed. It writes over the header
-- of a block only if there is a free one that the request leaves with 1 to 23 bytes, and hangs only if the request does
-- not fit into a page with a header, or into any free block.
pub kmalloc-Result :
    (l : List Block) (size : ℕ) → IsHeap l → HasHeaders l → Result l size (kmalloc l size)
unfolding kmalloc
kmalloc-Result l size v h = elim (Bool-cases (leb (page_size - header) size)) [
  | inl big ↦ rw big (inl (ground arith))
  | inr small ↦ rw small (go (carve l size) (carve-Carved l size (ground arith) v h))
]
  where
    go : (r : Search) → Carved l size r → Result l size (outcome r)
    go absent c = inr c
    go overlapping t = t
    go (found n p l') s = s

-- A request of a page less a header, or more, makes `kmalloc` hang whatever the heap holds.
pub kmalloc-hangs : (l : List Block) (size : ℕ) → page_size - header ≤ size → kmalloc l size ≡ hangs
unfolding kmalloc
kmalloc-hangs l size h = ground arith
