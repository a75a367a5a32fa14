-- ===== src/TmpFs/Writing.antt =====
-- What `write_to_node` leaves in a file.
use lizarx.Prelude.{
  ℕ, ◌+◌, ◌-◌, ◌/◌, ◌%◌, ◌<◌, ◌≤◌, ◌≡◌, ◌≢◌, ◌⊎◌, inl, inr, refl, ap, sym, ◌∙◌, Option, arith,
  ℕ_discrete,
}
use lizarx.Memory.{Memory}
use lizarx.TmpFs.{RamfsNode, Store, page_size, last_block, portion, block_to_write, block_to_read}
use lizarx.TmpFs.Blocks.{Apart, Pages, Layout, Got}

-- The address of the byte of a file at `x`.
abbrev pub address : RamfsNode → Store → ℕ → ℕ
address node s x = block_to_read (x / page_size) node s + x % page_size

abbrev pub contents : RamfsNode → Store → ℕ → ℕ
contents node s x = s.bytes (address node s x)

-- The file has a block for the byte at `x`.
abbrev pub Backed : RamfsNode → Store → ℕ → Type 0
Backed node s x = block_to_read (x / page_size) node s ≢ 0

-- The bytes from `buf` on lie in no page at `a`.
abbrev pub Off : ℕ → ℕ → ℕ → Type 0
Off buf nbyte a = (a + page_size ≤ buf) ⊎ (buf + nbyte ≤ a)

-- The buffer lies in no block of the file, and in no page that `vmm_malloc` will give.
pub record Clear (alloc : ℕ → ℕ) (buf nbyte : ℕ) (node : RamfsNode) (s : Store) : Type 0 where
  pub blocks : (n : ℕ) → block_to_read n node s ≢ 0 → Off buf nbyte (block_to_read n node s)
  pub fresh : (k : ℕ) → s.calls ≤ k → Off buf nbyte (alloc k)

pub with_bytes-same :
    (n : ℕ) (node : RamfsNode) (s : Store) (m : Memory)
    → block_to_read n node (record s { bytes = m }) ≡ block_to_read n node s
unfolding block_to_read
with_bytes-same n node s m = refl

pub with_bytes-Layout :
    (alloc : ℕ → ℕ) (node : RamfsNode) (s : Store) (m : Memory)
    → Layout alloc node s
    → Layout alloc node (record s { bytes = m })
unfolding block_to_read
with_bytes-Layout alloc node s m l = record {
  blocks = l.blocks;
  fresh = l.fresh;
  indirect = l.indirect;
  cleared = l.cleared;
}

-- `memcpy` copies between parts of the memory that do not overlap.
pub record Copies (memcpy : ℕ → ℕ → ℕ → Memory → Memory) : Type 0 where
  pub inside :
      (n dest src : ℕ) (m : Memory) (k : ℕ)
      → (dest + n ≤ src) ⊎ (src + n ≤ dest)
      → dest ≤ k
      → k < dest + n
      → memcpy n dest src m k ≡ m (src + (k - dest))
  pub outside :
      (n dest src : ℕ) (m : Memory) (k : ℕ)
      → (dest + n ≤ src) ⊎ (src + n ≤ dest)
      → (k < dest) ⊎ (dest + n ≤ k)
      → memcpy n dest src m k ≡ m k

-- The file after `left` bytes from `src` on were written at `offset`: they are in it, the other bytes are as they were, and
-- so is the memory outside its blocks.
pub record Written (alloc : ℕ → ℕ) (src left offset : ℕ) (node : RamfsNode) (s : Store)
    (node' : RamfsNode) (s' : Store) : Type 0 where
  pub layout : Layout alloc node' s'
  pub backed : (x : ℕ) → offset ≤ x → x < offset + left → Backed node' s' x
  pub filled :
      (x : ℕ) → offset ≤ x → x < offset + left → contents node' s' x ≡ s.bytes (src + (x - offset))
  pub owned :
      (n : ℕ)
      → block_to_read n node' s' ≢ 0
      → (block_to_read n node' s' ≡ block_to_read n node s)
        ⊎ ((k : ℕ) × (s.calls ≤ k) × (block_to_read n node' s' ≡ alloc k))
  pub still :
      (n : ℕ) → block_to_read n node s ≢ 0 → block_to_read n node' s' ≡ block_to_read n node s
  pub kept :
      (x : ℕ)
      → Backed node s x
      → (x < offset) ⊎ (offset + left ≤ x)
      → contents node' s' x ≡ contents node s x
  pub frame :
      (a : ℕ)
      → ((n : ℕ)
          → block_to_read n node' s' ≢ 0
          → (a < block_to_read n node' s') ⊎ (block_to_read n node' s' + page_size ≤ a))
      → s'.bytes a ≡ s.bytes a
  pub same_size : node'.st_size ≡ node.st_size
  pub same_flags : node'.flags ≡ node.flags
  pub calls : s.calls ≤ s'.calls

-- One round: the part that falls into the block.
abbrev pub stepped : (ℕ → ℕ → ℕ → Memory → Memory) → ℕ → ℕ → ℕ → ℕ → Store → Store
stepped memcpy block count offset from s = record s {
  bytes = memcpy count (block + offset % page_size) from s.bytes;
}

module _ (memcpy : ℕ → ℕ → ℕ → Memory → Memory) (copies : Copies memcpy) (alloc : ℕ → ℕ)
    (pages : Pages alloc) (buf nbyte : ℕ) where
  Got-Off :
      (n : ℕ) (node : RamfsNode) (s : Store)
      → Clear alloc buf nbyte node s
      → (r : Option (ℕ × RamfsNode × Store)) (g : Got alloc n node s r) → Off buf nbyte g.block
  Got-Off n node s c r g = elim (ℕ_discrete (block_to_read n node s) 0) [
    | yes missing ↦ let (k, lo, e) = g.new missing in rw e (c.fresh k lo)
    | no there ↦ rw (g.old there) (c.blocks n there)
  ]

  pub got-Clear :
      (n : ℕ) (node : RamfsNode) (s : Store) (m : Memory)
      → Clear alloc buf nbyte node s
      → (r : Option (ℕ × RamfsNode × Store)) (g : Got alloc n node s r)
      → Clear alloc buf nbyte g.node' (record g.s' { bytes = m })
  got-Clear n node s m c r g = record {
    blocks = λ j there. blocks j there (ℕ_discrete j n);
    fresh = λ k lo. c.fresh k (omega (arith, lo, g.calls));
  }
    where
      blocks :
          (j : ℕ)
          → block_to_read j g.node' (record g.s' { bytes = m }) ≢ 0
          → Dec (j ≡ n)
          → Off buf nbyte (block_to_read j g.node' (record g.s' { bytes = m }))
      blocks j there (yes e) =
          rw (with_bytes-same j g.node' g.s' m, e, g.at) (Got-Off n node s c r g)
      blocks j there (no ne) =
          rw (with_bytes-same j g.node' g.s' m, g.others j ne)
            (c.blocks j (λ z. there (with_bytes-same j g.node' g.s' m ∙ g.others j ne ∙ z)))

  pub round-Written :
      (offset done : ℕ) (node : RamfsNode) (s : Store)
      → Layout alloc node s
      → Clear alloc buf nbyte node s
      → done < nbyte
      → offset / page_size ≤ last_block
      → (g : Got alloc
          (offset / page_size)
          node
          s
          (block_to_write alloc (offset / page_size) node s))
      → Written alloc
          (buf + done)
          (portion offset (nbyte - done))
          offset
          node
          s
          g.node'
          (stepped memcpy g.block (portion offset (nbyte - done)) offset (buf + done) g.s')
  round-Written offset done node s l c lt room g = record {
    layout =
        with_bytes-Layout alloc g.node' g.s' (memcpy count dest (buf + done) g.s'.bytes) g.layout;
    backed = λ x lo hi z. g.there (sym (at_block (x / page_size) (in_block x lo hi)) ∙ z);
    filled = λ x lo hi.
        ap written (ap (λ b. b + x % page_size) (at_block (x / page_size) (in_block x lo hi)))
        ∙ copies.inside count dest (buf + done) g.s'.bytes (g.block + x % page_size) disjoint
            (omega (arith, lo, in_block x lo hi)) (omega (arith, lo, hi, in_block x lo hi))
        ∙ ap (λ m. m (buf + done + (g.block + x % page_size - dest))) g.same_bytes
        ∙ ap (λ k. s.bytes (buf + done + k)) (omega (arith, lo, in_block x lo hi));
    owned = λ n b. owned n b (ℕ_discrete n (offset / page_size));
    still = λ n b. still n b (ℕ_discrete n (offset / page_size));
    kept = λ x b out.
        let same = still (x / page_size) b (ℕ_discrete (x / page_size) (offset / page_size)) in
        ap (λ k. written (k + x % page_size)) same
        ∙ copies.outside count dest (buf + done) g.s'.bytes
            (block_to_read (x / page_size) node s + x % page_size) disjoint
            (outside x b out (ℕ_discrete (x / page_size) (offset / page_size)))
        ∙ ap (λ m. m (block_to_read (x / page_size) node s + x % page_size)) g.same_bytes;
    frame = λ a out.
        let here : block_to_read (offset / page_size) g.node' s2 ≡ g.block =
          with_bytes-same (offset / page_size) g.node' g.s' written ∙ g.at in
        let out' : (a < g.block) ⊎ (g.block + page_size ≤ a) =
          rw (sym here) (out (offset / page_size) (λ z. g.there (sym here ∙ z))) in
        copies.outside count dest (buf + done) g.s'.bytes a disjoint (ground (arith, out', small))
        ∙ ap (λ m. m a) g.same_bytes;
    same_size = g.same_size;
    same_flags = g.same_flags;
    calls = g.calls;
  }
    where
      count : ℕ
      count = portion offset (nbyte - done)

      dest : ℕ
      dest = g.block + offset % page_size

      written : Memory
      written = memcpy count dest (buf + done) g.s'.bytes

      s2 : Store
      s2 = record g.s' { bytes = written }

      small : count ≤ page_size - offset % page_size
      small = ground arith

      left : count ≤ nbyte - done
      left = ground arith

      off : Off buf nbyte g.block
      off =
          Got-Off (offset / page_size) node s c (block_to_write alloc (offset / page_size) node s) g

      disjoint : (dest + count ≤ buf + done) ⊎ (buf + done + count ≤ dest)
      disjoint = ground (arith, off, left, small)

      in_block : (x : ℕ) → offset ≤ x → x < offset + count → x / page_size ≡ offset / page_size
      in_block x lo hi = omega (arith, small)

      at_block : (n : ℕ) → n ≡ offset / page_size → block_to_read n g.node' s2 ≡ g.block
      at_block n e =
          ap (λ n. block_to_read n g.node' s2) e
          ∙ with_bytes-same (offset / page_size) g.node' g.s' written
          ∙ g.at

      still :
          (n : ℕ)
          → block_to_read n node s ≢ 0
          → Dec (n ≡ offset / page_size)
          → block_to_read n g.node' s2 ≡ block_to_read n node s
      still n b (yes e) =
          let there : block_to_read (offset / page_size) node s ≢ 0 =
            λ z. b (ap (λ n. block_to_read n node s) e ∙ z) in
          at_block n e ∙ g.old there ∙ ap (λ n. block_to_read n node s) (sym e)
      still n b (no ne) = with_bytes-same n g.node' g.s' written ∙ g.others n ne

      owned :
          (n : ℕ)
          → block_to_read n g.node' s2 ≢ 0
          → Dec (n ≡ offset / page_size)
          → (block_to_read n g.node' s2 ≡ block_to_read n node s)
            ⊎ ((k : ℕ) × (s.calls ≤ k) × (block_to_read n g.node' s2 ≡ alloc k))
      owned n b (yes e) = elim (ℕ_discrete (block_to_read (offset / page_size) node s) 0) [
        | yes missing ↦ let (k, lo, e') = g.new missing in inr (k, lo, at_block n e ∙ e')
        | no there ↦ inl (at_block n e ∙ g.old there ∙ ap (λ n. block_to_read n node s) (sym e))
      ]
      owned n b (no ne) = inl (with_bytes-same n g.node' g.s' written ∙ g.others n ne)

      outside :
          (x : ℕ)
          → Backed node s x
          → (x < offset) ⊎ (offset + count ≤ x)
          → Dec (x / page_size ≡ offset / page_size)
          → (block_to_read (x / page_size) node s + x % page_size < dest)
            ⊎ (dest + count ≤ block_to_read (x / page_size) node s + x % page_size)
      outside x b out (yes e) =
          let same : block_to_read (x / page_size) node s ≡ g.block =
            sym (still (x / page_size) b (yes e)) ∙ at_block (x / page_size) e in
          rw same (ground (arith, out, e))
      outside x b out (no ne) =
          let same = g.others (x / page_size) ne in
          let far : Apart (block_to_read (x / page_size) g.node' g.s')
              (block_to_read (offset / page_size) g.node' g.s') =
            g.layout.blocks (x / page_size) (offset / page_size) ne (λ z. b (sym same ∙ z))
              (λ z. g.there (sym g.at ∙ z)) in
          let far' : Apart (block_to_read (x / page_size) node s) g.block =
            rw (sym same, sym g.at) far in
          ground (arith, far', small)
