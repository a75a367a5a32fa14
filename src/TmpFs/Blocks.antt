-- ===== src/TmpFs/Blocks.antt =====
-- The blocks of a file, and what `write_to_node` does to get one.
use lizarx.Prelude.{
  ℕ, ◌+◌, ◌<◌, ◌≤◌, ◌≡◌, ◌≢◌, ◌⊎◌, inl, inr, sym, ◌∙◌, Option, some, arith, ℕ_discrete,
}
use lizarx.TmpFs.{RamfsNode, Store, page_size, block_to_read}

-- Two pages with no byte in common.
abbrev pub Apart : ℕ → ℕ → Type 0
Apart a b = (a + page_size ≤ b) ⊎ (b + page_size ≤ a)

-- The pages that `vmm_malloc` gives: none is NULL, and no two overlap.
pub record Pages (alloc : ℕ → ℕ) : Type 0 where
  pub there : (k : ℕ) → alloc k ≢ 0
  pub apart : (k l : ℕ) → k ≢ l → Apart (alloc k) (alloc l)

-- The blocks of the file do not overlap, nor do those that `vmm_malloc` will give, and these hold no block pointers yet.
pub record Layout (alloc : ℕ → ℕ) (node : RamfsNode) (s : Store) : Type 0 where
  pub blocks :
      (n m : ℕ)
      → n ≢ m
      → block_to_read n node s ≢ 0
      → block_to_read m node s ≢ 0
      → Apart (block_to_read n node s) (block_to_read m node s)
  pub fresh :
      (n k : ℕ)
      → block_to_read n node s ≢ 0
      → s.calls ≤ k
      → Apart (block_to_read n node s) (alloc k)
  pub indirect : (k : ℕ) → s.calls ≤ k → node.once_indirect_block ≢ alloc k
  pub cleared : (k i : ℕ) → s.calls ≤ k → s.pointers (alloc k) i ≡ 0

-- The block `n` is there, and the others are as they were.
pub record Got (alloc : ℕ → ℕ) (n : ℕ) (node : RamfsNode) (s : Store)
    (r : Option (ℕ × RamfsNode × Store)) : Type 0 where
  pub block : ℕ
  pub node' : RamfsNode
  pub s' : Store
  pub result : r ≡ some (block, node', s')
  pub there : block ≢ 0
  pub at : block_to_read n node' s' ≡ block
  pub others : (m : ℕ) → m ≢ n → block_to_read m node' s' ≡ block_to_read m node s
  pub old : block_to_read n node s ≢ 0 → block ≡ block_to_read n node s
  pub new : block_to_read n node s ≡ 0 → (k : ℕ) × (s.calls ≤ k) × (block ≡ alloc k)
  pub same_bytes : s'.bytes ≡ s.bytes
  pub same_size : node'.st_size ≡ node.st_size
  pub same_flags : node'.flags ≡ node.flags
  pub calls : s.calls ≤ s'.calls
  pub layout : Layout alloc node' s'

pub distinct : (alloc : ℕ → ℕ) → Pages alloc → (j k : ℕ) → j ≢ k → alloc j ≢ alloc k
distinct alloc pages j k ne same =
    let a : Apart (alloc j) (alloc k) = pages.apart j k ne in omega (arith, a, same)

module _ (alloc : ℕ → ℕ) (pages : Pages alloc) (n : ℕ) (node : RamfsNode) (s : Store)
    (l : Layout alloc node s) where
  -- A file with one more block is laid out as before.
  pub grown-Layout :
      (node' : RamfsNode) (s' : Store) (j : ℕ)
      → s.calls ≤ j
      → j < s'.calls
      → block_to_read n node' s' ≡ alloc j
      → ((m : ℕ) → m ≢ n → block_to_read m node' s' ≡ block_to_read m node s)
      → ((k : ℕ) → s'.calls ≤ k → node'.once_indirect_block ≢ alloc k)
      → ((k i : ℕ) → s'.calls ≤ k → s'.pointers (alloc k) i ≡ 0)
      → Layout alloc node' s'
  grown-Layout node' s' j lo hi at others indirect cleared = record {
    blocks = λ a b ne ha hb. blocks a b ne ha hb (ℕ_discrete a n) (ℕ_discrete b n);
    fresh = λ a k ha lt. fresh a k ha lt (ℕ_discrete a n);
    indirect = indirect;
    cleared = cleared;
  }
    where
      swap : (x y : ℕ) → Apart x y → Apart y x
      swap x y (inl h) = inr h
      swap x y (inr h) = inl h

      blocks :
          (a b : ℕ)
          → a ≢ b
          → block_to_read a node' s' ≢ 0
          → block_to_read b node' s' ≢ 0
          → Dec (a ≡ n)
          → Dec (b ≡ n)
          → Apart (block_to_read a node' s') (block_to_read b node' s')
      blocks a b ne ha hb (yes ea) (yes eb) = absurd (ne (ea ∙ sym eb))
      blocks a b ne ha hb (yes ea) (no nb) =
          let hb' : block_to_read b node s ≢ 0 = λ z. hb (others b nb ∙ z) in
          rw (ea, at, others b nb) (swap (block_to_read b node s) (alloc j) (l.fresh b j hb' lo))
      blocks a b ne ha hb (no na) (yes eb) =
          let ha' : block_to_read a node s ≢ 0 = λ z. ha (others a na ∙ z) in
          rw (eb, at, others a na) (l.fresh a j ha' lo)
      blocks a b ne ha hb (no na) (no nb) =
          rw (others a na, others b nb)
            (l.blocks a b ne (λ z. ha (others a na ∙ z)) (λ z. hb (others b nb ∙ z)))

      fresh :
          (a k : ℕ)
          → block_to_read a node' s' ≢ 0
          → s'.calls ≤ k
          → Dec (a ≡ n)
          → Apart (block_to_read a node' s') (alloc k)
      fresh a k ha lt (yes ea) = rw (ea, at) (pages.apart j k (omega arith))
      fresh a k ha lt (no na) =
          rw (others a na) (l.fresh a k (λ z. ha (others a na ∙ z)) (omega arith))
