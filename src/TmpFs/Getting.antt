-- ===== src/TmpFs/Getting.antt =====
-- `block_to_write` on each of its branches.
use lizarx.Prelude.{
  set, ℕ, ◌+◌, ◌-◌, ◌<◌, ◌≤◌, ◌≡◌, ◌≢◌, inl, inr, refl, sym, ◌∙◌, false, some, ltb, ◌==◌, arith,
  ℕ_discrete, Bool-cases, dec_lt,
}
use lizarx.TmpFs.{
  RamfsNode, Store, last_block, set_pointer, with_indirect, block_to_write, block_to_read,
}
use lizarx.TmpFs.Blocks.{Pages, Layout, Got, grown-Layout, distinct}

module _ (alloc : ℕ → ℕ) (pages : Pages alloc) where
  -- A block that is there already.
  present-Got :
      (n : ℕ) (node node' : RamfsNode) (s s' : Store) (block : ℕ)
      → Layout alloc node' s'
      → block ≢ 0
      → block_to_read n node' s' ≡ block
      → ((m : ℕ) → block_to_read m node' s' ≡ block_to_read m node s)
      → s'.bytes ≡ s.bytes
      → node'.st_size ≡ node.st_size
      → node'.flags ≡ node.flags
      → s.calls ≤ s'.calls
      → Got alloc n node s (some (block, node', s'))
  present-Got n node node' s s' block l there at same bytes size flags calls = record {
    block = block;
    node' = node';
    s' = s';
    result = refl;
    there = there;
    at = at;
    others = λ m ne. same m;
    old = λ h. sym at ∙ same n;
    new = λ h. absurd (there (sym at ∙ same n ∙ h));
    same_bytes = bytes;
    same_size = size;
    same_flags = flags;
    calls = calls;
    layout = l;
  }

  direct-Got :
      (n : ℕ) (node : RamfsNode) (s : Store)
      → Layout alloc node s
      → n < 12
      → Got alloc n node s (block_to_write alloc n node s)
  unfolding block_to_write block_to_read
  direct-Got n node s l lt = elim (ℕ_discrete (node.direct_block_ptr n) 0) [
    | no there ↦
        let at : block_to_read n node s ≡ node.direct_block_ptr n = ground arith in
        let r : block_to_write alloc n node s ≡ some (node.direct_block_ptr n, node, s) =
          ground arith in
        rw r (
          present-Got n node node s s (node.direct_block_ptr n) l there at (λ m. refl) refl refl
            refl (omega arith))
    | yes null ↦
        let node' = record node {
          direct_block_ptr = set node.direct_block_ptr n (alloc s.calls);
        } in
        let s' = record s { calls = s.calls + 1 } in
        let r : block_to_write alloc n node s ≡ some (alloc s.calls, node', s') = ground arith in
        let at : block_to_read n node' s' ≡ alloc s.calls = ground arith in
        let others : (m : ℕ) → m ≢ n → block_to_read m node' s' ≡ block_to_read m node s =
          λ m ne. ground arith in
        let missing : block_to_read n node s ≡ 0 = ground arith in
        record {
          block = alloc s.calls;
          node' = node';
          s' = s';
          result = r;
          there = pages.there s.calls;
          at = at;
          others = others;
          old = λ h. absurd (h missing);
          new = λ h. (s.calls, omega arith, refl);
          same_bytes = refl;
          same_size = refl;
          same_flags = refl;
          calls = omega arith;
          layout =
              grown-Layout alloc pages n node s l node' s' s.calls (omega arith) (omega arith) at
                others (λ k lo. l.indirect k (omega arith)) (λ k i lo. l.cleared k i (omega arith));
        }
  ]

  -- The page of block pointers is there, and the blocks are as they were.
  record Pointed (node : RamfsNode) (s : Store) (node' : RamfsNode) (s' : Store) : Type 0 where
    there : node'.once_indirect_block ≢ 0
    same : (m : ℕ) → block_to_read m node' s' ≡ block_to_read m node s
    layout : Layout alloc node' s'
    calls : s.calls ≤ s'.calls
    same_bytes : s'.bytes ≡ s.bytes
    same_size : node'.st_size ≡ node.st_size
    same_flags : node'.flags ≡ node.flags

  with_indirect-Pointed :
      (node : RamfsNode) (s : Store)
      → Layout alloc node s
      → Pointed node s (with_indirect alloc node s).0 (with_indirect alloc node s).1
  unfolding block_to_read
  with_indirect-Pointed node s l = elim (Bool-cases (node.once_indirect_block == 0)) [
    | inr there ↦ rw there (record {
      there = ground arith;
      same = λ m. refl;
      layout = l;
      calls = omega arith;
      same_bytes = refl;
      same_size = refl;
      same_flags = refl;
    })
    | inl null ↦
        let node' = record node { once_indirect_block = alloc s.calls } in
        let s' = record s { calls = s.calls + 1 } in
        let same : (m : ℕ) → block_to_read m node' s' ≡ block_to_read m node s =
          λ m. ground (arith, l.cleared s.calls (m - 12), pages.there s.calls, null) in
        rw null (record {
          there = pages.there s.calls;
          same = same;
          layout = record {
            blocks = λ a b ne ha hb.
                rw (same a, same b) (l.blocks a b ne (λ z. ha (same a ∙ z)) (λ z. hb (same b ∙ z)));
            fresh = λ a k ha lo. rw (same a) (l.fresh a k (λ z. ha (same a ∙ z)) (omega arith));
            indirect = λ k lo. distinct alloc pages s.calls k (omega arith);
            cleared = λ k i lo. l.cleared k i (omega arith);
          };
          calls = omega arith;
          same_bytes = refl;
          same_size = refl;
          same_flags = refl;
        })
  ]

  indirect-Got :
      (n : ℕ) (node : RamfsNode) (s : Store)
      → Layout alloc node s
      → 12 ≤ n
      → n ≤ last_block
      → Got alloc n node s (block_to_write alloc n node s)
  unfolding block_to_write block_to_read
  indirect-Got n node s l lo hi =
      elim (ℕ_discrete (s1.pointers node1.once_indirect_block (n - 12)) 0) [
        | no there ↦
            let block = s1.pointers node1.once_indirect_block (n - 12) in
            let at : block_to_read n node1 s1 ≡ block = ground (arith, p.there) in
            let r : block_to_write alloc n node s ≡ some (block, node1, s1) =
              rw (far, near) (ground arith) in
            rw r (
              present-Got n node node1 s s1 block p.layout there at p.same p.same_bytes p.same_size
                p.same_flags p.calls)
        | yes null ↦
            let i = n - 12 in
            let s2 =
              set_pointer node1.once_indirect_block i (alloc s1.calls)
                (record s1 { calls = s1.calls + 1 }) in
            let pn = pages.there s1.calls in
            let r : block_to_write alloc n node s ≡ some (alloc s1.calls, node1, s2) =
              rw (far, near) (ground arith) in
            let at : block_to_read n node1 s2 ≡ alloc s1.calls = ground (arith, p.there) in
            let others : (m : ℕ) → m ≢ n → block_to_read m node1 s2 ≡ block_to_read m node1 s1 =
              λ m ne. ground arith in
            let missing : block_to_read n node1 s1 ≡ 0 = ground (arith, null) in
            record {
              block = alloc s1.calls;
              node' = node1;
              s' = s2;
              result = r;
              there = pn;
              at = at;
              others = λ m ne. others m ne ∙ p.same m;
              old = λ h. absurd (h (sym (p.same n) ∙ missing));
              new = λ h. (s1.calls, p.calls, refl);
              same_bytes = p.same_bytes;
              same_size = p.same_size;
              same_flags = p.same_flags;
              calls = omega (arith, p.calls);
              layout =
                  grown-Layout alloc pages n node1 s1 p.layout node1 s2 s1.calls (omega arith)
                    (omega arith) at others (λ k lt. p.layout.indirect k (omega arith))
                    (λ k j lt. ground (arith, p.layout.cleared k j, p.layout.indirect k));
            }
      ]
    where
      node1 : RamfsNode
      node1 = (with_indirect alloc node s).0

      s1 : Store
      s1 = (with_indirect alloc node s).1

      p : Pointed node s node1 s1
      p = with_indirect-Pointed node s l

      far : ltb n 12 ≡ false
      far = ground arith

      near : ltb last_block n ≡ false
      near = ground arith

  -- The block of a file that has room for it.
  pub block_to_write-Got :
      (n : ℕ) (node : RamfsNode) (s : Store)
      → Layout alloc node s
      → n ≤ last_block
      → Got alloc n node s (block_to_write alloc n node s)
  block_to_write-Got n node s l hi = elim (dec_lt n 12) [
    | yes lt ↦ direct-Got n node s l lt
    | no ge ↦ indirect-Got n node s l (omega arith) hi
  ]
