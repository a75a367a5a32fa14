-- ===== src/TmpFs/Loop.antt =====
-- The loop of `write_to_node`.
use lizarx.Prelude.{
  ℕ, zero, suc, ◌+◌, ◌-◌, ◌*◌, ◌/◌, ◌%◌, ◌^◌, ◌<◌, ◌≤◌, ◌≡◌, ◌≢◌, ◌⊎◌, inl, inr, refl, ap, sym, ◌∙◌,
  true, false, Option, some, ltb, arith, dec_lt,
}
use lizarx.Memory.{Memory}
use lizarx.TmpFs.{
  RamfsNode, Store, page_size, last_block, portion, next_page, block_to_write, block_to_read,
  write_from,
}
use lizarx.TmpFs.Blocks.{Pages, Layout}
use lizarx.TmpFs.Getting.{block_to_write-Got}
use lizarx.TmpFs.Writing.{
  contents, Backed, Clear, Copies, Written, with_bytes-Layout, stepped, got-Clear, round-Written,
}

module _ (alloc : ℕ → ℕ) (pages : Pages alloc) where
  -- Nothing is written.
  none-Written :
      (src offset : ℕ) (node : RamfsNode) (s : Store)
      → Layout alloc node s
      → Written alloc src 0 offset node s node s
  none-Written src offset node s l = record {
    layout = l;
    backed = λ x lo hi. absurd (omega arith);
    filled = λ x lo hi. absurd (omega arith);
    owned = λ n b. inl refl;
    still = λ n b. refl;
    kept = λ x b out. refl;
    frame = λ a out. refl;
    same_size = refl;
    same_flags = refl;
    calls = omega arith;
  }

  -- One part, and then the rest.
  then-Written :
      (src count left offset : ℕ) (node node1 node2 : RamfsNode) (s s1 s2 : Store)
      → Clear alloc src (count + left) node1 s1
      → Written alloc src count offset node s node1 s1
      → Written alloc (src + count) left (offset + count) node1 s1 node2 s2
      → Written alloc src (count + left) offset node s node2 s2
  then-Written src count left offset node node1 node2 s s1 s2 c v w = record {
    layout = w.layout;
    backed = λ x lo hi. backed x lo hi (dec_lt x (offset + count));
    filled = λ x lo hi. filled x lo hi (dec_lt x (offset + count));
    owned = λ n b. owned n b (w.owned n b);
    still = λ n b. w.still n (λ z. b (sym (v.still n b) ∙ z)) ∙ v.still n b;
    kept = λ x b out.
        w.kept x (λ z. b (sym (v.still (x / page_size) b) ∙ z)) (ground arith)
        ∙ v.kept x b (ground arith);
    frame = λ a out.
        w.frame a out
        ∙ v.frame a (λ n there.
          let same = w.still n there in
          let far = out n (λ z. there (sym same ∙ z)) in rw (sym same) far);
    same_size = w.same_size ∙ v.same_size;
    same_flags = w.same_flags ∙ v.same_flags;
    calls = omega (arith, v.calls, w.calls);
  }
    where
      owned :
          (n : ℕ)
          → block_to_read n node2 s2 ≢ 0
          → (block_to_read n node2 s2 ≡ block_to_read n node1 s1)
            ⊎ ((k : ℕ) × (s1.calls ≤ k) × (block_to_read n node2 s2 ≡ alloc k))
          → (block_to_read n node2 s2 ≡ block_to_read n node s)
            ⊎ ((k : ℕ) × (s.calls ≤ k) × (block_to_read n node2 s2 ≡ alloc k))
      owned n b (inr (k, lo, e)) = inr (k, omega (arith, lo, v.calls), e)
      owned n b (inl e) = elim (v.owned n (λ z. b (e ∙ z))) [
        | inl e' ↦ inl (e ∙ e')
        | inr (k, lo, e') ↦ inr (k, lo, e ∙ e')
      ]

      backed :
          (x : ℕ)
          → offset ≤ x
          → x < offset + (count + left)
          → Dec (x < offset + count)
          → Backed node2 s2 x
      backed x lo hi (yes first) =
          λ z. v.backed x lo first (sym (w.still (x / page_size) (v.backed x lo first)) ∙ z)
      backed x lo hi (no later) = w.backed x (omega arith) (omega arith)

      filled :
          (x : ℕ)
          → offset ≤ x
          → x < offset + (count + left)
          → Dec (x < offset + count)
          → contents node2 s2 x ≡ s.bytes (src + (x - offset))
      filled x lo hi (yes first) =
          w.kept x (v.backed x lo first) (inl (omega arith)) ∙ v.filled x lo first
      filled x lo hi (no later) =
          let at : src + count + (x - (offset + count)) ≡ src + (x - offset) = omega arith in
          w.filled x (omega arith) (omega arith)
          ∙ ap s1.bytes at
          ∙ v.frame (src + (x - offset)) (λ n there. ground (arith, c.blocks n there))

  pub recast :
      (src src' left left' offset offset' : ℕ) (node node' : RamfsNode) (s s' : Store)
      → src ≡ src'
      → left ≡ left'
      → offset ≡ offset'
      → Written alloc src left offset node s node' s'
      → Written alloc src' left' offset' node s node' s'
  recast src src' left left' offset offset' node node' s s' a b c w = rw (sym a, sym b, sym c) w

  -- Where nothing is written it does not matter from where and at which place.
  moved :
      (src src' offset offset' : ℕ) (node node' : RamfsNode) (s s' : Store)
      → Written alloc src 0 offset node s node' s'
      → Written alloc src' 0 offset' node s node' s'
  moved src src' offset offset' node node' s s' w = record {
    layout = w.layout;
    backed = λ x lo hi. absurd (omega arith);
    filled = λ x lo hi. absurd (omega arith);
    owned = w.owned;
    still = w.still;
    kept = λ x b out. w.kept x b (ground arith);
    frame = w.frame;
    same_size = w.same_size;
    same_flags = w.same_flags;
    calls = w.calls;
  }

module _ (memcpy : ℕ → ℕ → ℕ → Memory → Memory) (copies : Copies memcpy) (alloc : ℕ → ℕ)
    (pages : Pages alloc) (buf nbyte : ℕ) where
  -- What the loop gives from `bytes_written` on.
  pub record Done (done offset : ℕ) (node : RamfsNode) (s : Store)
      (r : Option (ℕ × RamfsNode × Store)) : Type 0 where
    pub node' : RamfsNode
    pub s' : Store
    pub result : r ≡ some (nbyte, node', s')
    pub written : Written alloc (buf + done) (nbyte - done) offset node s node' s'

  -- A round, and what the loop gives behind it.
  next-Done :
      (offset next done count : ℕ) (node node1 : RamfsNode) (s s1 : Store)
      (r : Option (ℕ × RamfsNode × Store))
      → done + count ≤ nbyte
      → (done + count < nbyte → next ≡ offset + count)
      → Clear alloc buf nbyte node1 s1
      → Written alloc (buf + done) count offset node s node1 s1
      → Done (done + count) next node1 s1 r
      → Done done offset node s r
  next-Done offset next done count node node1 s s1 r le at c v rest = record {
    node' = rest.node';
    s' = rest.s';
    result = rest.result;
    written =
        recast alloc pages (buf + done) (buf + done) (count + (nbyte - (done + count)))
          (nbyte - done) offset offset node rest.node' s rest.s' refl (omega (arith, le)) refl
          (then-Written alloc pages (buf + done) count (nbyte - (done + count)) offset node node1
            rest.node' s s1 rest.s' part v (tail (dec_lt (done + count) nbyte)));
  }
    where
      part : Clear alloc (buf + done) (count + (nbyte - (done + count))) node1 s1
      part = record {
        blocks = λ n b. ground (arith, c.blocks n b, le);
        fresh = λ k lo. ground (arith, c.fresh k lo, le);
      }

      tail :
          Dec (done + count < nbyte)
          → Written alloc
              (buf + done + count)
              (nbyte - (done + count))
              (offset + count)
              node1
              s1
              rest.node'
              rest.s'
      tail (yes h) =
          recast alloc pages (buf + (done + count)) (buf + done + count) (nbyte - (done + count))
            (nbyte - (done + count)) next (offset + count) node1 rest.node' s1 rest.s' (omega arith)
            refl (at h) rest.written
      tail (no h) =
          let z : nbyte - (done + count) ≡ 0 = omega arith in
          recast alloc pages (buf + done + count) (buf + done + count) 0 (nbyte - (done + count))
            (offset + count) (offset + count) node1 rest.node' s1 rest.s' refl (sym z) refl
            (moved alloc pages (buf + (done + count)) (buf + done + count) next (offset + count)
              node1 rest.node' s1 rest.s'
              (recast alloc pages (buf + (done + count)) (buf + (done + count))
                (nbyte - (done + count)) 0 next next node1 rest.node' s1 rest.s' refl z refl
                rest.written))

  unrolled :
      (rounds offset done : ℕ) (node node' : RamfsNode) (s s' : Store) (block : ℕ)
      → ltb done nbyte ≡ true
      → block_to_write alloc (offset / page_size % 2 ^ 32) node s ≡ some (block, node', s')
      → (done + portion offset (nbyte - done)) % 2 ^ 32 ≡ done + portion offset (nbyte - done)
      → write_from memcpy alloc (suc rounds) buf nbyte offset done node s
        ≡ write_from memcpy alloc rounds buf nbyte
            (next_page offset)
            (done + portion offset (nbyte - done))
            node'
            (stepped memcpy block (portion offset (nbyte - done)) offset (buf + done) s')
  unfolding write_from
  unrolled rounds offset done node node' s s' block going r small = rw (going, r, small) refl

  pub write_from-Done :
      (rounds offset done : ℕ) (node : RamfsNode) (s : Store)
      → nbyte < 2 ^ 32
      → Layout alloc node s
      → Clear alloc buf nbyte node s
      → done ≤ nbyte
      → (done < nbyte → offset + (nbyte - done) ≤ (last_block + 1) * page_size)
      → nbyte - done < rounds
      → Done done offset node s (write_from memcpy alloc rounds buf nbyte offset done node s)
  unfolding write_from
  write_from-Done zero offset done node s small l c le room lt = absurd (omega arith)
  write_from-Done (suc rounds) offset done node s small l c le room lt = elim (dec_lt done nbyte) [
    | no end ↦
        let e : done ≡ nbyte = omega arith in
        let stop : ltb done nbyte ≡ false = ground arith in
        let nothing : nbyte - done ≡ 0 = omega arith in
        record {
          node' = node;
          s' = s;
          result = rw (stop, e) refl;
          written = rw nothing (none-Written alloc pages (buf + done) offset node s l);
        }
    | yes more ↦
        let g =
          block_to_write-Got alloc pages (offset / page_size) node s l
            (omega (arith, room more, more)) in
        let count = portion offset (nbyte - done) in
        let s1 = stepped memcpy g.block count offset (buf + done) g.s' in
        let v =
          round-Written memcpy copies alloc pages buf nbyte offset done node s l c more
            (omega (arith, room more, more)) g in
        let c1 =
          got-Clear memcpy copies alloc pages buf nbyte (offset / page_size) node s s1.bytes c
            (block_to_write alloc (offset / page_size) node s) g in
        let short : count ≤ nbyte - done = ground arith in
        let some_bytes : 0 < count = ground arith in
        let small' : (done + count) % 2 ^ 32 ≡ done + count = omega (arith, short) in
        let at : done + count < nbyte → next_page offset ≡ offset + count =
          λ h. ground (arith, h) in
        let rest =
          write_from-Done rounds (next_page offset) (done + count) g.node' s1 small
            (with_bytes-Layout alloc g.node' g.s' s1.bytes g.layout) c1 (omega (arith, short))
            (λ h. omega (arith, at h, room more)) (omega (arith, some_bytes, short)) in
        let going : ltb done nbyte ≡ true = ground arith in
        let index : offset / page_size % 2 ^ 32 ≡ offset / page_size = omega (arith, room more) in
        let d =
          next-Done offset (next_page offset) done count node g.node' s s1
            (write_from memcpy alloc rounds buf nbyte (next_page offset) (done + count) g.node' s1)
            (omega (arith, short)) at c1 v rest in
        record {
          node' = d.node';
          s' = d.s';
          result =
              unrolled rounds offset done node g.node' s g.s' g.block going
                (ap (λ n. block_to_write alloc n node s) index ∙ g.result) small'
              ∙ d.result;
          written = d.written;
        }
  ]
