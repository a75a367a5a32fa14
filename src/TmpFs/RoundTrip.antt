-- ===== src/TmpFs/RoundTrip.antt =====
-- `write_to_node` and `read_from_node` one after the other.
use lizarx.Prelude.{
  ◌>>=◌, ℕ, ◌+◌, ◌-◌, ◌*◌, ◌<◌, ◌≤◌, ◌≡◌, ◌⊎◌, inl, inr, refl, ap, ◌∙◌, Option, some, ltb,
  if◌then◌else◌, arith, Bool-cases,
}
use lizarx.Memory.{Memory}
use lizarx.TmpFs.{
  RamfsNode, Store, page_size, last_block, extend, block_to_read, write_to_node, read_from_node,
}
use lizarx.TmpFs.Blocks.{Pages, Layout}
use lizarx.TmpFs.Writing.{contents, Backed, Clear, Copies, Written}
use lizarx.TmpFs.Loop.{recast, write_from-Done}
use lizarx.TmpFs.Reading.{Aside, read_from-Filled}

extend-same :
    (stop n : ℕ) (node : RamfsNode) (s : Store)
    → block_to_read n (extend stop node) s ≡ block_to_read n node s
unfolding block_to_read
extend-same stop n node s = elim (Bool-cases (ltb node.st_size stop)) [
  | inl more ↦ rw more refl
  | inr same ↦ rw same refl
]

extend-Layout :
    (alloc : ℕ → ℕ) (stop : ℕ) (node : RamfsNode) (s : Store)
    → Layout alloc node s
    → Layout alloc (extend stop node) s
unfolding block_to_read
extend-Layout alloc stop node s l = elim (Bool-cases (ltb node.st_size stop)) [
  | inl more ↦
      rw more
        (record { blocks = l.blocks; fresh = l.fresh; indirect = l.indirect; cleared = l.cleared })
  | inr same ↦ rw same l
]

extend-Clear :
    (alloc : ℕ → ℕ) (buf nbyte stop : ℕ) (node : RamfsNode) (s : Store)
    → Clear alloc buf nbyte node s
    → Clear alloc buf nbyte (extend stop node) s
unfolding block_to_read
extend-Clear alloc buf nbyte stop node s c = elim (Bool-cases (ltb node.st_size stop)) [
  | inl more ↦ rw more (record { blocks = c.blocks; fresh = c.fresh })
  | inr same ↦ rw same c
]

-- The size of a file of which a part ends at `stop`.
abbrev pub size_at : ℕ → ℕ → ℕ
size_at stop size = if ltb size stop then stop else size

extend-size : (stop : ℕ) (node : RamfsNode) → (extend stop node).st_size ≡ size_at stop node.st_size
extend-size stop node = ground arith

module _ (memcpy : ℕ → ℕ → ℕ → Memory → Memory) (copies : Copies memcpy) (alloc : ℕ → ℕ)
    (pages : Pages alloc) where
  -- What `write_to_node` returns and leaves.
  pub record Stored (buf nbyte offset : ℕ) (node : RamfsNode) (s : Store)
      (r : Option (ℕ × RamfsNode × Store)) : Type 0 where
    pub node' : RamfsNode
    pub s' : Store
    pub result : r ≡ some (nbyte, node', s')
    pub size : node'.st_size ≡ size_at (offset + nbyte) node.st_size
    pub written : Written alloc buf nbyte offset (extend (offset + nbyte) node) s node' s'

  pub write_to_node-Stored :
      (rounds buf nbyte offset : ℕ) (node : RamfsNode) (s : Store)
      → Layout alloc node s
      → Clear alloc buf nbyte node s
      → offset + nbyte ≤ (last_block + 1) * page_size
      → nbyte < rounds
      → Stored buf nbyte offset node s (write_to_node memcpy alloc rounds buf nbyte offset node s)
  unfolding write_to_node
  write_to_node-Stored rounds buf nbyte offset node s l c room lt =
      let d =
        write_from-Done memcpy copies alloc pages buf nbyte rounds offset 0
          (extend (offset + nbyte) node) s (omega arith)
          (extend-Layout alloc (offset + nbyte) node s l)
          (extend-Clear alloc buf nbyte (offset + nbyte) node s c) (omega arith) (λ h. omega arith)
          (omega arith) in
      record {
        node' = d.node';
        s' = d.s';
        result = d.result;
        size = d.written.same_size ∙ extend-size (offset + nbyte) node;
        written =
            recast alloc pages (buf + 0) buf (nbyte - 0) nbyte offset offset
              (extend (offset + nbyte) node) d.node' s d.s' (omega arith) (omega arith) refl
              d.written;
      }

  -- The buffer is in no block of the file behind a write.
  written-Aside :
      (buf buf' nbyte offset : ℕ) (node node' : RamfsNode) (s s' : Store)
      → Clear alloc buf' nbyte node s
      → Written alloc buf nbyte offset node s node' s'
      → Aside memcpy copies node' s' buf' nbyte
  written-Aside buf buf' nbyte offset node node' s s' c w n b = elim (w.owned n b) [
    | inl e ↦ rw e (c.blocks n (λ z. b (e ∙ z)))
    | inr (k, lo, e) ↦ rw e (c.fresh k lo)
  ]

  -- What `read_from_node` returns and leaves: the buffer holds the bytes of the file, and no other byte has changed.
  pub record Fetched (buf nbyte offset : ℕ) (node : RamfsNode) (s : Store)
      (r : Option (ℕ × RamfsNode × Store)) : Type 0 where
    pub after : Memory
    pub result : r ≡ some (nbyte, extend (offset + nbyte) node, record s { bytes = after })
    pub read : (i : ℕ) → i < nbyte → after (buf + i) ≡ contents node s (offset + i)
    pub frame : (a : ℕ) → (a < buf) ⊎ (buf + nbyte ≤ a) → after a ≡ s.bytes a

  -- Where a file has blocks for all bytes of a part in its first 523 blocks, and the buffer lies in no block of the file,
  -- `read_from_node` returns the number of bytes, puts them in the buffer, and changes nothing else but the size of the file,
  -- which becomes at least the end of the part.
  pub read_from_node-Fetched :
      (rounds buf nbyte offset : ℕ) (node : RamfsNode) (s : Store)
      → Aside memcpy copies node s buf nbyte
      → ((x : ℕ) → offset ≤ x → x < offset + nbyte → Backed node s x)
      → offset + nbyte ≤ (last_block + 1) * page_size
      → nbyte < rounds
      → Fetched buf nbyte offset node s (read_from_node memcpy rounds buf nbyte offset node s)
  unfolding read_from_node
  read_from_node-Fetched rounds buf nbyte offset node s aside backed room lt =
      let d =
        read_from-Filled memcpy copies node s buf nbyte rounds offset 0 s.bytes (omega arith) aside
          (omega arith) (λ h. omega arith) (λ x lo hi. backed x lo (omega arith)) (omega arith) in
      record {
        after = d.after;
        result = rw (d.result, read_from_node) refl;
        read = λ i less. ap d.after (omega arith) ∙ d.read i (omega arith);
        frame = λ a out. d.frame a (ground arith);
      }

  -- Where the blocks of a file, the pages that `vmm_malloc` will give and two buffers do not overlap, the new pages hold no
  -- block pointers, and the part of the file ends in its first 523 blocks, `read_from_node` of what `write_to_node` wrote
  -- returns the number of bytes and puts into the second buffer what was in the first one.
  pub read_from_node-write_to_node :
      (rounds rounds' buf buf' nbyte offset : ℕ) (node : RamfsNode) (s : Store)
      → Layout alloc node s
      → Clear alloc buf nbyte node s
      → Clear alloc buf' nbyte node s
      → offset + nbyte ≤ (last_block + 1) * page_size
      → nbyte < rounds
      → nbyte < rounds'
      → (node' : RamfsNode) × (s' : Store) × ((write_to_node memcpy alloc rounds buf nbyte offset
              node s
            >>= λ w. read_from_node memcpy rounds' buf' nbyte offset w.1 w.2)
          ≡ some (nbyte, node', s'))
        × ((i : ℕ) → i < nbyte → s'.bytes (buf' + i) ≡ s.bytes (buf + i))
  read_from_node-write_to_node rounds rounds' buf buf' nbyte offset node s l c c' room lt lt' =
      let w = write_to_node-Stored rounds buf nbyte offset node s l c room lt in
      let aside =
        written-Aside buf buf' nbyte offset (extend (offset + nbyte) node) w.node' s w.s'
          (extend-Clear alloc buf' nbyte (offset + nbyte) node s c') w.written in
      let f =
        read_from_node-Fetched rounds' buf' nbyte offset w.node' w.s' aside w.written.backed room
          lt' in
      (
        extend (offset + nbyte) w.node',
        record w.s' { bytes = f.after },
        rw w.result f.result,
        λ i less.
            f.read i less
            ∙ w.written.filled (offset + i) (omega arith) (omega arith)
            ∙ ap s.bytes (omega arith),
      )

  -- A file that is shorter than the end of a part that is read becomes longer, also where it has no bytes there.
  pub read_from_node-grows :
      (rounds buf nbyte offset n : ℕ) (node node' : RamfsNode) (s s' : Store)
      → node.st_size < offset + nbyte
      → read_from_node memcpy rounds buf nbyte offset node s ≡ some (n, node', s')
      → node'.st_size ≡ offset + nbyte
  unfolding read_from_node
  read_from_node-grows rounds buf nbyte offset n node node' s s' short e = ground (arith, e)
