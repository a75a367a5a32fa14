-- ===== src/TmpFs/Reading.antt =====
-- What `read_from_node` puts in the buffer.
use lizarx.Prelude.{
  ℕ, zero, suc, ◌+◌, ◌-◌, ◌*◌, ◌/◌, ◌%◌, ◌^◌, ◌<◌, ◌≤◌, ◌≡◌, ◌≢◌, ◌⊎◌, inl, refl, ap, ◌∙◌, true,
  false, Option, some, ltb, ◌==◌, arith, dec_lt,
}
use lizarx.Memory.{Memory}
use lizarx.TmpFs.{
  RamfsNode, Store, page_size, last_block, portion, next_page, block_to_read, read_from,
}
use lizarx.TmpFs.Writing.{address, Backed, Off, with_bytes-same, Copies}

module _ (memcpy : ℕ → ℕ → ℕ → Memory → Memory) (copies : Copies memcpy) (node : RamfsNode)
    (s : Store) (buf nbyte : ℕ) where
  abbrev with_bytes : Memory → Store
  with_bytes m = record s { bytes = m }

  -- The buffer lies in no block of the file.
  abbrev pub Aside : Type 0
  Aside = (n : ℕ) → block_to_read n node s ≢ 0 → Off buf nbyte (block_to_read n node s)

  -- The rest of the buffer holds the bytes of the file, and no other byte has changed.
  pub record Filled (done offset : ℕ) (m : Memory) (r : Option (ℕ × Store)) : Type 0 where
    pub after : Memory
    pub result : r ≡ some (nbyte, with_bytes after)
    pub read : (i : ℕ) → i < nbyte - done → after (buf + done + i) ≡ m (address node s (offset + i))
    pub frame : (a : ℕ) → (a < buf + done) ⊎ (buf + nbyte ≤ a) → after a ≡ m a

  unrolled :
      (rounds offset done : ℕ) (m : Memory)
      → ltb done nbyte ≡ true
      → offset / page_size % 2 ^ 32 ≡ offset / page_size
      → (block_to_read (offset / page_size) node s == 0) ≡ false
      → (done + portion offset (nbyte - done)) % 2 ^ 32 ≡ done + portion offset (nbyte - done)
      → read_from memcpy (suc rounds) buf nbyte offset done node (with_bytes m)
        ≡ read_from memcpy rounds buf nbyte
            (next_page offset)
            (done + portion offset (nbyte - done))
            node
            (with_bytes (
              memcpy
                (portion offset (nbyte - done))
                (buf + done)
                (block_to_read (offset / page_size) node s + offset % page_size)
                m))
  unfolding read_from
  unrolled rounds offset done m going index there small =
      rw (going, index, with_bytes-same (offset / page_size) node s m, there, small) refl

  -- A round, and what the loop gives behind it.
  next-Filled :
      (offset next done count : ℕ) (m : Memory) (r : Option (ℕ × Store))
      → Aside
      → done + count ≤ nbyte
      → count ≤ page_size - offset % page_size
      → (done + count < nbyte → next ≡ offset + count)
      → ((x : ℕ) → offset ≤ x → x < offset + (nbyte - done) → Backed node s x)
      → Filled
          (done + count)
          next
          (memcpy count
            (buf + done)
            (block_to_read (offset / page_size) node s + offset % page_size)
            m)
          r
      → block_to_read (offset / page_size) node s ≢ 0
      → Filled done offset m r
  next-Filled offset next done count m r aside le part at backed rest there = record {
    after = rest.after;
    result = rest.result;
    read = λ i lt. read i lt (dec_lt i count);
    frame = λ a out.
        rest.frame a (ground arith)
        ∙ copies.outside count (buf + done) from m a disjoint (ground arith);
  }
    where
      from : ℕ
      from = block_to_read (offset / page_size) node s + offset % page_size

      disjoint : (buf + done + count ≤ from) ⊎ (from + count ≤ buf + done)
      disjoint = ground (arith, aside (offset / page_size) there)

      read :
          (i : ℕ)
          → i < nbyte - done
          → Dec (i < count)
          → rest.after (buf + done + i) ≡ m (address node s (offset + i))
      read i lt (yes first) =
          let same : (offset + i) / page_size ≡ offset / page_size = omega arith in
          rest.frame (buf + done + i) (inl (omega arith))
          ∙ copies.inside count (buf + done) from m (buf + done + i) disjoint (omega arith)
              (omega arith)
          ∙ ap m (rw same (omega arith))
      read i lt (no later) =
          let more : done + count < nbyte = omega arith in
          let place : buf + done + i ≡ buf + (done + count) + (i - count) = omega arith in
          let source : next + (i - count) ≡ offset + i = omega (arith, at more) in
          ap rest.after place
          ∙ rest.read (i - count) (omega arith)
          ∙ ap (λ x. memcpy count (buf + done) from m (address node s x)) source
          ∙ copies.outside count (buf + done) from m (address node s (offset + i)) disjoint (
              ground (
                arith,
                aside ((offset + i) / page_size) (backed (offset + i) (omega arith) (omega arith)),
              ))

  pub read_from-Filled :
      (rounds offset done : ℕ) (m : Memory)
      → nbyte < 2 ^ 32
      → Aside
      → done ≤ nbyte
      → (done < nbyte → offset + (nbyte - done) ≤ (last_block + 1) * page_size)
      → ((x : ℕ) → offset ≤ x → x < offset + (nbyte - done) → Backed node s x)
      → nbyte - done < rounds
      → Filled done offset m (read_from memcpy rounds buf nbyte offset done node (with_bytes m))
  unfolding read_from
  read_from-Filled zero offset done m small aside le room backed lt = absurd (omega arith)
  read_from-Filled (suc rounds) offset done m small aside le room backed lt =
      elim (dec_lt done nbyte) [
        | no end ↦
            let e : done ≡ nbyte = omega arith in
            let stop : ltb done nbyte ≡ false = ground arith in
            record {
              after = m;
              result = rw (stop, e) refl;
              read = λ i less. absurd (omega arith);
              frame = λ a out. refl;
            }
        | yes more ↦
            let count = portion offset (nbyte - done) in
            let there : block_to_read (offset / page_size) node s ≢ 0 =
              backed offset (omega arith) (omega arith) in
            let part : count ≤ page_size - offset % page_size = ground arith in
            let short : count ≤ nbyte - done = ground arith in
            let some_bytes : 0 < count = ground arith in
            let at : done + count < nbyte → next_page offset ≡ offset + count =
              λ h. ground (arith, h) in
            let rest =
              read_from-Filled rounds (next_page offset) (done + count)
                (memcpy count (buf + done)
                  (block_to_read (offset / page_size) node s + offset % page_size) m)
                small aside (omega (arith, short)) (λ h. omega (arith, at h, room more))
                (λ x lo hi. backed x (omega (arith, at)) (omega (arith, at)))
                (omega (arith, some_bytes, short)) in
            let d =
              next-Filled offset (next_page offset) done count m
                (read_from memcpy rounds buf nbyte (next_page offset) (done + count) node (
                  with_bytes (
                    memcpy count (buf + done)
                      (block_to_read (offset / page_size) node s + offset % page_size) m)))
                aside (omega (arith, short)) part at backed rest there in
            record {
              after = d.after;
              result =
                  unrolled rounds offset done m (ground arith) (omega (arith, room more))
                    (ground (arith, there)) (omega (arith, short))
                  ∙ d.result;
              read = d.read;
              frame = d.frame;
            }
      ]
