-- ===== src/TmpFs.antt =====
-- src/usr/Daemons/VFS/FS/tmpFS/tmpfs.cpp: the files of the ram file system, `write_to_node` and
-- `read_from_node`. The bytes of blocks and buffers lie in one memory; a page of block pointers is an
-- array in a memory of its own, named by its address. `memcpy` is the function of the C library; `alloc` gives the address of each call of
-- `vmm_malloc`, in order. `none` is a loop that has not ended within its rounds.
pub mod Blocks
pub mod Getting
pub mod Loop
pub mod Writing
pub mod Reading
pub mod RoundTrip
mod Tests
use lizarx.Prelude.{
  set, ℕ, zero, suc, ◌+◌, ◌-◌, ◌*◌, ◌/◌, ◌%◌, ◌^◌, Option, none, some, ltb, ◌==◌, if◌then◌else◌,
}
use lizarx.Memory.{Memory}

abbrev pub page_size : ℕ
page_size = 4096

-- `struct ramfs_node`, with the fields of its `struct stat` that are used.
pub record RamfsNode : Type 0 where
  pub name : Memory
  pub flags : ℕ
  pub st_ino : ℕ
  pub st_size : ℕ
  pub direct_block_ptr : ℕ → ℕ
  pub once_indirect_block : ℕ

-- The memory, and how often `vmm_malloc` was called.
pub record Store : Type 0 where
  pub bytes : Memory
  pub pointers : ℕ → ℕ → ℕ
  pub calls : ℕ

-- `PAGE_SIZE/sizeof(char*)+10`
abbrev pub last_block : ℕ
last_block = 4096 / 8 + 10

-- `file->my_stat.st_size = offset+nbyte`, where that is more.
abbrev pub extend : ℕ → RamfsNode → RamfsNode
extend stop node = if ltb node.st_size stop then record node { st_size = stop } else node

-- `to_read` and `to_write`
abbrev pub portion : ℕ → ℕ → ℕ
portion offset left =
    let place_in_block = page_size - offset % page_size in
    if ltb place_in_block left then place_in_block else left

-- `((offset/PAGE_SIZE)+1)*PAGE_SIZE`
abbrev pub next_page : ℕ → ℕ
next_page offset = (offset / page_size + 1) * page_size

abbrev pub set_pointer : ℕ → ℕ → ℕ → Store → Store
set_pointer page i block s = record s {
  pointers = λ p. if p == page then set (s.pointers p) i block else s.pointers p;
}

module _ (alloc : ℕ → ℕ) where
  -- The pages of block pointers are there after the first use.
  abbrev pub with_indirect : RamfsNode → Store → RamfsNode × Store
  with_indirect node s =
      if node.once_indirect_block == 0
      then (record node { once_indirect_block = alloc s.calls }, record s { calls = s.calls + 1 })
      else (node, s)

  abbrev pub indirect_block : ℕ → RamfsNode → Store → ℕ × RamfsNode × Store
  indirect_block i node s =
      let block = s.pointers node.once_indirect_block i in
      if block == 0
      then (
        alloc s.calls,
        node,
        set_pointer node.once_indirect_block i (alloc s.calls) (record s { calls = s.calls + 1 }),
      )
      else (block, node, s)

  -- `if(!cur_block)` of `write_to_node`.
  abbrev pub direct_block : ℕ → ℕ → RamfsNode → Store → ℕ × RamfsNode × Store
  direct_block n block node s =
      if block == 0
      then (
        alloc s.calls,
        record node { direct_block_ptr = set node.direct_block_ptr n (alloc s.calls) },
        record s { calls = s.calls + 1 },
      )
      else (block, node, s)

  -- The block `n` of `write_to_node`, or the end of the loop.
  unfoldable pub block_to_write : ℕ → RamfsNode → Store → Option (ℕ × RamfsNode × Store)
  block_to_write n node s =
      if ltb n 12
      then some (direct_block n (node.direct_block_ptr n) node s)
      else if ltb last_block n
      then none
      else (let (node', s') = with_indirect node s in
          let (block, node'', s'') = indirect_block (n - 12) node' s' in
          some (direct_block n block node'' s''))

module _ (memcpy : ℕ → ℕ → ℕ → Memory → Memory) (alloc : ℕ → ℕ) where
  -- The loop of `write_to_node`, with the bytes that are written.
  unfoldable pub write_from : ℕ → ℕ → ℕ → ℕ → ℕ → RamfsNode → Store → Option (ℕ × RamfsNode × Store)
  write_from zero buf nbyte offset bytes_written node s = none
  write_from (suc rounds) buf nbyte offset bytes_written node s =
      if ltb bytes_written nbyte
      then elim (block_to_write alloc (offset / page_size % 2 ^ 32) node s) [
        | none ↦ some (bytes_written, node, s)
        | some (block, node', s') ↦
            let to_write = portion offset (nbyte - bytes_written) in
            write_from rounds buf nbyte (next_page offset) ((bytes_written + to_write) % 2 ^ 32)
              node'
              (record s' {
                bytes = memcpy to_write (block + offset % page_size) (buf + bytes_written) s'.bytes;
              })
      ]
      else some (bytes_written, node, s)

  unfoldable pub write_to_node : ℕ → ℕ → ℕ → ℕ → RamfsNode → Store → Option (ℕ × RamfsNode × Store)
  unfolding write_from
  write_to_node rounds buf nbyte offset node s =
      write_from rounds buf nbyte offset 0 (extend (offset + nbyte) node) s

-- The block `n` of `read_from_node`, 0 where the loop ends.
unfoldable pub block_to_read : ℕ → RamfsNode → Store → ℕ
block_to_read n node s =
    if ltb n 12
    then node.direct_block_ptr n
    else if ltb last_block n
    then 0
    else if node.once_indirect_block == 0
    then 0
    else s.pointers node.once_indirect_block (n - 12)

module _ (memcpy : ℕ → ℕ → ℕ → Memory → Memory) where
  -- The loop of `read_from_node`, with the bytes that are read.
  unfoldable pub read_from : ℕ → ℕ → ℕ → ℕ → ℕ → RamfsNode → Store → Option (ℕ × Store)
  read_from zero buf nbyte offset bytes_read node s = none
  read_from (suc rounds) buf nbyte offset bytes_read node s =
      if ltb bytes_read nbyte
      then (let block = block_to_read (offset / page_size % 2 ^ 32) node s in
          let to_read = portion offset (nbyte - bytes_read) in
          let rest =
            read_from rounds buf nbyte (next_page offset) ((bytes_read + to_read) % 2 ^ 32) node
              (record s {
                bytes = memcpy to_read (buf + bytes_read) (block + offset % page_size) s.bytes;
              }) in
          if block == 0 then some (bytes_read, s) else rest)
      else some (bytes_read, s)

  unfoldable pub read_from_node : ℕ → ℕ → ℕ → ℕ → RamfsNode → Store → Option (ℕ × RamfsNode × Store)
  unfolding read_from
  read_from_node rounds buf nbyte offset node s =
      elim (read_from rounds buf nbyte offset 0 node s) [
        | none ↦ none
        | some (n, s') ↦ some (n, extend (offset + nbyte) node, s')
      ]
