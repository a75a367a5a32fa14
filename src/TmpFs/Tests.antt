-- ===== src/TmpFs/Tests.antt =====
-- The theorems on files, on an empty one.
use lizarx.Prelude.{◌>>=◌, ℕ, ◌+◌, ◌-◌, ◌*◌, ◌%◌, ◌<◌, ◌≡◌, inr, refl, ◌∙◌, some, arith}
use lizarx.Memory.{memcpy}
use lizarx.Memory.Move.{memcpy-copied}
use lizarx.TmpFs.{
  RamfsNode, Store, page_size, block_to_write, block_to_read, write_to_node, read_from_node,
}
use lizarx.TmpFs.Blocks.{Pages, Layout}
use lizarx.TmpFs.Writing.{Clear, Copies}
use lizarx.TmpFs.RoundTrip.{read_from_node-write_to_node}

-- The `memcpy` of the kernel is one that copies.
copies : Copies memcpy
copies = record {
  inside = λ n dest src m k h lo hi. memcpy-copied n dest src m k (ground arith) ∙ ground arith;
  outside = λ n dest src m k h out. memcpy-copied n dest src m k (ground arith) ∙ ground arith;
}

abbrev alloc : ℕ → ℕ
alloc k = 0x100000 + k * page_size

pages : Pages alloc
pages = record { there = λ k. omega arith; apart = λ k l ne. ground arith }

abbrev empty_node : RamfsNode
empty_node = record {
  name = λ i. 0;
  flags = 1;
  st_ino = 1;
  st_size = 0;
  direct_block_ptr = λ n. 0;
  once_indirect_block = 0;
}

abbrev store : Store
store = record { bytes = λ a. a % 256; pointers = λ p i. 0; calls = 0 }

no_block : (n : ℕ) → block_to_read n empty_node store ≡ 0
unfolding block_to_read
no_block n = ground arith

layout : Layout alloc empty_node store
layout = record {
  blocks = λ n m ne a b. absurd (a (no_block n));
  fresh = λ n k a lo. absurd (a (no_block n));
  indirect = λ k lo. omega arith;
  cleared = λ k i lo. refl;
}

clear : (buf : ℕ) → buf < 0x1000 → Clear alloc buf 100 empty_node store
clear buf lt = record { blocks = λ n b. absurd (b (no_block n)); fresh = λ k lo. inr (omega arith) }

read_from_node-write_to_node_example :
    (node' : RamfsNode) × (s' : Store) × ((write_to_node memcpy alloc 101 0x200 100
          (12 * 4096 - 10)
          empty_node
          store
        >>= λ w. read_from_node memcpy 101 0x400 100 (12 * 4096 - 10) w.1 w.2)
      ≡ some (100, node', s'))
    × ((i : ℕ) → i < 100 → s'.bytes (0x400 + i) ≡ store.bytes (0x200 + i))
read_from_node-write_to_node_example =
    read_from_node-write_to_node memcpy copies alloc pages 101 101 0x200 0x400 100 (12 * 4096 - 10)
      empty_node store layout (clear 0x200 (omega arith)) (clear 0x400 (omega arith)) (omega arith)
      (omega arith) (omega arith)

-- An empty file is 100 bytes long after an attempt to read them.
grown :
    read_from_node memcpy 2 0x200 100 0 empty_node store
    ≡ some (0, record empty_node { st_size = 100 }, store)
unfolding read_from_node block_to_read
grown = refl

three : (write_to_node memcpy alloc 4 0x200 3 4095 empty_node store >>= λ w. some w.0) ≡ some 3
unfolding write_to_node block_to_write memcpy
three = refl
