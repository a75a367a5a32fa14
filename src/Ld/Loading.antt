-- ===== src/Ld/Loading.antt =====
-- src/usr/ld_a/ld.c: `init_shared_lib` copies the segments of a library to memory that the kernel gives.
-- `st_memset` and `st_memcpy` of lib_stat/st_string.c have the loops of `memset` and `memcpy` of the kernel.
use lizarx.Prelude.{
  ℕ, zero, suc, ◌+◌, ◌%◌, ◌^◌, ◌<◌, ◌≤◌, ◌≡◌, ◌⊎◌, inl, inr, refl, ◌∙◌, Bool, not, ◌||◌, ◌==◌,
  if◌then◌else◌, arith, ltb, Bool-cases,
}
use lizarx.Memory.{Memory, store, memcpy, memset}
use lizarx.Memory.Fill.{memset-filled}
use lizarx.Ld.{ElfHeader}

-- `struct elf_program_header` of x86_64, and its size.
pub record ProgramHeader : Type 0 where
  pub kind : ℕ
  pub flags : ℕ
  pub offset : ℕ
  pub virt_addr : ℕ
  pub phys_addr : ℕ
  pub file_size : ℕ
  pub mem_size : ℕ
  pub alignment : ℕ

abbrev pub program_header_size : ℕ
program_header_size = 56

-- ELF_PROGRAM_TYPE_LOAD and ELF_PROGRAM_TYPE_DYNAMIC
abbrev pub is_loaded : ProgramHeader → Bool
is_loaded p = p.kind == 1 || p.kind == 2

-- The end of a segment.
abbrev pub segment_end : ProgramHeader → ℕ
segment_end p = (p.virt_addr + p.mem_size) % 2 ^ 64

-- The copy of one segment of the image to the library at `file_dest`.
unfoldable pub load_segment : ℕ → ℕ → ProgramHeader → Memory → Memory
unfolding memset memcpy
load_segment image file_dest p m =
    let dest = (file_dest + p.virt_addr) % 2 ^ 64 in
    memcpy p.file_size dest ((image + p.offset) % 2 ^ 64) (memset dest 0 p.mem_size m)

module _ (program_headers : ℕ → ProgramHeader) where
  -- The loop for the size of the library.
  unfoldable pub image_size : ℕ → ℕ → ℕ → ℕ
  image_size zero ph size = size
  image_size (suc n) ph size = image_size n (ph + program_header_size) (
      if ltb size (segment_end (program_headers ph))
      then segment_end (program_headers ph)
      else size)

  -- The loop over the segments.
  unfoldable pub load_segments : ℕ → ℕ → ℕ → ℕ → Memory → Memory
  unfolding load_segment
  load_segments zero ph image file_dest m = m
  load_segments (suc n) ph image file_dest m =
      load_segments n (ph + program_header_size) image file_dest (
        if is_loaded (program_headers ph)
        then load_segment image file_dest (program_headers ph) m
        else m)

  -- `init_shared_lib`: the address of the library, or ST_NULL; `st_vmm_malloc` gives the address of new memory.
  unfoldable pub init_shared_lib : (ℕ → ℕ) → ElfHeader → ℕ → Memory → ℕ × Memory
  unfolding image_size load_segments
  init_shared_lib st_vmm_malloc header image m =
      let ph = (image + header.ph_offset) % 2 ^ 64 in
      let file_dest = st_vmm_malloc (image_size header.ph_entry_count ph 0) in
      if not (header.i_magic == 0x464C457F)
        || not (header.i_class == 2)
        || (not (header.i_data == 1) || not (header.version == 1))
        || not (header.i_version == 1)
      then (0, m)
      else (file_dest, load_segments header.ph_entry_count ph image file_dest m)

  -- The segments of the `n` headers from `ph` on end in the first `size` bytes; the parts that are loaded are cleared by
  -- whole words and are not longer in the file.
  abbrev pub Fitting : ℕ → ℕ → ℕ → Type 0
  Fitting zero ph size = Unit
  Fitting (suc n) ph size =
      let p = program_headers ph in
      (p.virt_addr + p.mem_size ≤ size)
      × (p.mem_size % 4 ≡ 0)
      × (p.file_size ≤ p.mem_size)
      × Fitting n (ph + program_header_size) size

  -- The same without the size, for segments that do not reach the end of the address space.
  abbrev pub Sound : ℕ → ℕ → Type 0
  Sound zero ph = Unit
  Sound (suc n) ph =
      let p = program_headers ph in
      (p.virt_addr + p.mem_size < 2 ^ 64)
      × (p.mem_size % 4 ≡ 0)
      × (p.file_size ≤ p.mem_size)
      × Sound n (ph + program_header_size)

  image_size-grows : (n ph size : ℕ) → size ≤ image_size n ph size
  unfolding image_size
  image_size-grows zero ph size = omega arith
  image_size-grows (suc n) ph size =
      elim (Bool-cases (ltb size (segment_end (program_headers ph)))) [
        | inl less ↦
            let h =
              image_size-grows n (ph + program_header_size) (segment_end (program_headers ph)) in
            rw less (ground (arith, h, less))
        | inr same ↦ rw same (image_size-grows n (ph + program_header_size) size)
      ]

  image_size-Fitting : (n ph size : ℕ) → Sound n ph → Fitting n ph (image_size n ph size)
  unfolding image_size
  image_size-Fitting zero ph size h = tt
  image_size-Fitting (suc n) ph size h =
      let p = program_headers ph in
      let size' = if ltb size (segment_end p) then segment_end p else size in
      let grows : size' ≤ image_size n (ph + program_header_size) size' =
        image_size-grows n (ph + program_header_size) size' in
      let held : p.virt_addr + p.mem_size ≤ size' = ground (arith, h.0) in
      (
        omega (arith, held, grows),
        h.1,
        h.2,
        image_size-Fitting n (ph + program_header_size) size' h.3,
      )

memcpy-frame :
    (n dest src : ℕ) (m : Memory) (k : ℕ)
    → (k < dest) ⊎ (dest + n ≤ k)
    → memcpy n dest src m k ≡ m k
unfolding memcpy
memcpy-frame zero dest src m k h = refl
memcpy-frame (suc n) dest src m k h =
    memcpy-frame n (dest + 1) (src + 1) (store m dest (m src)) k (ground arith) ∙ ground (arith, h)

load_segment-frame :
    (image file_dest size : ℕ) (p : ProgramHeader) (m : Memory) (k : ℕ)
    → p.virt_addr + p.mem_size ≤ size
    → p.mem_size % 4 ≡ 0
    → p.file_size ≤ p.mem_size
    → file_dest + size < 2 ^ 64
    → (k < file_dest) ⊎ (file_dest + size ≤ k)
    → load_segment image file_dest p m k ≡ m k
unfolding load_segment
load_segment-frame image file_dest size p m k fits four part small out =
    let dest = (file_dest + p.virt_addr) % 2 ^ 64 in
    let at : dest ≡ file_dest + p.virt_addr = omega arith in
    memcpy-frame p.file_size dest ((image + p.offset) % 2 ^ 64) (memset dest 0 p.mem_size m) k
      (ground (arith, at))
    ∙ memset-filled dest 0 p.mem_size m k four
    ∙ ground (arith, at)

module _ (program_headers : ℕ → ProgramHeader) where
  load_segments-frame :
      (n ph image file_dest size : ℕ) (m : Memory) (k : ℕ)
      → Fitting program_headers n ph size
      → file_dest + size < 2 ^ 64
      → (k < file_dest) ⊎ (file_dest + size ≤ k)
      → load_segments program_headers n ph image file_dest m k ≡ m k
  unfolding load_segments
  load_segments-frame zero ph image file_dest size m k h small out = refl
  load_segments-frame (suc n) ph image file_dest size m k h small out =
      elim (Bool-cases (is_loaded (program_headers ph))) [
        | inl on ↦ rw on (
            load_segments-frame n (ph + program_header_size) image file_dest size
              (load_segment image file_dest (program_headers ph) m) k h.3 small out
            ∙ load_segment-frame image file_dest size (program_headers ph) m k h.0 h.1 h.2 small
                out)
        | inr off ↦ rw off (
            load_segments-frame n (ph + program_header_size) image file_dest size m k h.3 small out)
      ]

  -- Where the segments of an image do not reach the end of the address space, take a multiple of four bytes of memory and not
  -- more in the file, and the memory for the library does not reach the end of the address space either, `init_shared_lib`
  -- writes to no byte outside the memory that it asked for.
  pub init_shared_lib-frame :
      (st_vmm_malloc : ℕ → ℕ) (header : ElfHeader) (image : ℕ) (m : Memory) (k : ℕ)
      → let ph = (image + header.ph_offset) % 2 ^ 64 in
        let size = image_size program_headers header.ph_entry_count ph 0 in
        Sound program_headers header.ph_entry_count ph
        → st_vmm_malloc size + size < 2 ^ 64
        → (k < st_vmm_malloc size) ⊎ (st_vmm_malloc size + size ≤ k)
        → (init_shared_lib program_headers st_vmm_malloc header image m).1 k ≡ m k
  unfolding init_shared_lib
  init_shared_lib-frame st_vmm_malloc header image m k h small out =
      let ph = (image + header.ph_offset) % 2 ^ 64 in
      let size = image_size program_headers header.ph_entry_count ph 0 in
      elim (Bool-cases (
        not (header.i_magic == 0x464C457F)
        || not (header.i_class == 2)
        || (not (header.i_data == 1) || not (header.version == 1))
        || not (header.i_version == 1))) [
          | inl refused ↦ rw refused refl
          | inr taken ↦ rw taken (
              load_segments-frame header.ph_entry_count ph image (st_vmm_malloc size) size m k
                (image_size-Fitting program_headers header.ph_entry_count ph 0 h) small out)
        ]
