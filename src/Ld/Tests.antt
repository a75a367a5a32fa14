-- ===== src/Ld/Tests.antt =====
-- A library with the symbols "a" and "b" in one bucket, and a relocation for each.
use lizarx.Prelude.{
  ℕ, ◌%◌, ◌+◌, ◌*◌, ◌/◌, ◌^◌, ◌<◌, ◌≡◌, inl, inr, refl, some, List, [], ◌∷◌, ◌==◌, if◌then◌else◌,
  arith, length, ℕ_discrete,
}
use lizarx.Ld.{
  ElfHeader, ElfRela, Image, Dynamic, symbol_size, as_int, name_at, get_sym_by_name, resolve_from,
  resolve_references, jmp_slot,
}
use lizarx.Ld.Loading.{ProgramHeader, image_size, init_shared_lib, init_shared_lib-frame}
use lizarx.Ld.Names.{IsString}
use lizarx.Ld.Lookup.{HashTable, Located, get_sym_by_name-Located}
use lizarx.Ld.Relocs.{Resolved, resolve_from-Resolved}
use lizarx.Ld.Ending.{resolve_references-Ends}
use lizarx.Ld.Linking.{empty_dynamic, get_func}

abbrev names : ℕ → List ℕ
names y = if y == 1 then 97 ∷ [] else if y == 2 then 98 ∷ [] else []

abbrev slot : ℕ → ElfRela
slot i = record { offset = 64 + i * 8; info = (i + 1) * 2 ^ 32 + 7; addend = 5 }

abbrev image : Image
image = record {
  headers = λ a. record {
    i_magic = 0x464C457F;
    i_class = 2;
    i_data = 1;
    i_version = 1;
    i_pad = 0;
    i_reserved = 0;
    kind = 3;
    machine = 62;
    version = 1;
    entry = 0;
    ph_offset = 0;
    flags = 0;
    header_size = 64;
    ph_entry_size = 56;
    ph_entry_count = 0;
    sh_entry_size = 64;
    sh_str_table_index = 0;
    sh_offset = 64;
    sh_entry_count = 2;
  };
  sections = λ a. record {
    kind = if a == 128 then 6 else 1;
    off = 512;
    size = 48;
    name = 0;
    flags = 0;
    virt_addr = 0;
    link = 0;
    info = 0;
    align = 0;
    entry_size = 16;
  };
  dyns = λ a. record {
    kind = if a == 512 then 6 else if a == 528 then 5 else 4;
    un = if a == 512 then 2000 else if a == 528 then 3000 else 1000;
  };
  symbols = λ a. record {
    name = if a == 2024 then 1 else if a == 2048 then 3 else 0;
    info = 0;
    other = 0;
    section_index = 1;
    value = a;
    size = 8;
  };
  rels = slot;
  relas = λ a. slot ((a + 0) / 24);
  hashes = λ a. if a == 1000 then 1 else if a == 1008 then 1 else if a == 1012 + 4 then 2 else 0;
  strings = λ a. if a == 3001 then 97 else if a == 3003 then 98 else if a == 4000 then 98 else 0;
}

abbrev library : Dynamic
library = record (empty_dynamic 0) {
  sym = 2000;
  str = 3000;
  hash = 1000;
  jmp_rela = 24;
  jmp_rela_count = 2;
}

table : HashTable image library names 3 1
table = record {
  buckets = omega arith;
  chains = λ b. 2 ∷ [];
  short = λ b. omega arith;
  first = λ b. 1;
  starts = λ b lt. ground arith;
  links = λ b lt. (refl, omega arith, refl);
  named = λ b lt. ((refl, omega arith, refl), ((refl, omega arith, refl), tt));
  complete = λ y live lt. elim (ℕ_discrete y 1) [ yes e ↦ inl e | no ne ↦ inr (inl (omega arith)) ];
}

get_sym_by_name-Located_example :
    (r : ℕ) × (get_sym_by_name 2 image 2 library 4000 ≡ some r)
    × Located library names 3 (98 ∷ []) r
get_sym_by_name-Located_example =
    get_sym_by_name-Located 2 2 image library names 3 1 4000 (98 ∷ []) table
      (refl, omega arith, refl) (omega arith) (omega arith)

resolve_from-Resolved_example :
    Resolved
      (λ t. t == jmp_slot)
      slot
      (λ k. some (k * 100))
      0x1000
      0
      (0 + 2)
      (λ a. 0)
      (resolve_from (λ t. t == jmp_slot) slot (λ k. some (some (k * 100))) 0x1000 2 0 (λ a. 0))
resolve_from-Resolved_example =
    resolve_from-Resolved (λ t. t == jmp_slot) slot (λ k. some (k * 100)) 0x1000
      (λ k. some (some (k * 100))) 2 0 (λ a. 0) (λ k. refl) (omega arith)

-- Every symbol that the library could name has a name of at most one letter.
symbol_names :
    (k : ℕ) → (xs : List ℕ) × IsString image.strings (name_at image library k) xs × (length xs < 2)
symbol_names k = named ((library.sym + as_int k * symbol_size) % 2 ^ 64)
  where
    named :
        (a : ℕ)
        → (xs : List ℕ) × IsString image.strings
            ((library.str + as_int (image.symbols a).name) % 2 ^ 64)
            xs
          × (length xs < 2)
    named a = elim (ℕ_discrete a 2024) [
      | yes one ↦ (97 ∷ [], rw one (refl, omega arith, refl), omega arith)
      | no ne ↦ elim (ℕ_discrete a 2048) [
        | yes two ↦ (98 ∷ [], rw two (refl, omega arith, refl), omega arith)
        | no ne' ↦ ([], ground arith, omega arith)
      ]
    ]

resolve_references-Ends_example :
    (after : ℕ → ℕ) × (resolve_references 2 2 image library (library ∷ []) (λ a. 0) ≡ some after)
resolve_references-Ends_example =
    resolve_references-Ends 2 2 image 1 library (library ∷ []) (λ a. 0) ((names, 3, table), tt)
      symbol_names (omega arith) (omega arith, omega arith, omega arith, omega arith)

-- The dynamic section is the second one, and the address of "b" is found.
found : get_func 2 2 image (record { header = 0; runtime_addr = 0 }) 4000 ≡ some 2048
unfolding get_func get_sym_by_name
found = refl

abbrev shared_header : ElfHeader
shared_header = record (image.headers 0) { ph_offset = 64; ph_entry_count = 2 }

-- A segment of eight bytes, and one that is not loaded.
abbrev segment : ℕ → ProgramHeader
segment a = record {
  kind = if a == 10064 then 1 else 4;
  flags = 0;
  offset = 176;
  virt_addr = 16;
  phys_addr = 0;
  file_size = 6;
  mem_size = 8;
  alignment = 0;
}

init_shared_lib-frame_example :
    (init_shared_lib segment (λ size. 50000) shared_header 10000 (λ a. a)).1 50024 ≡ 50024
unfolding image_size
init_shared_lib-frame_example =
    init_shared_lib-frame segment (λ size. 50000) shared_header 10000 (λ a. a) 50024
      (omega arith, refl, omega arith, (omega arith, refl, omega arith, tt)) (omega arith)
      (inr (omega arith))

-- The library is put where the kernel says, and its first byte is the one at the offset of the segment.
loaded :
    let r = init_shared_lib segment (λ size. 50000) shared_header 10000 (λ a. a) in
    (r.0 ≡ 50000) × (r.1 50016 ≡ 10176) × (r.1 50022 ≡ 0)
unfolding init_shared_lib
loaded = (refl, refl, refl)
