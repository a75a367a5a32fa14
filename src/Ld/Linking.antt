-- ===== src/Ld/Linking.antt =====
-- src/usr/ld_a/ld.c: the sections of a library, and `link_daemon_mod`, `link_lib_against` and `get_func`.
use lizarx.Prelude.{◌>>=◌, ℕ, zero, suc, ◌+◌, ◌/◌, Option, none, some, [], ◌∷◌, ◌==◌, if◌then◌else◌}
use lizarx.Ld.{ElfDyn, Image, Dynamic, get_sym_by_name, resolve_references}

-- `struct elf_lib`
pub record ElfLib : Type 0 where
  pub header : ℕ
  pub runtime_addr : ℕ

-- The loop of `get_dynamic`: the first section of the type ELF_SECTION_TYPE_DYNAMIC, or ST_NULL.
unfoldable pub dynamic_from : Image → ℕ → ℕ → ℕ
dynamic_from image zero section_header = 0
dynamic_from image (suc n) section_header =
    let rest = dynamic_from image n (section_header + 64) in
    if (image.sections section_header).kind == 6 then section_header else rest

unfoldable pub get_dynamic : Image → ℕ → ℕ
unfolding dynamic_from
get_dynamic image elf =
    dynamic_from image (image.headers elf).sh_entry_count (elf + (image.headers elf).sh_offset)

-- One entry of a dynamic section.
unfoldable pub fill_in : Dynamic → ElfDyn → Dynamic
fill_in d e =
    if e.kind == 6
    then record d { sym = e.un + d.runtime_addr }
    else if e.kind == 5
    then record d { str = e.un + d.runtime_addr }
    else if e.kind == 4
    then record d { hash = e.un + d.runtime_addr }
    else if e.kind == 23
    then record d { jmp_rela = e.un + d.runtime_addr }
    else if e.kind == 17
    then record d { dyn_rel = e.un + d.runtime_addr }
    else if e.kind == 7
    then record d { dyn_rela = e.un + d.runtime_addr }
    else if e.kind == 18
    then record d { dyn_rel_count = e.un / 16 }
    else if e.kind == 8
    then record d { dyn_rela_count = e.un / 24 }
    else if e.kind == 2
    then record d { jmp_rela_count = e.un / 24 }
    else d

-- The loop of `section_to_dynamic`.
unfoldable pub fill_from : Image → ℕ → ℕ → Dynamic → Dynamic
unfolding fill_in
fill_from image zero cur_dyn d = d
fill_from image (suc n) cur_dyn d =
    fill_from image n (cur_dyn + 16) (fill_in d (image.dyns cur_dyn))

unfoldable pub section_to_dynamic : Image → ℕ → ℕ → ℕ → Dynamic → Dynamic
unfolding fill_from
section_to_dynamic image cur_dyn dynamic_num elf d =
    fill_from image dynamic_num cur_dyn (record d { header = elf })

-- `st_memset` of a `struct dynamic`, and its address.
abbrev pub empty_dynamic : ℕ → Dynamic
empty_dynamic runtime_addr = record {
  runtime_addr = runtime_addr;
  header = 0;
  sym = 0;
  str = 0;
  hash = 0;
  jmp_rel = 0;
  jmp_rel_count = 0;
  dyn_rel = 0;
  dyn_rel_count = 0;
  jmp_rela = 0;
  jmp_rela_count = 0;
  dyn_rela = 0;
  dyn_rela_count = 0;
}

-- What all three read of a library: NULL where it has no dynamic section.
unfoldable pub dynamic_of : Image → ElfLib → Option Dynamic
unfolding get_dynamic section_to_dynamic
dynamic_of image lib =
    let sh = get_dynamic image lib.header in
    if sh == 0
    then none
    else some (
        section_to_dynamic image (lib.header + (image.sections sh).off)
          ((image.sections sh).size / 16) lib.header (empty_dynamic lib.runtime_addr))

unfoldable pub link_daemon_mod : ℕ → ℕ → Image → ElfLib → (ℕ → ℕ) → Option (ℕ → ℕ)
unfolding dynamic_of
link_daemon_mod steps fuel image lib bytes =
    dynamic_of image lib >>= λ d. resolve_references steps fuel image d (d ∷ []) bytes

unfoldable pub link_lib_against : ℕ → ℕ → Image → ElfLib → ElfLib → (ℕ → ℕ) → Option (ℕ → ℕ)
unfolding dynamic_of
link_lib_against steps fuel image first_elf second_elf bytes = dynamic_of image first_elf >>= λ d0.
    dynamic_of image second_elf >>= λ d1.
    resolve_references steps fuel image d0 (d0 ∷ d1 ∷ []) bytes

unfoldable pub get_func : ℕ → ℕ → Image → ElfLib → ℕ → Option ℕ
unfolding dynamic_of
get_func steps fuel image lib sym_name = dynamic_of image lib >>= λ d.
    get_sym_by_name steps image fuel d sym_name >>= λ ret.
    some (if ret == 0 then 0 else (image.symbols ret).value + lib.runtime_addr)
