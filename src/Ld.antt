-- ===== src/Ld.antt =====
-- src/usr/ld_a/ld.c: the dynamic linker for x86_64. The structures of the libraries are read by their
-- addresses from an `Image`, which does not change; the words that relocations fill are a memory of
-- their own. `none` is a loop that has no end within its rounds, or a division by 0.
pub mod Ending
pub mod Linking
pub mod Loading
pub mod Lookup
pub mod Names
pub mod Relocs
mod Tests
use Prim.Native.Nat.{bit_xor}
use lizarx.Prelude.{
  ◌>>=◌, ltb, leb, ℕ, zero, suc, ◌+◌, ◌-◌, ◌*◌, ◌/◌, ◌%◌, ◌^◌, Bool, true, false, not, ◌&&◌, ◌||◌,
  Option, none, some, List, [], ◌∷◌, ◌==◌, if◌then◌else◌,
}

-- `struct elf_symbol`, and its size.
pub record ElfSymbol : Type 0 where
  pub name : ℕ
  pub info : ℕ
  pub other : ℕ
  pub section_index : ℕ
  pub value : ℕ
  pub size : ℕ

abbrev pub symbol_size : ℕ
symbol_size = 24

-- `struct elf_rela`; a `struct elf_rel` is one without the addend.
pub record ElfRela : Type 0 where
  pub offset : ℕ
  pub info : ℕ
  pub addend : ℕ

-- `struct elf_dyn`, whose union is one word.
pub record ElfDyn : Type 0 where
  pub kind : ℕ
  pub un : ℕ

-- `struct elf_section_header`
pub record SectionHeader : Type 0 where
  pub name : ℕ
  pub kind : ℕ
  pub flags : ℕ
  pub virt_addr : ℕ
  pub off : ℕ
  pub size : ℕ
  pub link : ℕ
  pub info : ℕ
  pub align : ℕ
  pub entry_size : ℕ

-- `struct elf_header`
pub record ElfHeader : Type 0 where
  pub i_magic : ℕ
  pub i_class : ℕ
  pub i_data : ℕ
  pub i_version : ℕ
  pub i_pad : ℕ
  pub i_reserved : ℕ
  pub kind : ℕ
  pub machine : ℕ
  pub version : ℕ
  pub entry : ℕ
  pub ph_offset : ℕ
  pub sh_offset : ℕ
  pub flags : ℕ
  pub header_size : ℕ
  pub ph_entry_size : ℕ
  pub ph_entry_count : ℕ
  pub sh_entry_size : ℕ
  pub sh_entry_count : ℕ
  pub sh_str_table_index : ℕ

-- What lies at the addresses of the libraries.
pub record Image : Type 0 where
  pub headers : ℕ → ElfHeader
  pub sections : ℕ → SectionHeader
  pub dyns : ℕ → ElfDyn
  pub symbols : ℕ → ElfSymbol
  pub rels : ℕ → ElfRela
  pub relas : ℕ → ElfRela
  pub hashes : ℕ → ℕ
  pub strings : ℕ → ℕ

-- `struct dynamic`
pub record Dynamic : Type 0 where
  pub runtime_addr : ℕ
  pub header : ℕ
  pub sym : ℕ
  pub str : ℕ
  pub hash : ℕ
  pub jmp_rel : ℕ
  pub jmp_rel_count : ℕ
  pub dyn_rel : ℕ
  pub dyn_rel_count : ℕ
  pub jmp_rela : ℕ
  pub jmp_rela_count : ℕ
  pub dyn_rela : ℕ
  pub dyn_rela_count : ℕ

-- The loop of `elf_hash` for one byte. `g` is the first four of the 32 bits, which the exclusive or
-- leaves as they are, so that `h &= ~g` clears them.
abbrev pub mix : ℕ → ℕ → ℕ
mix h c =
    let h' = (h * 16 + c) % 2 ^ 32 in
    let g = h' / 2 ^ 28 * 2 ^ 28 in (if g == 0 then h' else bit_xor h' (g / 2 ^ 24)) % 2 ^ 28

-- `elf_hash` from `h` on.
unfoldable pub elf_hash : ℕ → (ℕ → ℕ) → ℕ → ℕ → Option ℕ
elf_hash zero bytes h p = none
elf_hash (suc fuel) bytes h p =
    let rest = elf_hash fuel bytes (mix h (bytes p)) (p + 1) in
    if bytes p == 0 then some h else rest

-- Whether `st_strcmp` gives 0.
unfoldable pub strings_equal : ℕ → (ℕ → ℕ) → ℕ → ℕ → Option Bool
strings_equal zero bytes p q = none
strings_equal (suc fuel) bytes p q =
    let rest = strings_equal fuel bytes (p + 1) (q + 1) in
    if not (bytes p == 0) && bytes p == bytes q then rest else some (bytes p == bytes q)

module _ (steps : ℕ) (image : Image) where
  -- The loop of `get_sym_by_name`: the address of a symbol, or ST_NULL.
  unfoldable pub chain_from : ℕ → Dynamic → ℕ → ℕ → ℕ → Option ℕ
  unfolding strings_equal
  chain_from zero dyn chain sym_name y = none
  chain_from (suc fuel) dyn chain sym_name y =
      let sym = dyn.sym + y * symbol_size in
      let next = image.hashes (chain + y * 4) in
      let rest = chain_from fuel dyn chain sym_name next in
      strings_equal steps image.strings sym_name (dyn.str + (image.symbols sym).name) >>= λ same.
      if same then some sym else if next == 0 then some 0 else rest

  unfoldable pub get_sym_by_name : ℕ → Dynamic → ℕ → Option ℕ
  unfolding elf_hash chain_from
  get_sym_by_name fuel dyn sym_name = elf_hash steps image.strings 0 sym_name >>= λ x.
      let nbucket = image.hashes dyn.hash in
      let y = image.hashes (dyn.hash + 2 * 4 + x % nbucket * 4) in
      if nbucket == 0 then none else chain_from fuel dyn (dyn.hash + (2 + nbucket) * 4) sym_name y

  -- The inner loops of `resolve_references`: the value of the symbol in the first library that has it, or `some none`.
  unfoldable pub search_elfs : ℕ → List Dynamic → ℕ → Option (Option ℕ)
  unfolding get_sym_by_name
  search_elfs fuel [] sym_name = some none
  search_elfs fuel (elf ∷ elfs) sym_name =
      let rest = search_elfs fuel elfs sym_name in
      get_sym_by_name fuel elf sym_name >>= λ cur_sym.
      if not (cur_sym == 0) && not ((image.symbols cur_sym).section_index == 0)
      then some (some ((image.symbols cur_sym).value + elf.runtime_addr))
      else rest

-- ELF_REL_TYPE and ELF_REL_BIND
abbrev pub rel_type : ℕ → ℕ
rel_type info = info % 2 ^ 32

abbrev pub rel_bind : ℕ → ℕ
rel_bind info = info / 2 ^ 32

abbrev pub glob_data : ℕ
glob_data = 6

abbrev pub jmp_slot : ℕ
jmp_slot = 7

abbrev pub rel_32 : ℕ
rel_32 = 1

-- A store of a word of 64 bits, the low byte first.
unfoldable pub put_word : ℕ → ℕ → (ℕ → ℕ) → ℕ → ℕ
put_word at w bytes a =
    if leb at a && ltb a (at + 8) then w / 2 ^ (8 * (a - at)) % 2 ^ 8 else bytes a

-- The store to a field, if the symbol was found.
abbrev pub fill_field : ℕ → ℕ → (ℕ → ℕ) → Option ℕ → ℕ → ℕ
fill_field at addend bytes none = bytes
fill_field at addend bytes (some v) = put_word at ((v + addend) % 2 ^ 64) bytes

-- One of the four loops of `resolve_references`, from the relocation `i` on: `accepts` is the test of the type, `entry_at`
-- the array, and `find` the search for the symbol of a number. The `int` that counts them cannot go past 2 ^ 31 - 1.
module _ (accepts : ℕ → Bool) (entry_at : ℕ → ElfRela) (find : ℕ → Option (Option ℕ))
    (runtime_addr : ℕ) where
  unfoldable pub resolve_from : ℕ → ℕ → (ℕ → ℕ) → Option (ℕ → ℕ)
  resolve_from zero i bytes = some bytes
  resolve_from (suc n) i bytes =
      let r = entry_at i in
      elim (ltb (i + 1) (2 ^ 31)) [
        | false ↦ none
        | true ↦
            if accepts (rel_type r.info)
            then (find (rel_bind r.info) >>= λ v.
                resolve_from n (i + 1)
                  (fill_field ((r.offset + runtime_addr) % 2 ^ 64) r.addend bytes v))
            else resolve_from n (i + 1) bytes
      ]

abbrev pub without_addend : (ℕ → ElfRela) → ℕ → ElfRela
without_addend entry_at i = record (entry_at i) { addend = 0 }

-- A number of 32 bits as an `int`, and so as the word that is added to an address.
abbrev pub as_int : ℕ → ℕ
as_int n = if ltb n (2 ^ 31) then n else n + 2 ^ 64 - 2 ^ 32

-- Where the name of the symbol with a number lies; `symndx` and `strndx` are of type `int`.
abbrev pub name_at : Image → Dynamic → ℕ → ℕ
name_at image d symndx =
    let sym = image.symbols ((d.sym + as_int symndx * symbol_size) % 2 ^ 64) in
    (d.str + as_int sym.name) % 2 ^ 64

-- The value of the symbol with a number, by its name in the library `d`.
unfoldable pub find_symbol : ℕ → ℕ → Image → Dynamic → List Dynamic → ℕ → Option (Option ℕ)
unfolding search_elfs
find_symbol steps fuel image d all_elfs symndx =
    search_elfs steps image fuel all_elfs (name_at image d symndx)

-- One of the loops, if its array is there. The count is a signed word.
abbrev pub resolve :
    (ℕ → Bool) → (ℕ → ElfRela) → (ℕ → Option (Option ℕ)) → ℕ → ℕ → ℕ → (ℕ → ℕ) → Option (ℕ → ℕ)
resolve accepts entry_at find runtime_addr base count bytes =
    if base == 0
    then some bytes
    else resolve_from accepts entry_at find runtime_addr (if ltb count (2 ^ 63) then count else 0) 0
        bytes

unfoldable pub resolve_references :
    ℕ → ℕ → Image → Dynamic → List Dynamic → (ℕ → ℕ) → Option (ℕ → ℕ)
unfolding find_symbol resolve_from
resolve_references steps fuel image d all_elfs bytes =
    let find = find_symbol steps fuel image d all_elfs in
    resolve (λ t. t == jmp_slot) (without_addend (λ i. image.rels (d.jmp_rel + i * 16))) find
      d.runtime_addr d.jmp_rel d.jmp_rel_count bytes
    >>= λ w1.
        resolve (λ t. t == glob_data) (without_addend (λ i. image.rels (d.dyn_rel + i * 16))) find
          d.runtime_addr d.dyn_rel d.dyn_rel_count w1
        >>= λ w2.
            resolve (λ t. t == jmp_slot) (without_addend (λ i. image.relas (d.jmp_rela + i * 24)))
              find d.runtime_addr d.jmp_rela d.jmp_rela_count w2
            >>= λ w3.
                resolve (λ t. t == glob_data || t == rel_32)
                  (λ i. image.relas (d.dyn_rela + i * 24)) find d.runtime_addr d.dyn_rela
                  d.dyn_rela_count w3
