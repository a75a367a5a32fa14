-- ===== src/Vfs.antt =====
-- src/usr/Daemons/VFS/vfs.cpp and src/usr/Daemons/VFS/FS/tmpFS/tmpfs.cpp: which file system and which
-- mount point a path belongs to, and the search for a part of a name. The lists are array lists
-- (src/usr/hlib/OO/AList.h) with the searches of `AList`, for any length of their arrays; `strlen` and
-- `strcmp` are the functions of the C library. `none` is a NULL that is read, or a name that
-- does not end within its rounds.
pub mod Mounts
pub mod Search
mod Tests
use lizarx.Prelude.{
  ◌>>=◌, ℕ, zero, suc, ◌+◌, ◌-◌, Bool, true, false, not, ◌&&◌, Option, none, some, ltb, ◌==◌,
  if◌then◌else◌,
}
use lizarx.Prelude.Int.{ℤ, pos, minus_one}
use lizarx.Memory.{Memory}
use lizarx.AList.{AList, get_by_index, get_entry_n}

-- The loop of `strn_cmp_n`: only the first pointer moves.
unfoldable pub strn_cmp_n : ℕ → Memory → ℕ → ℕ → ℕ → Option ℕ
strn_cmp_n zero bytes fmt fmt2 sim = none
strn_cmp_n (suc rounds) bytes fmt fmt2 sim =
    let rest = strn_cmp_n rounds bytes (fmt + 1) fmt2 (sim + 1) in
    if not (bytes fmt == 0) && (not (bytes fmt2 == 0) && bytes fmt == bytes fmt2)
    then rest
    else some sim

-- `mount_path` reads the field of a mount point.
module _ (rounds : ℕ) (bytes : Memory) (mount_path : ℕ → ℕ) (mount_points : AList) (path : ℕ) where
  -- The loops of `MountPoint::get_mp` and `VFS::resolve_path`, from the index `i` on.
  unfoldable pub match_from : ℕ → ℕ → ℕ → ℕ → Option (ℕ × ℕ)
  unfolding strn_cmp_n
  match_from zero i most_matched most_matched_n = some (most_matched, most_matched_n)
  match_from (suc left) i most_matched most_matched_n = get_by_index mount_points i >>= λ current.
      strn_cmp_n rounds bytes path (mount_path current) 0 >>= λ current_matched_n.
      match_from left (i + 1)
        (if ltb most_matched_n current_matched_n then current else most_matched)
        (if ltb most_matched_n current_matched_n then current_matched_n else most_matched_n)

  -- `MountPoint::get_mp`, with `matched`.
  unfoldable pub get_mp : Option (ℕ × ℕ)
  unfolding match_from
  get_mp = match_from (get_entry_n mount_points) 0 0 0

  -- `VFS::resolve_path`
  unfoldable pub resolve_path : Option ℕ
  unfolding match_from
  resolve_path = match_from (get_entry_n mount_points) 0 0 0 >>= λ m. some m.0

-- `same` tells whether `strcmp` gives 0; `fs_type` reads the field of a file system.
module _ (same : ℕ → ℕ → Bool) (fs_type : ℕ → ℕ) (loaded_fs : AList) (type : ℕ) where
  unfoldable pub type_from : ℕ → ℕ → Option ℕ
  type_from zero i = some 0
  type_from (suc left) i =
      let rest = type_from left (i + 1) in
      get_by_index loaded_fs i >>= λ fs. if same (fs_type fs) type then some fs else rest

  -- `VFS::get_FS_by_type`
  unfoldable pub get_fs_by_type : Option ℕ
  unfolding type_from
  get_fs_by_type = type_from (get_entry_n loaded_fs) 0

-- The inner loops of `find` and `find_last`: whether the word is at `at`.
unfoldable pub word_from : Memory → ℕ → ℕ → ℕ → ℕ → ℕ → Bool
word_from bytes at to_search to_search_length zero j = false
word_from bytes at to_search to_search_length (suc left) j =
    let rest = word_from bytes at to_search to_search_length left (j + 1) in
    if not (bytes (at + j) == bytes (to_search + j))
    then false
    else if j == to_search_length - 1
    then true
    else rest

module _ (bytes : Memory) (strlen : ℕ → Memory → ℕ) (to_search search_in : ℕ) where
  abbrev pub word_at : ℕ → Bool
  word_at i =
      word_from bytes (search_in + i) to_search (strlen to_search bytes) (strlen to_search bytes) 0

  unfoldable pub find_from : ℕ → ℕ → ℤ
  unfolding word_from
  find_from zero i = minus_one
  find_from (suc left) i = let rest = find_from left (i + 1) in if word_at i then pos i else rest

  -- `find`; the difference of the lengths is negative where the word is longer, and the loop has no round then.
  unfoldable pub find : ℤ
  unfolding find_from
  find = find_from (strlen search_in bytes + 1 - strlen to_search bytes) 0

  unfoldable pub find_last_from : ℕ → ℕ → ℤ → ℤ
  unfolding word_from
  find_last_from zero i found_at = found_at
  find_last_from (suc left) i found_at =
      find_last_from left (i + 1) (if word_at i then pos i else found_at)

  -- `find_last`
  unfoldable pub find_last : ℤ
  unfolding find_last_from
  find_last = find_last_from (strlen search_in bytes + 1 - strlen to_search bytes) 0 minus_one
