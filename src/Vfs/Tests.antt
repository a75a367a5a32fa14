-- ===== src/Vfs/Tests.antt =====
-- The searches on the path "/a", with the mount paths "/" and "/a".
use lizarx.Prelude.{
  ℕ, zero, suc, ◌+◌, ◌-◌, ◌<◌, ◌≡◌, ◌≢◌, refl, some, [], ◌∷◌, ◌==◌, if◌then◌else◌, arith, length,
  get_elem?, get_or,
}
use lizarx.Prelude.Int.{pos, minus_one}
use lizarx.Memory.{Memory}
use lizarx.AList.{AList, get_entry_n}
use lizarx.AList.Contents.{contents}
use lizarx.Vfs.{get_mp, get_fs_by_type, find, find_last}
use lizarx.Vfs.Search.{Last, find_last-Last}
use lizarx.Vfs.Mounts.{IsString, Best, FirstOf, get_mp-Best, get_fs_by_type-First}

-- "/a" at 100, "/" at 103, "/a/" at 105
abbrev text : Memory
text a = get_or (b'/' ∷ b'a' ∷ 0 ∷ b'/' ∷ 0 ∷ b'/' ∷ b'a' ∷ b'/' ∷ 0 ∷ []) (a - 100) 0

abbrev strlen : ℕ → Memory → ℕ
strlen p bytes = if p == 103 then 1 else if p == 100 then 2 else 3

abbrev mount_path : ℕ → ℕ
mount_path mp = if mp == 1 then 103 else 105

abbrev mount_points : AList
mount_points = record { used = 2; pointer = 1 ∷ 2 ∷ 0 ∷ 0 ∷ [] } ∷ []

path_letters : (k : ℕ) → k < 2 → text (100 + k) ≢ 0
path_letters zero lt = λ e. ground (arith, e)
path_letters (suc zero) lt = λ e. ground (arith, e)
path_letters (suc (suc k)) lt = absurd (omega arith)

path : IsString text 100 2
path = record { letter = path_letters; stop = refl }

counts : get_entry_n mount_points ≡ length (contents mount_points)
unfolding get_entry_n
counts = refl

get_mp-Best_example :
    (m : ℕ) × (k : ℕ) × (get_mp 3 text mount_path mount_points 100 ≡ some (m, k))
    × Best text mount_path 100 2 (contents mount_points) 2 m k
get_mp-Best_example = get_mp-Best 3 text mount_path mount_points 100 2 path counts (omega arith)

all_begin : (i y : ℕ) → get_elem? (contents mount_points) i ≡ some y → text (mount_path y) ≡ b'/'
all_begin zero y e = ground (arith, e)
all_begin (suc zero) y e = ground (arith, e)
all_begin (suc (suc i)) y e = absurd (ground (arith, e))

get_fs_by_type-First_example :
    (fs : ℕ) × (get_fs_by_type (λ p q. p == q) mount_path mount_points 105 ≡ some fs)
    × FirstOf (λ p q. p == q) mount_path mount_points 105 0 fs
get_fs_by_type-First_example =
    get_fs_by_type-First (λ p q. p == q) mount_path mount_points 105 counts

find_last-Last_example : Last text strlen 103 105 3 (find_last text strlen 103 105)
find_last-Last_example = find_last-Last text strlen 103 105 (omega arith)

both_ends : (find text strlen 103 105 ≡ pos 0) × (find_last text strlen 103 105 ≡ pos 2)
unfolding find find_last
both_ends = (refl, refl)

too_long : find text strlen 105 103 ≡ minus_one
unfolding find
too_long = refl
