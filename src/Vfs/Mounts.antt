-- ===== src/Vfs/Mounts.antt =====
-- Which mount point `get_mp` and `resolve_path` choose.
use lizarx.Prelude.{
  ℕ, zero, suc, ◌+◌, ◌<◌, ◌≤◌, ◌≡◌, ◌≢◌, ◌⊎◌, inl, inr, refl, ap, sym, ◌∙◌, Bool, true, false,
  Option, some, List, ltb, ◌==◌, if◌then◌else◌, arith, ℕ_discrete, Bool-cases, length, get_elem?,
  get_elem?-some, get_elem?-within, dec_lt,
}
use lizarx.Memory.{Memory}
use lizarx.AList.{AList, get_by_index, get_entry_n}
use lizarx.AList.Contents.{contents}
use lizarx.AList.Lookup.{get_by_index-contents}
use lizarx.Vfs.{strn_cmp_n, match_from, get_mp, resolve_path, type_from, get_fs_by_type}

-- The string at `p` has `n` letters.
pub record IsString (bytes : Memory) (p n : ℕ) : Type 0 where
  pub letter : (k : ℕ) → k < n → bytes (p + k) ≢ 0
  pub stop : bytes (p + n) ≡ 0

-- How many of the first `n` letters from `p` on are `c`, up to the first other letter.
abbrev pub leading : Memory → ℕ → ℕ → ℕ → ℕ
leading bytes c p zero = 0
leading bytes c p (suc n) = if bytes p == c then suc (leading bytes c (p + 1) n) else 0

IsString-next : (bytes : Memory) (p n : ℕ) → IsString bytes p (suc n) → IsString bytes (p + 1) n
IsString-next bytes p n s = record {
  letter = λ k lt. λ e. s.letter (k + 1) (omega arith) (ap bytes (omega arith) ∙ e);
  stop = ap bytes (omega arith) ∙ s.stop;
}

strn_cmp_n-leading :
    (bytes : Memory) (n rounds p q sim : ℕ)
    → IsString bytes p n
    → n < rounds
    → strn_cmp_n rounds bytes p q sim ≡ some (sim + leading bytes (bytes q) p n)
unfolding strn_cmp_n
strn_cmp_n-leading bytes n zero p q sim s lt = absurd (omega arith)
strn_cmp_n-leading bytes zero (suc rounds) p q sim s lt =
    let e : bytes p ≡ 0 = ap bytes (omega arith) ∙ s.stop in ground (arith, e)
strn_cmp_n-leading bytes (suc n) (suc rounds) p q sim s lt =
    let ne : bytes p ≢ 0 = λ e. s.letter 0 (omega arith) (ap bytes (omega arith) ∙ e) in
    ground (
      arith,
      ne,
      strn_cmp_n-leading bytes n rounds (p + 1) q (sim + 1) (IsString-next bytes p n s)
          (omega arith),
    )

some-same : (x y : ℕ) (o : Option ℕ) → o ≡ some x → o ≡ some y → x ≡ y
some-same x y o e e' = ground (arith, sym e ∙ e')

module _ (bytes : Memory) (mount_path : ℕ → ℕ) (path n : ℕ) where
  -- How far the path matches a mount point: its leading letters that are the first letter of the mount path.
  abbrev pub score : ℕ → ℕ
  score mp = leading bytes (bytes (mount_path mp)) path n

  -- The choice `m` among the first `stop` mount points, with the score `k`: the first one of the highest score, NULL where
  -- no score is above 0.
  pub record Best (xs : List ℕ) (stop m k : ℕ) : Type 0 where
    pub most : (j x : ℕ) → j < stop → get_elem? xs j ≡ some x → score x ≤ k
    pub from :
        ((m ≡ 0) × (k ≡ 0))
        ⊎ ((i : ℕ) × (i < stop)
            × (get_elem? xs i ≡ some m)
            × (score m ≡ k)
            × (0 < k)
            × ((j x : ℕ) → j < i → get_elem? xs j ≡ some x → score x < k))

  Best-step :
      (xs : List ℕ) (i m k x : ℕ)
      → Best xs i m k
      → get_elem? xs i ≡ some x
      → Best xs (i + 1) (if ltb k (score x) then x else m) (if ltb k (score x) then score x else k)
  Best-step xs i m k x b e = elim (dec_lt k (score x)) [
    | yes more ↦
        let t : ltb k (score x) ≡ true = ground arith in
        rw t (record {
          most = λ j y lt at. elim (ℕ_discrete i j) [
            | yes same ↦
                let y_x : y ≡ x =
                  some-same y x (get_elem? xs j) at (ap (get_elem? xs) (sym same) ∙ e) in
                rw y_x (omega arith)
            | no other ↦ omega (arith, b.most j y (omega arith) at)
          ];
          from =
              inr (
                i,
                omega arith,
                e,
                refl,
                omega arith,
                λ j y lt at. omega (arith, b.most j y lt at),
              );
        })
    | no less ↦
        let f : ltb k (score x) ≡ false = ground arith in
        rw f (record {
          most = λ j y lt at. elim (ℕ_discrete i j) [
            | yes same ↦
                let y_x : y ≡ x =
                  some-same y x (get_elem? xs j) at (ap (get_elem? xs) (sym same) ∙ e) in
                rw y_x (omega arith)
            | no other ↦ b.most j y (omega arith) at
          ];
          from = elim b.from [
            | inl none_yet ↦ inl none_yet
            | inr (j, lt, at, sc, positive, before) ↦ inr (j, omega arith, at, sc, positive, before)
          ];
        })
  ]

leading-positive : (bytes : Memory) (c p n : ℕ) → n ≢ 0 → bytes p ≡ c → 0 < leading bytes c p n
leading-positive bytes c p zero ne e = absurd (ne refl)
leading-positive bytes c p (suc n) ne e = ground (arith, e)

-- `alist_get_entry_n` of the list is the number of its entries.
abbrev pub Counts : AList → Type 0
Counts l = get_entry_n l ≡ length (contents l)

module _ (rounds : ℕ) (bytes : Memory) (mount_path : ℕ → ℕ) (mount_points : AList)
    (path n : ℕ) where
  match_from-Best :
      IsString bytes path n
      → n < rounds
      → (left i m k : ℕ) → i + left ≡ length (contents mount_points)
      → Best bytes mount_path path n (contents mount_points) i m k
      → (m' : ℕ) × (k' : ℕ) × (match_from rounds bytes mount_path mount_points path left i m k
          ≡ some (m', k'))
        × Best bytes mount_path path n
            (contents mount_points)
            (length (contents mount_points))
            m'
            k'
  unfolding match_from
  match_from-Best s lt zero i m k e b =
      let e' : length (contents mount_points) ≡ i = omega arith in (m, k, refl, rw e' b)
  match_from-Best s lt (suc left) i m k e b =
      let (x, at) = get_elem?-some (contents mount_points) i (omega arith) in
      let current : get_by_index mount_points i ≡ some x =
        get_by_index-contents mount_points i ∙ at in
      let matched : strn_cmp_n rounds bytes path (mount_path x) 0
          ≡ some (score bytes mount_path path n x) =
        strn_cmp_n-leading bytes n rounds path (mount_path x) 0 s lt ∙ ap some (omega arith) in
      rw (current, matched)
        (match_from-Best s lt left (i + 1)
          (if ltb k (score bytes mount_path path n x) then x else m)
          (if ltb k (score bytes mount_path path n x) then score bytes mount_path path n x else k)
          (omega arith) (Best-step bytes mount_path path n (contents mount_points) i m k x b at))

  -- For a path that ends in memory, `get_mp` returns the first mount point with the highest score and this score, which is
  -- the number of the leading letters of the path that are the first letter of the mount path, and NULL and 0 where no mount
  -- point has a score above 0. Enough rounds are one more than the path has letters.
  pub get_mp-Best :
      IsString bytes path n
      → Counts mount_points
      → n < rounds
      → (m : ℕ) × (k : ℕ) × (get_mp rounds bytes mount_path mount_points path ≡ some (m, k))
        × Best bytes mount_path path n (contents mount_points) (length (contents mount_points)) m k
  unfolding get_mp
  get_mp-Best s counts lt =
      match_from-Best s lt (get_entry_n mount_points) 0 0 0 (omega (arith, counts))
        (record { most = λ j x less. absurd (omega arith); from = inl (refl, refl) })

  -- The mount points begin with the letter `c`.
  abbrev pub AllBegin : ℕ → Type 0
  AllBegin c = (i y : ℕ) → get_elem? (contents mount_points) i ≡ some y → bytes (mount_path y) ≡ c

  Best-first :
      (c x m k : ℕ)
      → n ≢ 0
      → bytes path ≡ c
      → get_elem? (contents mount_points) 0 ≡ some x
      → AllBegin c
      → Best bytes mount_path path n (contents mount_points) (length (contents mount_points)) m k
      → m ≡ x
  Best-first c x m k ne begins at same b =
      let equal : (i y : ℕ)
          → get_elem? (contents mount_points) i ≡ some y
          → score bytes mount_path path n y ≡ leading bytes c path n =
        λ i y e. rw (same i y e) refl in
      let positive = leading-positive bytes c path n ne begins in
      let lower = b.most 0 x (get_elem?-within (contents mount_points) 0 x at) at in
      elim b.from [
        | inl none_yet ↦ absurd (omega (arith, none_yet.1, lower, positive, equal 0 x at))
        | inr (zero, lt, here, sc, more, before) ↦
            some-same m x (get_elem? (contents mount_points) 0) here at
        | inr (suc i, lt, here, sc, more, before) ↦
            absurd
              (omega (arith, sc, before 0 x (omega arith) at, equal 0 x at, equal (suc i) m here))
      ]

  -- Where the path and all mount paths begin with the same letter, as all absolute ones do, `resolve_path` returns the first
  -- mount point, however the path goes on. Enough rounds are one more than the path has letters.
  pub resolve_path-first :
      (c x : ℕ)
      → IsString bytes path n
      → n ≢ 0
      → n < rounds
      → Counts mount_points
      → get_elem? (contents mount_points) 0 ≡ some x
      → bytes path ≡ c
      → AllBegin c
      → resolve_path rounds bytes mount_path mount_points path ≡ some x
  unfolding resolve_path get_mp
  resolve_path-first c x s ne lt counts first begins same =
      let (m, k, r, b) = get_mp-Best s counts lt in
      rw r (ap some (Best-first c x m k ne begins first same b))

module _ (same : ℕ → ℕ → Bool) (fs_type : ℕ → ℕ) (loaded_fs : AList) (type : ℕ) where
  -- The first file system from the index `i` on that has the type, NULL where none has it.
  abbrev pub FirstOf : ℕ → ℕ → Type 0
  FirstOf i fs =
      ((n : ℕ) × (i ≤ n)
        × (get_elem? (contents loaded_fs) n ≡ some fs)
        × (same (fs_type fs) type ≡ true)
        × ((j x : ℕ)
            → i ≤ j
            → j < n
            → get_elem? (contents loaded_fs) j ≡ some x
            → same (fs_type x) type ≡ false))
      ⊎ ((fs ≡ 0)
          × ((j x : ℕ)
              → i ≤ j
              → get_elem? (contents loaded_fs) j ≡ some x
              → same (fs_type x) type ≡ false))

  at_or_behind :
      (i j x y : ℕ)
      → i ≤ j
      → get_elem? (contents loaded_fs) i ≡ some x
      → same (fs_type x) type ≡ false
      → get_elem? (contents loaded_fs) j ≡ some y
      → (i + 1 ≤ j → same (fs_type y) type ≡ false)
      → same (fs_type y) type ≡ false
  at_or_behind i j x y lo at not_here at' behind = elim (ℕ_discrete i j) [
    | no other ↦ behind (omega arith)
    | yes equal ↦
        let y_x : y ≡ x =
          some-same y x (get_elem? (contents loaded_fs) j) at'
            (ap (get_elem? (contents loaded_fs)) (sym equal) ∙ at) in
        rw y_x not_here
  ]

  type_from-FirstOf :
      (left i : ℕ)
      → i + left ≡ length (contents loaded_fs)
      → (fs : ℕ) × (type_from same fs_type loaded_fs type left i ≡ some fs) × FirstOf i fs
  unfolding type_from
  type_from-FirstOf zero i e = (
    0,
    refl,
    inr (refl, λ j x lo at. absurd (omega (arith, get_elem?-within (contents loaded_fs) j x at))),
  )
  type_from-FirstOf (suc left) i e =
      let (x, at) = get_elem?-some (contents loaded_fs) i (omega arith) in
      let current : get_by_index loaded_fs i ≡ some x = get_by_index-contents loaded_fs i ∙ at in
      elim (Bool-cases (same (fs_type x) type)) [
        | inl here ↦ (
          x,
          rw (current, here) refl,
          inl (i, omega arith, at, here, λ j y lo hi at'. absurd (omega arith)),
        )
        | inr not_here ↦
            let (fs, r, f) = type_from-FirstOf left (i + 1) (omega arith) in
            (
              fs,
              rw (current, not_here) r,
              elim f [
                | inl (n, lo, found, same_type, before) ↦ inl (
                  n,
                  omega arith,
                  found,
                  same_type,
                  λ j y lo' hi at'.
                      at_or_behind i j x y lo' at not_here at' (λ h. before j y h hi at'),
                )
                | inr (null, none_has) ↦ inr (
                  null,
                  λ j y lo' at'. at_or_behind i j x y lo' at not_here at' (λ h. none_has j y h at'),
                )
              ],
            )
      ]

  -- `get_FS_by_type` returns the first loaded file system with the type, and NULL only where none has it.
  pub get_fs_by_type-First :
      Counts loaded_fs
      → (fs : ℕ) × (get_fs_by_type same fs_type loaded_fs type ≡ some fs) × FirstOf 0 fs
  unfolding get_fs_by_type
  get_fs_by_type-First counts = type_from-FirstOf (get_entry_n loaded_fs) 0 (omega (arith, counts))
