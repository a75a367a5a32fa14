-- ===== src/Ipc/Shm/Ids.antt =====
-- The ids that `shmget` gives.
use mathlib.Core.Path.{subst}
use lizarx.Prelude.{
  ℕ, zero, suc, ◌+◌, ◌<◌, ◌≤◌, ◌%◌, ◌^◌, ◌≡◌, ◌≢◌, refl, ap, sym, ◌∙◌, false, Option, some, none,
  List, [], ◌∷◌, ◌++◌, length, length-append, get_elem?, arith, ◌==◌, if◌then◌else◌, set, set-same,
  set-other, Bool-cases, inl, inr,
}
use lizarx.Prelude.Int.{pos}
use lizarx.AList.{get_index}
use lizarx.AList.Contents.{contents, IsValid, find_index, has}
use lizarx.AList.Add.{add-Added}
use lizarx.AList.Append.{Packed, add-Packed}
use lizarx.AList.Lookup.{get_index-contents, Found, get_by_entry-Found}
use lizarx.Ipc.Msg.{int_pattern}
use lizarx.Mm.Tables.{Space}
use lizarx.Ipc.Shm.{Shmid, Segments, shmget, shmat, find_segment}

-- The entries have the numbers from `j` on.
abbrev pub Numbered : (ℕ → ℕ) → ℕ → List ℕ → Type 0
Numbered id_of j [] = Unit
Numbered id_of j (x ∷ xs) = (x < 2 ^ 64) × (id_of x ≡ j) × Numbered id_of (suc j) xs

-- The segments that `shmget` made, with their ids.
pub record IsNumbered (s : Segments) : Type 0 where
  pub valid : IsValid s.shmid_list
  pub packed : Packed s.shmid_list
  pub ids : Numbered (λ a. (s.shmids a).id) 0 (contents s.shmid_list)
  pub small : length (contents s.shmid_list) < 2 ^ 32

own : (id_of : ℕ → ℕ) (x j : ℕ) → x < 2 ^ 64 → id_of x ≡ j → id_of ((x + 0) % 2 ^ 64) ≡ j
own id_of x j lt e = ap id_of (omega arith) ∙ e

-- A search for a number finds the entry at that place.
Found-get_elem? :
    (id_of : ℕ → ℕ) (xs : List ℕ) (j i val : ℕ) (r : Option ℕ)
    → Numbered id_of j xs
    → val ≡ j + i
    → Found id_of 0 val xs r
    → r ≡ get_elem? xs i
Found-get_elem? id_of [] j i val none n e f = refl
Found-get_elem? id_of [] j i val (some p) n e ([], zs, split, miss, hit) =
    absurd (ground (arith, split))
Found-get_elem? id_of [] j i val (some p) n e (y ∷ ys, zs, split, miss, hit) =
    absurd (ground (arith, split))
Found-get_elem? id_of (x ∷ xs) j zero val none n e f =
    absurd (f.0 (own id_of x j n.0 n.1 ∙ omega (arith, e)))
Found-get_elem? id_of (x ∷ xs) j (suc i) val none n e f =
    Found-get_elem? id_of xs (suc j) i val none n.2 (omega arith) f.1
Found-get_elem? id_of (x ∷ xs) j zero val (some p) n e ([], zs, split, miss, hit) =
    ground (arith, split)
Found-get_elem? id_of (x ∷ xs) j (suc i) val (some p) n e ([], zs, split, miss, hit) =
    let same : x ≡ p = ground (arith, split) in
    let at : id_of ((p + 0) % 2 ^ 64) ≡ j =
      ap (λ y. id_of ((y + 0) % 2 ^ 64)) (sym same) ∙ own id_of x j n.0 n.1 in
    absurd (omega (arith, e, hit, at))
Found-get_elem? id_of (x ∷ xs) j zero val (some p) n e (y ∷ ys, zs, split, miss, hit) =
    let same : x ≡ y = ground (arith, split) in
    absurd (
      miss.0
        (ap (λ y. id_of ((y + 0) % 2 ^ 64)) (sym same) ∙ own id_of x j n.0 n.1 ∙ omega (arith, e)))
Found-get_elem? id_of (x ∷ xs) j (suc i) val (some p) n e (y ∷ ys, zs, split, miss, hit) =
    Found-get_elem? id_of xs (suc j) i val (some p) n.2 (omega (arith, e))
      (ys, zs, ground (arith, split), miss.1, hit)

-- The entry with an id is the one at that place.
find_segment-contents :
    (s : Segments) (i : ℕ)
    → Numbered (λ a. (s.shmids a).id) 0 (contents s.shmid_list)
    → find_segment s i ≡ get_elem? (contents s.shmid_list) i
find_segment-contents s i n =
    Found-get_elem? (λ a. (s.shmids a).id) (contents s.shmid_list) 0 i i (find_segment s i) n
      (omega arith) (get_by_entry-Found (λ a. (s.shmids a).id) 0 i s.shmid_list)

find_index-append :
    (xs : List ℕ) (p j : ℕ)
    → has xs p ≡ false
    → find_index (xs ++ (p ∷ [])) p j ≡ pos (j + length xs)
find_index-append [] p j h = ground arith
find_index-append (x ∷ xs) p j h = elim (Bool-cases (x == p)) [
  | inl e ↦ absurd (ground (arith, h, e))
  | inr ne ↦ rw ne (find_index-append xs p (j + 1) (ground (arith, h, ne)) ∙ ap pos (omega arith))
]

-- A new number behind the others.
Numbered-append :
    (f : ℕ → Shmid) (d : Shmid) (xs : List ℕ) (p j : ℕ)
    → has xs p ≡ false
    → p < 2 ^ 64
    → d.id ≡ j + length xs
    → Numbered (λ a. (f a).id) j xs
    → Numbered (λ a. (set f p d a).id) j (xs ++ (p ∷ []))
Numbered-append f d [] p j h lt e n = (lt, ap (λ x. x.id) (set-same f p d) ∙ e ∙ omega arith, tt)
Numbered-append f d (x ∷ xs) p j h lt e n = elim (Bool-cases (x == p)) [
  | inl same ↦ absurd (ground (arith, h, same))
  | inr ne ↦ (
    n.0,
    ap (λ y. y.id) (set-other f p d x (ground (arith, ne))) ∙ n.1,
    Numbered-append f d xs p (suc j) (ground (arith, h, ne)) lt (e ∙ omega arith) n.2,
  )
]

get_elem?-last :
    (xs : List ℕ) (p i : ℕ)
    → get_elem? (xs ++ (p ∷ [])) i ≡ (if i == length xs then some p else get_elem? xs i)
get_elem?-last [] p zero = ground arith
get_elem?-last [] p (suc i) = ground arith
get_elem?-last (x ∷ xs) p zero = ground arith
get_elem?-last (x ∷ xs) p (suc i) = ground (arith, get_elem?-last xs p i)

get_elem?-behind : (xs : List ℕ) (i : ℕ) → length xs ≤ i → get_elem? xs i ≡ none
get_elem?-behind [] i le = refl
get_elem?-behind (x ∷ xs) zero le = absurd (omega arith)
get_elem?-behind (x ∷ xs) (suc i) le = get_elem?-behind xs i (omega arith)

-- What `shmget` did: the descriptor `buf` is the last one, its id is the number of those that were there, and every
-- other id names what it named.
pub record Created (buf pid size : ℕ) (s : Segments) (r : Option (ℕ × Segments)) : Type 0 where
  pub state : Segments
  pub result : r ≡ some (length (contents s.shmid_list), state)
  pub numbered : IsNumbered state
  pub own_id : (state.shmids buf).id ≡ length (contents s.shmid_list)
  pub own_size : (state.shmids buf).size ≡ size
  pub unbacked : (state.shmids buf).virt_in_kernel ≡ 0
  pub found :
      (id : ℕ)
      → find_segment state id
        ≡ (if id == length (contents s.shmid_list) then some buf else find_segment s id)

-- Where the segments are numbered, `shmget` with memory for one more descriptor returns their number as its id. They
-- are then numbered again, the id names the new descriptor, which has the size that was asked for and no memory
-- yet, and every other id names what it named.
pub shmget-Created :
    (buf pid size : ℕ) (s : Segments)
    → IsNumbered s
    → buf ≢ 0
    → buf < 2 ^ 64
    → has (contents s.shmid_list) buf ≡ false
    → length (contents s.shmid_list) + 1 < 2 ^ 32
    → Created buf pid size s (shmget buf pid size s)
unfolding shmget
shmget-Created buf pid size s h nz lt fresh room =
    let xs = contents s.shmid_list in
    let (l, e, packed, after) =
      add-Packed s.shmid_list buf h.valid.counted h.valid.room h.packed nz in
    let (l', e', a) = add-Added s.shmid_list buf h.valid nz in
    let same : l' ≡ l = ground (arith, e, e') in
    let number : int_pattern (get_index l buf) ≡ length xs =
      ap int_pattern (
        get_index-contents l buf nz
        ∙ ap (λ ys. find_index ys buf 0) after
        ∙ find_index-append xs buf 0 fresh)
      ∙ omega arith in
    let d : Shmid = record {
      id = int_pattern (get_index l buf);
      shm_cpid = pid;
      virt_in_kernel = 0;
      size = size;
    } in
    let s' : Segments = record s { shmid_list = l; shmids = set s.shmids buf d } in
    let ids : Numbered (λ a. (s'.shmids a).id) 0 (contents l) =
      subst (Numbered (λ a. (s'.shmids a).id) 0) (sym after)
        (Numbered-append s.shmids d xs buf 0 fresh lt (number ∙ omega arith) h.ids) in
    record {
      state = s';
      result = rw e (ap (λ i. some (i, s')) number);
      numbered = record {
        valid = subst IsValid same a.valid;
        packed = packed;
        ids = ids;
        small = omega (arith, room, ap length after, length-append xs (buf ∷ []));
      };
      own_id = ap (λ x. x.id) (set-same s.shmids buf d) ∙ number;
      own_size = ap (λ x. x.size) (set-same s.shmids buf d);
      unbacked = ap (λ x. x.virt_in_kernel) (set-same s.shmids buf d);
      found = λ id.
          find_segment-contents s' id ids
          ∙ ap (λ ys. get_elem? ys id) after
          ∙ get_elem?-last xs buf id
          ∙ ap (λ r. if id == length xs then some buf else r)
              (sym (find_segment-contents s id h.ids));
    }

-- Where the segments are numbered, `shmat` of an id that is not below their number returns NULL and changes nothing.
pub shmat-refused :
    (depth rounds : ℕ) (cur startup : Space) (shmid : ℕ) (s : Segments)
    → IsNumbered s
    → length (contents s.shmid_list) ≤ shmid
    → shmat depth rounds cur startup shmid s ≡ some (0, s)
unfolding shmat
shmat-refused depth rounds cur startup shmid s h le =
    let missing : find_segment s shmid ≡ none =
      find_segment-contents s shmid h.ids ∙ get_elem?-behind (contents s.shmid_list) shmid le in
    rw (shmat, missing) refl
