-- ===== src/Ipc/Msg/Create.antt =====
-- `msgget`: a new queue, which is empty, and its id.
use lizarx.Prelude.{
  set, set-same, set-other, ℕ, ◌+◌, ◌%◌, ◌^◌, ◌≡◌, ◌≢◌, refl, ap, ◌∙◌, some, List, [], ◌∷◌, ◌++◌,
  arith, ◌==◌, Bool-cases, inl, inr,
}
use lizarx.Prelude.Int.{pos}
use lizarx.AList.{AList, add, get_index, get_by_index}
use lizarx.AList.Contents.{IsValid, find_index}
use lizarx.AList.Add.{Added, add-Added}
use lizarx.AList.Lookup.{get_index-contents, get_by_index-get_index}
use lizarx.Ipc.Msg.{Queue, Store, int_pattern, msgget}
use lizarx.Ipc.Msg.Chains.{Holds, by_queue}

find_index-found :
    (front back : List ℕ) (p j : ℕ) → (i : ℕ) × (find_index (front ++ (p ∷ back)) p j ≡ pos i)
find_index-found [] back p j = (j, ground arith)
find_index-found (x ∷ front) back p j = elim (Bool-cases (x == p)) [
  | inl same ↦ (j, rw same refl)
  | inr other ↦ rw other (find_index-found front back p (j + 1))
]

-- What `msgget` did: the queue `buf` is there and empty, the other queues hold what they held, and the id is the
-- index of the queue in the list.
pub record Created (buf id : ℕ) (s s' : Store) (held : ℕ → List (List ℕ)) : Type 0 where
  pub holds : Holds s' (set held buf [])
  pub valid : IsValid s'.msqid_list
  pub index : ℕ
  pub listed : get_by_index s'.msqid_list index ≡ some buf
  pub is_index : id ≡ index % 2 ^ 32
  pub own_id : (s'.queues buf).id ≡ id

-- `msgget` with memory for a queue makes an empty queue, and returns the index at which the list holds it.
pub msgget-Created :
    (buf : ℕ) (s : Store) (held : ℕ → List (List ℕ))
    → IsValid s.msqid_list
    → Holds s held
    → buf ≢ 0
    → (id : ℕ) × (s' : Store) × (msgget buf s ≡ some (id, s')) × Created buf id s s' held
unfolding msgget
msgget-Created buf s held v h nz =
    let (l, e, a) = add-Added s.msqid_list buf v nz in created l e a (placed l a)
  where
    placed : (l : AList) → Added buf s.msqid_list l → (i : ℕ) × (get_index l buf ≡ pos i)
    placed l a =
        let (front, back, before, after) = a.inserted in
        let (i, found) = find_index-found front back buf 0 in
        (i, get_index-contents l buf nz ∙ ap (λ xs. find_index xs buf 0) after ∙ found)

    created :
        (l : AList)
        → add s.msqid_list buf ≡ some l
        → Added buf s.msqid_list l
        → (i : ℕ) × (get_index l buf ≡ pos i)
        → (id : ℕ) × (s' : Store) × (msgget buf s ≡ some (id, s')) × Created buf id s s' held
    created l e a (i, at) =
        let queue : Queue = record { id = int_pattern (get_index l buf); first_message = 0 } in
        let s' : Store = record s { msqid_list = l; queues = set s.queues buf queue } in
        (
          int_pattern (get_index l buf),
          s',
          rw (e, msgget),
          record {
            holds =
                by_queue s' h.place h.start held buf []
                  (ap (λ q. q.first_message) (set-same s.queues buf queue))
                  (λ p ne. rw (set-other s.queues buf queue p ne) (h.chain p));
            valid = a.valid;
            index = i;
            listed = get_by_index-get_index l buf i nz at;
            is_index = ap int_pattern at;
            own_id = ap (λ q. q.id) (set-same s.queues buf queue);
          },
        )
