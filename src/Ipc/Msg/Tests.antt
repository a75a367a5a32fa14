-- ===== src/Ipc/Msg/Tests.antt =====
-- Runs of the message queues, and their theorems on a list of two queues, one of which holds a message.
use lizarx.Prelude.{
  ℕ, ◌≡◌, refl, none, some, List, [], ◌∷◌, false, ◌==◌, if◌then◌else◌, arith, ℕ_discrete,
}
use mathlib.Core.Option
use lizarx.Prelude.Int.{minus_one}
use lizarx.AList.{add, get_index, AList, get_by_entry}
use lizarx.Ipc.Msg.{Store, msgget, msgsnd, msgrcv}
use lizarx.Ipc.Msg.Chains.{Holds, Chain}
use lizarx.AList.Contents.{IsValid}
use lizarx.Ipc.Msg.Receive.{Received, msgrcv-Received}
use lizarx.Ipc.Msg.Fifo.{fifo, send_all, receive_all}

abbrev two_queues : AList
two_queues = record { used = 2; pointer = 100 ∷ 200 ∷ 0 ∷ 0 ∷ 0 ∷ [] } ∷ []

-- The queue at 100 is empty, the queue at 200 holds one message.
abbrev sample : Store
sample = record {
  msqid_list = two_queues;
  queues = λ a.
      if a == 200
      then record { id = 1; first_message = 700 }
      else record { id = 0; first_message = 0 };
  blocks = λ a. if a == 700 then some (record { next = 0; size = 2; bytes = 8 ∷ 9 ∷ [] }) else none;
}

abbrev waiting : ℕ → List (List ℕ)
waiting q = if q == 200 then (8 ∷ 9 ∷ []) ∷ [] else []

sample-Holds : Holds sample waiting
sample-Holds = record { place = λ a. (200, 0); start = λ q. 0; chain = chain }
  where
    chain :
        (q : ℕ)
        → Chain sample.blocks (λ a. (200, 0)) q 0 (sample.queues q).first_message (waiting q)
    chain q = elim (ℕ_discrete q 200) [
      | yes e ↦ rw e (omega arith, refl, refl, 0, refl, refl)
      | no ne ↦ (let other : (q == 200) ≡ false = ground arith in rw other refl)
    ]

unknown_queue :
    (msgsnd 9 300 7 [] sample ≡ some (minus_one, sample))
    × (msgrcv 7 2 sample ≡ some (none, sample))
unfolding msgsnd msgrcv get_by_entry
unknown_queue = (refl, refl)

created : Option.map (λ r. r.0) (msgget 300 sample) ≡ some 2
unfolding msgget add get_index
created = refl

msgrcv-Received_example :
    (s' : Store) × (msgrcv 1 2 sample ≡ some (some (8 ∷ 9 ∷ []), s'))
    × Received 200 [] sample s' waiting
unfolding get_by_entry
msgrcv-Received_example =
    msgrcv-Received 1 200 (8 ∷ 9 ∷ []) [] sample waiting sample-Holds refl refl

fifo_example :
    (s' s'' : Store) × (send_all 2 0 ((300, 1 ∷ []) ∷ (400, 2 ∷ 3 ∷ []) ∷ []) sample ≡ some s')
    × (receive_all 0 (1 ∷ 2 ∷ []) s' ≡ some ((1 ∷ []) ∷ (2 ∷ 3 ∷ []) ∷ [], s''))
unfolding get_by_entry
fifo_example =
    fifo 2 0 100 ((300, 1 ∷ []) ∷ (400, 2 ∷ 3 ∷ []) ∷ []) sample waiting sample-Holds refl refl
      (omega arith, refl, (omega arith, tt), (omega arith, refl, tt, tt)) (omega arith)

two_queues-IsValid : IsValid two_queues
two_queues-IsValid = record {
  counted = (record { size = refl; count = refl }, tt);
  room = omega arith;
}
