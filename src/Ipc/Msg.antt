-- ===== src/Ipc/Msg.antt =====
-- src/kernel/ipc/msg.c and src/kernel/inc/ipc/msg.h: message queues. A queue is a chain of message blocks on
-- the kernel heap. The addresses that `kmalloc` returned are arguments; `none` is a read of memory
-- that is not a block, or a walk that runs out of fuel. The locks are not modelled.
pub mod Append
pub mod Chains
pub mod Create
pub mod Fifo
pub mod Receive
pub mod Send
mod Tests
use lizarx.Prelude.{
  set, ℕ, zero, suc, ◌^◌, ◌%◌, ◌-◌, not, ◌||◌, Option, none, some, List, [], ◌==◌, if◌then◌else◌,
  length,
}
use lizarx.Prelude.Int.{ℤ, pos, negsuc, minus_one}
use lizarx.AList.{AList, add, get_index, get_by_entry}

-- `struct msqid_ds`; `id` is the pattern of the `int`.
pub record Queue : Type 0 where
  pub id : ℕ
  pub first_message : ℕ

-- A message block: the pointer to the next one, the size, the bytes.
pub record Block : Type 0 where
  pub next : ℕ
  pub size : ℕ
  pub bytes : List ℕ

-- `msqid_list`, and the memory that its entries and the messages lie in.
pub record Store : Type 0 where
  pub msqid_list : AList
  pub queues : ℕ → Queue
  pub blocks : ℕ → Option Block

-- An index as a pattern of 32 bits.
abbrev pub int_pattern : ℤ → ℕ
int_pattern (pos n) = n % 2 ^ 32
int_pattern (negsuc n) = 2 ^ 32 - 1 - n % 2 ^ 32

-- `alist_get_by_entry_s(&msqid_list, 0, msqid)`
abbrev pub find_queue : Store → ℕ → Option ℕ
find_queue s msqid = get_by_entry (λ a. (s.queues a).id) 0 msqid s.msqid_list

-- `msgget`, with the address of the new queue.
unfoldable pub msgget : ℕ → Store → Option (ℕ × Store)
msgget buf s = elim (add s.msqid_list buf) [
  | none ↦ none
  | some l ↦ some (
    int_pattern (get_index l buf),
    record s {
      msqid_list = l;
      queues = set s.queues buf (record { id = int_pattern (get_index l buf); first_message = 0 });
    },
  )
]

-- `while(*cur_msqid_msg)`
unfoldable pub last_from : ℕ → (ℕ → Option Block) → ℕ → Option ℕ
last_from zero blocks cur = none
last_from (suc fuel) blocks cur = elim (blocks cur) [
  | none ↦ none
  | some b ↦ (let rest = last_from fuel blocks b.next in if b.next == 0 then some cur else rest)
]

-- The first word of a block is overwritten.
abbrev pub set_next : (ℕ → Option Block) → ℕ → ℕ → ℕ → Option Block
set_next blocks cur next = elim (blocks cur) [
  | none ↦ blocks
  | some b ↦ set blocks cur (some (record b { next = next }))
]

abbrev pub new_block : List ℕ → Block
new_block bytes = record { next = 0; size = length bytes; bytes = bytes }

-- The new block `addr` goes behind the last one of the queue.
abbrev pub link : ℕ → ℕ → ℕ → Store → Option Store
link fuel addr queue s =
    if (s.queues queue).first_message == 0
    then some (record s {
      queues = set s.queues queue (record (s.queues queue) { first_message = addr });
    })
    else elim (last_from fuel s.blocks (s.queues queue).first_message) [
      | none ↦ none
      | some cur ↦ some (record s { blocks = set_next s.blocks cur addr })
    ]

abbrev pub finish : {A : Type 0} → A → Option Store → Option (A × Store)
finish a none = none
finish a (some s) = some (a, s)

-- `msgsnd`
unfoldable pub msgsnd : ℕ → ℕ → ℕ → List ℕ → Store → Option (ℤ × Store)
unfolding last_from
msgsnd fuel addr msqid bytes s = elim (find_queue s msqid) [
  | none ↦ some (minus_one, s)
  | some queue ↦
      finish (pos 0)
        (link fuel addr queue (record s { blocks = set s.blocks addr (some (new_block bytes)) }))
]

-- What `msgrcv` does with the first block of the queue: the bytes, if it returns 1.
abbrev pub unlink : ℕ → ℕ → Store → Option Block → Option (Option (List ℕ) × Store)
unlink queue size s none = none
unlink queue size s (some b) =
    if not (size == b.size)
    then some (none, s)
    else some (
      some b.bytes,
      record s {
        queues = set s.queues queue (record (s.queues queue) { first_message = b.next });
        blocks = set s.blocks (s.queues queue).first_message none;
      },
    )

-- `msgrcv`: the bytes that are copied where it returns 1, `none` where it returns 0.
unfoldable pub msgrcv : ℕ → ℕ → Store → Option (Option (List ℕ) × Store)
msgrcv msqid size s = elim (find_queue s msqid) [
  | none ↦ some (none, s)
  | some queue ↦
      if (s.queues queue).first_message == 0
      then some (none, s)
      else unlink queue size s (s.blocks (s.queues queue).first_message)
]
