-- ===== src/Mm/Invalid/Tests.antt =====
-- `sync_addr_space` on two processors.
use Prim.Native.Nat.{bit_or}
use lizarx.Prelude.{arith, ℕ, ◌*◌, ◌≡◌, refl, ◌==◌, if◌then◌else◌}
use lizarx.Mm.FreeStack.{Context, push_free}
use lizarx.Mm.Invalid.{ToInvalid, Release, remind_to_mark_free, sync_addr_space, marked}
use lizarx.Mm.Invalid.Sync.{Synced, sync_addr_space-Synced}

abbrev gone : ℕ → ToInvalid
gone k = record { virt = k * 0x10000; size = 0x1000; cores_invalidated = if k == 1 then 1 else 2 }

abbrev free : Context
free = record { base = 4; ptr = 5; stack = λ k. record { start = 0; end = 0x3000 } }

-- The processor 0 has not seen the second entry, nor the processor 1 the first one.
abbrev waiting : Release
waiting = record { waiting = record { entries = gone; ptr = 2 }; startup = free }

sync_addr_space-Synced_example :
    Synced 0 3 waiting (sync_addr_space 0 3 waiting)
    × ((e : ToInvalid) → (marked 0 e).cores_invalidated ≡ bit_or e.cores_invalidated 1)
sync_addr_space-Synced_example = sync_addr_space-Synced 0 3 waiting (omega arith)

one_left : (sync_addr_space 0 3 waiting).waiting.ptr ≡ 1
unfolding sync_addr_space push_free
one_left = refl

-- At the hundredth range the entry behind the array is written.
behind_array :
    ((remind_to_mark_free 0 0x1000 0x2000 (record { entries = gone; ptr = 99 })).entries 100).virt
    ≡ 0x1000
unfolding remind_to_mark_free
behind_array = refl
