-- ===== src/Lib.antt =====
-- Lizarx: a small unixoid kernel for i386 and x86_64, with a user-space library, a virtual file
-- system daemon and a port of newlib. These files model the kernel as it is built for x86_64: words
-- and pointers have 64 bits.
--
-- The kernel (src/kernel) starts from a multiboot loader (boot), sets up the tables and the
-- controllers of the processor (HAL), hands out memory (mm), runs processes and their threads on
-- all processors (mt), takes interrupts and system calls (intr), lets processes exchange messages,
-- memory and semaphores (ipc), drives a text screen, a keyboard, a timer and the clock (drv), and
-- has a library of its own (lib), on which all of these stand: the array list `alist_t` holds the
-- message queues, the shared memory, the threads of a processor and the processors; `kmalloc` gives memory to all of
-- them, and gets its own from the ranges that `vmm.c` manages.
--
-- The files and the code:
--   AList       src/kernel/lib/libOS/list.c, list.h: the array list. A chain of arrays is a list of
--               nodes; the memory of the entries is a function that reads a field.
--   Memory      src/kernel/lib/string.c: memcpy, memmove, memset, strlen and strcmp on a memory of bytes.
--   Console     src/kernel/drv/vga-txt_graphics/vram.c, src/kernel/lib/stdlib.c: the text screen,
--               itoa and the formatted print. The screen is a function from cells to figures.
--   Time        src/kernel/lib/time.c, src/kernel/drv/hwtime/hwtime.c: the calendar and the clock.
--   Mm.FreeStack  src/kernel/mm/vmm.c: uvmm_find_freemem and uvmm_push_free, the stack of free
--               ranges of virtual addresses. Memory around the stack is part of the state.
--   Mm.Alloc    src/kernel/mm/vmm.c: vmm_malloc with kvmm_malloc and uvmm_malloc, vmm_free, kvmm_free_unsafe,
--               vmm_share_to_user, vmm_map_range_glob and make_guard_page, over Mm.FreeStack, Mm.Tables and Mm.Pages.
--   Mm.Invalid  src/kernel/mm/vmm.c: kvmm_free and sync_addr_space, with the stack of the freed ranges that other
--               processors may still see.
--   Mm.Heap     src/kernel/mm/vheap.c: vheap_init, kmalloc and kfree. The chain of blocks is a list.
--   Mm.Pages    src/kernel/mm/pmm.c: the stack of physical pages, pmm_malloc_4k, pmm_free_4k and what
--               pmm_init pushes. The array is a function from words to addresses.
--   Mm.Pages.Bitmap  src/kernel/mm/pmm.c: physbitmap, pmm_mark_used, pmm_is_alloced_glob, and what pmm_init marks.
--   Mm.Pages.Layout  src/kernel/mm/pmm.c: pmm_init_mmap, which takes a part of the memory map for the start.
--   Mm.Start    src/kernel/mm/vmm.c: the free ranges that vmm_init puts on the stack of startup_context.
--   Mm.Tables   src/kernel/mm/vmm.c: vmm_map and virt_to_phys on the page tables of x86_64. A table is
--               named by its physical page; the page TMP_PAGEBUF shows one of them at a time.
--   Mt.Threads  src/kernel/mt/threads.c: the threads, the processors with their lists, and the
--               dispatcher. A thread or a processor is named by its address.
--   Ipc.Sem     src/kernel/ipc/sem.c: the groups of semaphores, over the threads and the array list.
--   Ipc.Msg     src/kernel/ipc/msg.c: the message queues. The list of the queues is the array list
--               of AList; the messages lie in a store of blocks that point to each other.
--   Ipc.Shm     src/kernel/ipc/shm.c, shm.h: shared memory, over the array list and Mm.Alloc.
--   Keyboard    src/kernel/drv/keyboard/sc2kc.c: the keycodes of the scancodes.
--   Ld          src/usr/ld_a/ld.c, ld.h, elf.h: the dynamic linker of user space: the hash table of the
--               symbols, the relocations, the dynamic section and the loading. The parts of a library are read by
--               their addresses, and the bytes that relocations fill are a memory of their own.
--   TmpFs       src/usr/Daemons/VFS/FS/tmpFS/tmpfs.cpp: the files of the ram file system. The bytes lie in
--               one memory, and the pages of block pointers in a memory of their own.
--   Vfs         src/usr/Daemons/VFS/vfs.cpp, src/usr/Daemons/VFS/FS/tmpFS/tmpfs.cpp: the mount point of a path,
--               the file system of a type, and the search for a word in a name.
--   Hal         src/kernel/HAL/x86_common/gdt.c, idt.c, src/kernel/inc/HAL/x86_64/hw_structs.h: the descriptors of
--               segments and of the task state, and the gates of the interrupts.
--   Prelude     numbers, tests, lists and integers for all of them.
--
-- Conventions. A pointer or a word is a natural number, and the arithmetic of the code on words is
-- taken modulo 2 ^ 64 (2 ^ 8 or 2 ^ 32 for the narrower types) where it can wrap. `none` is a
-- fault, a NULL that is read, or a NULL that is returned, as the file says. A loop runs on the
-- structure of a list or on a number of rounds: the walk of msgsnd has fuel, and as many steps as
-- the queue holds messages are enough; the loops of gmtime_r have as many rounds as the number of
-- days; an entry of the memory map gives fewer than 2 ^ 20 pages, since the code masks its length
-- to 32 bits, so that many rounds are enough for it. A search over the processors has as many
-- rounds as the list holds entries, and the sleepers of a semaphore are woken in at most as many
-- rounds as there are of them. vmm_map calls itself to put a table at TMP_PAGEBUF, and that call
-- needs no other: depth 2 is enough. The linker walks a chain of a hash table in as many rounds as
-- the chain has symbols, and a name in one more than it has letters. The loops over the bytes of
-- a file have one round more than there are bytes. The loop of vmm_malloc has
-- one round more than the block has pages; its `int` overflows for a block of 2 GB, which is
-- `none`. The loops of pmm_init that mark pages run over memory below 1 GB, for which more than
-- 2 ^ 21 rounds are enough. kmalloc, which can run for ever, has an outcome for that. Addresses that
-- an allocator returns are arguments of the functions that call it.
--
-- Not modelled: the locks (each function runs as one step), the assembler parts, the registers of the
-- processor with its buffer of translations, the loading of its tables, the search for the tables of
-- the firmware and the commands to its controllers and to the keyboard, the change of the address
-- space at a dispatch, the making of contexts (vmm_crcontext, vmm_delcontext) and what vmm_init maps,
-- processes, the loader and the ELF code, the interrupt handlers, and what is outside the kernel but
-- for the loading and linking of libraries, and the files and mount points of the daemon: the
-- directories of the ram file system, the message loop of the daemon, the library of user space with
-- its open files and its semaphores. The `float` of get_best_cpu is taken as exact, which it is for
-- counts below 2 ^ 24. The headers of heap blocks are fields; where
-- kmalloc would write one over another, that is its outcome. The bits of the page bitmap are those of
-- 2 ^ 18 pages, and what is behind the array is an argument. An `int` that would overflow as a loop
-- counter of pmm_init or of the linker gives `none`.
pub mod AList
pub mod Console
pub mod Hal
pub mod Ipc
pub mod Keyboard
pub mod Ld
pub mod Memory
pub mod Mm
pub mod Mt
pub mod Prelude
pub mod Time
pub mod TmpFs
pub mod Vfs
