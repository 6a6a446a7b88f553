-- ===== src/Lib.antt =====
-- Reaper-OS, the kernel's security core: how it changes its operating mode (a "reality"), what it
-- logs of that, how it hands out the identifiers that keep the modes' address spaces apart, how
-- threads exchange messages, the capabilities by which they name what they may use, how frames of memory are handed out, and the
-- checks on
-- regions to map and on budgets to spend.
--
-- The kernel runs in one mode at a time: Casual, Secure, Lockdown or Ghost (Void before boot). A
-- request for another mode is compiled into an envelope, verified against the edges of the mode
-- diagram and the credentials of each edge, and applied; it leaves an entry in the fate ledger
-- (a ring of 256 records, chained by a 64-bit hash), strikes a record into the audit lattice (a ring
-- of 1024 records, chained by BLAKE3), tells the scheduler, flushes address spaces on the way into
-- and out of Ghost, and stores the mode in the CMOS.
--
-- Files and code:
--   Base                  shared names: Boolean tests, arrays as lists, machine words, bits of words
--   Env                   what an operation reads of the clock and of the current thread
--   Mode                  kernel/include/mode.h, mode_internal.h: modes, reasons, records, the state
--   Mode/Fate             kernel/mode.c: calculate_record_hash, fate_append_record, the mode_log_
--                         functions, mode_get_history and mode_get_history_filtered
--   Mode/Boot             kernel/mode.c: the boot_record_ functions
--   Mode/Envelope         kernel/mode.c: env_compile_transition, env_verify_transition,
--                         env_apply_transition, env_rollback_transition; kernel/scheduler.c:
--                         scheduler_on_mode_transition
--   Mode/Transition       kernel/mode.c: mode_request_transition_ex, mode_request_transition, mode_init
--   Audit                 kernel/audit.c: audit_init, audit_rotate_seed, audit_strike
--   Pcid                  kernel/pcid.c: pcid_init, pcid_alloc, pcid_free and the bitmaps
--   Cap                   kernel/capability.c, kernel/include/capability.h: Cap/Slots (lookup, insertion,
--                         deletion, copy, the death of an identity), Cap/Derive (creation, retype, mint),
--                         Cap/Revoke (cap_revoke, cap_revoke_tree)
--   Pmm                   kernel/pmm.c, kernel/include/pmm.h: Pmm (bitmap, metadata, free lists),
--                         Pmm/Blocks (pmm_buddy_alloc_block, pmm_buddy_free_block, pmm_buddy_remove),
--                         Pmm/Frames (pmm_alloc_ex, pmm_free_ex, pmm_transfer), Pmm/Boot (the first
--                         fill of the free lists), Pmm/Init (pmm_init)
--   Ipc                   kernel/syscall.c: ipc_invoke_endpoint; kernel/include/ipc.h
--   Sched                 kernel/scheduler.c: scheduler_transition_valid, scheduler_lease_valid,
--                         process_budget_try_consume, scheduler_refill_process_budget; Sched/Lease:
--                         the lease of kernel/thread.c, thread_create, and kernel/entry.c, entry_apply
--   Contract              kernel/vmm.c: vmm_compile_region_contract; kernel/include/vmm.h
--   Examples              the theorems at concrete inputs
--
-- State is passed explicitly: each operation takes the statics of its file as a record and returns the
-- new record with its result. Numbers are natural numbers, and where the C type wraps around the
-- definition says so (u8, u16, u32, u64 in Base/Word). C enumerations are numbers, since the code tests
-- their ranges. Arrays are lists: an index out of bounds reads a default and writes nothing. Each
-- operation is one step. Most hold a lock from their first access to their last one, and the lock is
-- left out; audit_strike takes no lock, and the budget of a process is changed by compare-and-swap
-- loops, so for these two the model covers calls that do not overlap.
--
-- Loops are structural recursion: on the number of steps left (history_from, find_free), which is the
-- bound of the C loop, or on the list of bytes (hash_from). The walks of capability.c over the lineage
-- have no bound in C and run on fuel: alive_from and cap_identity_free go up the parents, for which the
-- height of an identity is enough, and revoke_children goes down, for which the depth of the family is.
-- pmm_buddy_remove walks a free list on as much fuel as there are free frames, and one more; the
-- first fill of the free lists has as much fuel as there are frames. The queues
-- of threads are walked in the theorems, not by the code.
--
-- The memory of capability identities, of nodes and of threads is a function from addresses. What the
-- slab allocator gives is an argument of the call (0 where it fails); calls of kfree, slab_free,
-- lattice_destroy and the scheduler are a list of effects.
--
-- The bitmap and the metadata of the frames are functions from an index, the heads of the free lists one
-- array with a row for each zone. The theorems speak of ghost data, a list of blocks for each free list
-- and the list that each block is on. The memory map of the boot loader is an argument of pmm_init.
--
-- Not modelled: BLAKE3 (vendored under kernel/blake3) is a parameter, a function from bytes to bytes;
-- the CMOS is a parameter, a function from registers to bytes, and the writes to it are a list; calls
-- into hardware (PKRU, CR3, INVPCID, the frame buffer wipe) are a list of effects in their order;
-- printing and serial output are left out.
pub mod Base
pub mod Env
pub mod Audit
pub mod Cap
pub mod Mode
pub mod Pcid
pub mod Pmm
pub mod Examples
pub mod Contract
pub mod Ipc
pub mod Sched
