-- ===== src/StoreInst/Stores.antt =====
-- The stores that are logged before they happen: `checkMemory` of libstoreinst.cc, which the
-- compiler pass calls before a store of up to eight bytes, `addr_in_range` of utils.cc, and the
-- wrappers of `memcpy`, `memmove` and `memset` of libc_wrappers.cc. Each is made by a thread,
-- given by the place of its log in `tls_logs`.
pub mod Logged
pub mod Run
use snapshot_public.Prelude.{
  ℕ, zero, suc, ◌+◌, ◌-◌, ◌%◌, Bool, true, false, not, ◌&&◌, ◌||◌, Option, none, some, List, [],
  ◌∷◌, ltb, leb, ◌==◌, if◌then◌else◌, get_elem?, set,
}
use snapshot_public.StoreInst.Memory.{Mem, memcpy, store_le}
use snapshot_public.StoreInst.Log.{Log, Runtime, log_range}
use snapshot_public.StoreInst.Snapshot.{Machine}

-- `addr_in_range`: the end is included.
unfoldable pub addr_in_range : Runtime → ℕ → Bool
addr_in_range rt addr = leb rt.start_addr addr && leb addr rt.end_addr

-- `local_log.log_range(start, bytes)`
unfoldable pub log_by : Machine → ℕ → ℕ → ℕ → Machine
log_by m thread start bytes = elim (get_elem? m.tls_logs thread) [
  | none ↦ m
  | some l ↦
      let logged = log_range m.rt m.mem l start bytes in
      record m { rt = logged.0; tls_logs = set m.tls_logs thread logged.1 }
]

-- `checkMemory`: the end is excluded.
unfoldable pub check_memory : Machine → ℕ → ℕ → Machine
check_memory m thread ptr =
    if m.rt.start_tracking && (leb m.rt.start_addr ptr && ltb ptr m.rt.end_addr)
    then log_by m thread ptr 8
    else m

-- The libc function behind a wrapper, or the store behind `checkMemory`, changes the memory.
unfoldable pub put_mem : Machine → Mem → Machine
put_mem m mem = record m { mem = mem }

-- The test of the `memcpy` and `memmove` wrappers.
unfoldable pub is_logged_copy : Runtime → ℕ → Bool
is_logged_copy rt dst = rt.start_tracking && (not (rt.start_addr == 0) && addr_in_range rt dst)

unfoldable pub logged_memcpy : Machine → ℕ → ℕ → ℕ → ℕ → Machine
logged_memcpy m thread dst src n =
    let m' = if is_logged_copy m.rt dst then log_by m thread dst n else m in
    put_mem m' (memcpy m.mem dst m.mem src n)

unfoldable pub logged_memmove : Machine → ℕ → ℕ → ℕ → ℕ → Machine
logged_memmove m thread dst src n =
    let m' = if is_logged_copy m.rt dst then log_by m thread dst n else m in
    put_mem m' (memcpy m.mem dst m.mem src n)

-- The range is logged if its first address or the one behind its last is tracked.
unfoldable pub logged_memset : Machine → ℕ → ℕ → ℕ → ℕ → Machine
logged_memset m thread s c n =
    let m' =
      if (addr_in_range m.rt s || addr_in_range m.rt (s + n)) && m.rt.start_tracking
      then log_by m thread s n
      else m in
    put_mem m' (memcpy m.mem s (λ _. c % 256) 0 n)

-- An instrumented store of `n` bytes, at most eight.
unfoldable pub instrumented_store : Machine → ℕ → ℕ → ℕ → ℕ → Machine
instrumented_store m thread ptr n v = put_mem (check_memory m thread ptr) (store_le n m.mem ptr v)

-- What a thread may do.
pub data Store : Type 0 where
  scalar copy move fill : ℕ → ℕ → ℕ → Store

unfoldable pub exec : Machine → ℕ → Store → Machine
exec m thread (scalar ptr n v) = instrumented_store m thread ptr n v
exec m thread (copy dst src n) = logged_memcpy m thread dst src n
exec m thread (move dst src n) = logged_memmove m thread dst src n
exec m thread (fill s c n) = logged_memset m thread s c n

-- An interleaving of the threads' stores.
unfoldable pub run : Machine → List (ℕ × Store) → Machine
run m [] = m
run m ((thread, s) ∷ rest) = run (exec m thread s) rest
