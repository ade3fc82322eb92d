-- ===== src/Witnesses/LogRuns.antt =====
-- A thread logs one eight-byte store at the start of a file of one page, and crashes.
use snapshot_public.Prelude.{
  All, ℕ, ◌==◌, ◌&&◌, if◌then◌else◌, ◌+◌, ◌≤◌, ◌<◌, ◌≡◌, ◌⊎◌, refl, inr, true, false, none, some,
  List, [], ◌∷◌, arith,
}
use snapshot_public.StoreInst.Memory.{Mem, memcpy}
use snapshot_public.StoreInst.Entry.{
  header_size, entry_disabled, entry_bytes, entry_addr, write_entry, write_entry_reads_back,
}
use snapshot_public.StoreInst.Log.{
  Layout, Log, Runtime, clear, log_range, init_thread_buf, flush_all, set_log_offset, set_tail_ptr,
  append_entry, flush_lines, remember, is_back_to_back,
}
use snapshot_public.StoreInst.Log.Durable.{
  IsFlushed, written_back, init_thread_buf-IsFlushed, log_range-IsFlushed, flush_all_writes_back,
  flush_all_skips_tail,
}
use snapshot_public.StoreInst.Recovery.{
  Dependency, LogFiles, needs_recovery, recover_log, open_file,
}
use snapshot_public.StoreInst.Recovery.Rollback.{Logging, here, next, recover_log-undoes}
use snapshot_public.StoreInst.Recovery.First.{IsIdle, IsLeading, needs_recovery_first}
use snapshot_public.StoreInst.Snapshot.{begin_log}
use snapshot_public.StoreInst.Snapshot.Crash.{open_file_begun}
use snapshot_public.StoreInst.Align.{align_to, align_dst, new_size, aligned_write_covers}

abbrev runtime : Runtime
runtime = record {
  cxl_mode_enabled = true;
  store_inst_enabled = true;
  start_tracking = true;
  start_addr = 4096;
  end_addr = 8192;
  back_to_back_dup_log = 0;
}

abbrev old_mem : Mem
old_mem x = 7

-- The store of eight bytes of 9.
abbrev new_mem : Mem
new_mem = memcpy old_mem 4096 (λ _. 9) 0 8

new_mem-outside : (x : ℕ) → (x < 4096) ⊎ (4104 ≤ x) → new_mem x ≡ 7
unfolding memcpy
new_mem-outside x h = ground arith

abbrev one_store :
    Logging runtime 4096 4096 old_mem
      (clear init_thread_buf)
      new_mem
      (log_range runtime old_mem (clear init_thread_buf) 4096 8).1
one_store =
    next new_mem 4096 8 here (omega arith) (omega arith) (λ h. absurd (omega arith)) new_mem-outside

recover_log-undoes_example :
    recover_log
      (log_range runtime old_mem (clear init_thread_buf) 4096 8).1.log_area
      4096
      4096
      (λ i. new_mem (4096 + i))
      3
    ≡ 7
recover_log-undoes_example =
    recover_log-undoes runtime 4096 4096 old_mem init_thread_buf refl one_store
      (λ i. new_mem (4096 + i)) (λ i h. inr refl) 3 (omega arith)

-- The log of that store has 18 bytes.
abbrev short_log : Log
short_log = (log_range runtime old_mem init_thread_buf 4096 8).1

log_range-IsFlushed_example : IsFlushed short_log
log_range-IsFlushed_example =
    log_range-IsFlushed runtime old_mem init_thread_buf 4096 8 init_thread_buf-IsFlushed

flush_all_writes_back_example : written_back (flush_all short_log).ops 41 ≡ true
unfolding log_range append_entry flush_lines set_log_offset set_tail_ptr is_back_to_back remember
flush_all_writes_back_example =
    flush_all_writes_back short_log 41
      (log_range-IsFlushed runtime old_mem init_thread_buf 4096 8 init_thread_buf-IsFlushed)
      (omega arith) (omega arith) (omega arith)

-- The log of a store of 54 bytes has 64.
abbrev even_log : Log
even_log = (log_range runtime old_mem init_thread_buf 4096 54).1

flush_all_skips_tail_example : written_back (flush_all even_log).ops 87 ≡ false
unfolding log_range append_entry flush_lines set_log_offset set_tail_ptr is_back_to_back remember
flush_all_skips_tail_example =
    flush_all_skips_tail even_log 87
      (log_range-IsFlushed runtime old_mem init_thread_buf 4096 54 init_thread_buf-IsFlushed) refl
      (omega arith) (omega arith) (omega arith)

-- Process 1 has an active log for thread 2 that `snapshot` had begun to copy; no other log exists.
abbrev crashed_logs : LogFiles
crashed_logs pid tid =
    if (pid == 1) && (tid == 2) then some (begin_log short_log).log_area else none

crashed_logs_lem :
    (pid tid : ℕ) (log : Layout)
    → crashed_logs pid tid ≡ some log
    → log ≡ (begin_log short_log).log_area
crashed_logs_lem pid tid log h = ground arith

abbrev dependencies : List Dependency
dependencies = record { pid = 5; tid = 5; addr = 0 } ∷ record { pid = 1; tid = 2; addr = 4096 } ∷ []

open_file_begun_example : open_file crashed_logs 4096 dependencies new_mem ≡ some new_mem
open_file_begun_example =
    open_file_begun crashed_logs 4096 dependencies new_mem
      λ pid tid log h. inr (short_log, crashed_logs_lem pid tid log h)

needs_recovery_first_example :
    (All (IsIdle crashed_logs) dependencies × (needs_recovery crashed_logs dependencies ≡ []))
    ⊎ ((d : Dependency) × IsLeading crashed_logs dependencies d
        × (needs_recovery crashed_logs dependencies ≡ d ∷ []))
needs_recovery_first_example = needs_recovery_first crashed_logs dependencies

write_entry_reads_back_example :
    (entry_addr (write_entry (λ _. 1) 20 old_mem 4096 8) 20 ≡ 4096)
    × (entry_bytes (write_entry (λ _. 1) 20 old_mem 4096 8) 20 ≡ 8)
    × (entry_disabled (write_entry (λ _. 1) 20 old_mem 4096 8) 20 ≡ entry_disabled (λ _. 1) 20)
    × ((i : ℕ) → i < 8 → write_entry (λ _. 1) 20 old_mem 4096 8 (20 + header_size + i) ≡ 7)
    × ((x : ℕ)
        → (x < 20) ⊎ (20 + header_size + 8 ≤ x)
        → write_entry (λ _. 1) 20 old_mem 4096 8 x ≡ 1)
write_entry_reads_back_example =
    write_entry_reads_back (λ _. 1) 20 old_mem 4096 8 (omega arith) (omega arith)

aligned_write_covers_example :
    let to = align_to 20 in
    let from = align_dst 4100 to in
    let end = from + new_size 4100 20 to in
    (from ≤ 4100) × (4100 < from + 512) × (4120 ≤ end) × (end ≤ 4100 + 20 + 512)
aligned_write_covers_example = aligned_write_covers 4100 20
