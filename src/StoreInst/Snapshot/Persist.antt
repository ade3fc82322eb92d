-- ===== src/StoreInst/Snapshot/Persist.antt =====
-- `snapshot` as a whole: its exits, the backing file, and the logs behind it.
use snapshot_public.Prelude.{
  ℕ, ◌+◌, ◌*◌, ◌/◌, ◌≤◌, ◌<◌, length, ◌≡◌, refl, ◌∙◌, ◌⊎◌, inl, inr, ◌↔◌, Bool, true, false, Option,
  none, some, List, [], ◌∷◌, Bool-cases, arith, Any, All,
}
use snapshot_public.StoreInst.Memory.{Mem}
use snapshot_public.StoreInst.Log.{LeanEntry, Log}
use snapshot_public.StoreInst.Apply.{Progress, in_range, apply_one, apply_entries, is_break}
use snapshot_public.StoreInst.Apply.Copies.{mirror}
use snapshot_public.StoreInst.Apply.Loop.{IsWanted}
use snapshot_public.StoreInst.Snapshot.{
  Sorter, Machine, Walk, begin_log, log_list, start_progress, first_backing, copy_log, snapshot,
  size_found, first_returns,
}
use snapshot_public.StoreInst.Snapshot.Sorting.{All-log_list}
use snapshot_public.StoreInst.Snapshot.Effect.{
  IsReady, IsDropped, after_walk, final_walk, final_logs, snapshot_logs_eq, final_logs-IsDropped,
  final_walk_stays, final_walk_covers,
}

abbrev start_walk : Machine → Walk
start_walk m = record {
  backing = m.backing;
  ops = m.backing_ops;
  first_snapshot = m.first_snapshot;
}

module _ (sorter : Sorter) (real_msync : ℕ → ℕ → Bool) (m : Machine) (addr bytes : ℕ) where
  finished : Machine
  finished = record m {
    snapshots = m.snapshots + 1;
    backing = (final_walk sorter m addr bytes m.tls_logs (start_walk m)).backing;
    backing_ops = (final_walk sorter m addr bytes m.tls_logs (start_walk m)).ops;
    tls_logs = final_logs sorter m addr bytes m.tls_logs (start_walk m);
    first_snapshot = (final_walk sorter m addr bytes m.tls_logs (start_walk m)).first_snapshot;
  }

  snapshot_eq :
      m.nop_msync ≡ false
      → m.rt.store_inst_enabled ≡ true
      → first_returns m addr ≡ true
      → snapshot sorter real_msync m addr bytes ≡ some finished
  unfolding snapshot finished
  snapshot_eq nop on first =
      rw (snapshot_logs_eq sorter m addr bytes m.tls_logs (start_walk m)) (simp (nop, on, first))

  -- `snapshot`, where it is not made a no-op, ends the program in these cases alone: without
  -- instrumented stores, when the msync of libc fails at the page-aligned address, and with them,
  -- on the first snapshot with a log, when the size of the file that is mapped at the address is
  -- not found, or the paging cache cannot be resized.
  pub snapshot_exits_iff :
      (snapshot sorter real_msync m addr bytes ≡ none)
      ↔ (m.nop_msync ≡ false)
        × (((m.rt.store_inst_enabled ≡ false) × (real_msync (addr / 4096 * 4096) bytes ≡ false))
            ⊎ ((m.rt.store_inst_enabled ≡ true)
                × (m.first_snapshot ≡ true)
                × (0 < length m.tls_logs)
                × ((size_found addr m.mapped_addr ≡ false) ⊎ (m.cache_resizes ≡ false))))
  unfolding snapshot first_returns
  snapshot_exits_iff =
      rw (snapshot_logs_eq sorter m addr bytes m.tls_logs (start_walk m)) (ground arith)

  -- With instrumented stores, and not made a no-op, `snapshot` returns; each tracked byte that a
  -- thread has logged in an entry whose address is in the range then has its page-cache content in
  -- the backing file, any other byte has that or its former content, the page cache is unchanged,
  -- and every log is inactive and empty; this is where the tracked memory begins at the address 512
  -- or later, the logged entries and the mapped ranges lie behind its start and have their place in
  -- the backing file, none of them so near the end of the addresses that their sums wrap, and on
  -- the first snapshot the tracked memory begins at its default address 0x10000000000, the size of
  -- the file that is mapped at the address is found, and the paging cache, if there is one, can be
  -- resized.
  pub snapshot_persists :
      m.nop_msync ≡ false
      → m.rt.store_inst_enabled ≡ true
      → IsReady m
      → first_returns m addr ≡ true
      → (m' : Machine) × (snapshot sorter real_msync m addr bytes ≡ some m')
        × ((x : ℕ)
            → m.rt.start_addr ≤ x
            → Any (λ l. Any (IsWanted addr bytes x) l.entries) m.tls_logs
            → m'.backing (mirror m.rt.start_addr m.backing_file_start x) ≡ m.mem x)
        × ((x : ℕ)
            → m.rt.start_addr ≤ x
            → (m'.backing (mirror m.rt.start_addr m.backing_file_start x)
                ≡ m.backing (mirror m.rt.start_addr m.backing_file_start x))
              ⊎ (m'.backing (mirror m.rt.start_addr m.backing_file_start x) ≡ m.mem x))
        × All IsDropped m'.tls_logs
        × (m'.mem ≡ m.mem)
  unfolding finished
  snapshot_persists nop on ready first = (
    finished,
    snapshot_eq nop on first,
    (λ x tracked wanted.
        final_walk_covers sorter m addr bytes ready x tracked m.tls_logs (start_walk m)
          ready.logs_placed ready.start_default wanted),
    (λ x tracked.
        final_walk_stays sorter m addr bytes ready x tracked m.tls_logs (start_walk m)
          ready.logs_placed ready.start_default),
    final_logs-IsDropped sorter m addr bytes m.tls_logs (start_walk m),
    refl,
  )

-- Entries outside the range of a snapshot.
abbrev pub IsOutside : ℕ → ℕ → Log → Type 0
IsOutside addr bytes l = All (λ e. in_range addr bytes e ≡ false) l.entries

apply_entries_outside :
    (start_addr pm_back : ℕ) (mem : Mem) (addr bytes : ℕ) (es : List LeanEntry)
    (prev : Option LeanEntry) (p : Progress)
    → All (λ e. in_range addr bytes e ≡ false) es
    → (apply_entries start_addr pm_back mem addr bytes prev es p).backing ≡ p.backing
unfolding apply_entries apply_one
apply_entries_outside start_addr pm_back mem addr bytes [] prev p a = refl
apply_entries_outside start_addr pm_back mem addr bytes (e ∷ es) prev p a =
    let q = record p { bytes_flushed = p.bytes_flushed + e.bytes; total_proc = p.total_proc + 1 } in
    rw a.0 (elim (Bool-cases (is_break addr bytes prev e)) [
      | inl stop ↦ rw stop
      | inr on ↦ rw on (apply_entries_outside start_addr pm_back mem addr bytes es (some e) q a.1)
    ])

final_walk_outside :
    (sorter : Sorter) (m : Machine) (addr bytes : ℕ) (ls : List Log) (w : Walk)
    → w.first_snapshot ≡ false
    → All (IsOutside addr bytes) ls
    → (final_walk sorter m addr bytes ls w).backing ≡ w.backing
unfolding final_walk after_walk copy_log first_backing
final_walk_outside sorter m addr bytes [] w first a = refl
final_walk_outside sorter m addr bytes (l ∷ ls) w first a =
    final_walk_outside sorter m addr bytes ls (after_walk sorter m addr bytes l w) refl a.1
    ∙ apply_entries_outside m.rt.start_addr m.backing_file_start m.mem addr bytes
        (log_list sorter (begin_log l)) none
        (start_progress (first_backing sorter m addr bytes w) w.ops)
        (All-log_list (λ e. in_range addr bytes e ≡ false) sorter l a.0)
    ∙ rw first refl

first_snapshot-final_walk :
    (sorter : Sorter) (m : Machine) (addr bytes : ℕ) (ls : List Log) (w : Walk)
    → w.first_snapshot ≡ false
    → (final_walk sorter m addr bytes ls w).first_snapshot ≡ false
unfolding final_walk after_walk
first_snapshot-final_walk sorter m addr bytes [] w e = e
first_snapshot-final_walk sorter m addr bytes (l ∷ ls) w e =
    first_snapshot-final_walk sorter m addr bytes ls (after_walk sorter m addr bytes l w) refl

IsOutside-of_dropped :
    (addr bytes : ℕ) (ls : List Log) → All IsDropped ls → All (IsOutside addr bytes) ls
IsOutside-of_dropped addr bytes [] a = tt
IsOutside-of_dropped addr bytes (l ∷ ls) a = (rw (a.0.1) tt, IsOutside-of_dropped addr bytes ls a.1)

later_returns : (m : Machine) (addr : ℕ) → m.first_snapshot ≡ false → first_returns m addr ≡ true
unfolding first_returns
later_returns m addr first = ground (arith, first)

-- A snapshot of one range forgets the stores to every other: with instrumented stores, and not made
-- a no-op, if it is not the first and no logged entry has its address in the range, it leaves the
-- backing file as it was and drops the logs, and a later snapshot of any range leaves the backing
-- file and the page cache as they were, too.
pub snapshot_forgets :
    (sorter : Sorter) (real_msync : ℕ → ℕ → Bool) (m : Machine) (addr bytes addr' bytes' : ℕ)
    → m.nop_msync ≡ false
    → m.rt.store_inst_enabled ≡ true
    → m.first_snapshot ≡ false
    → All (IsOutside addr bytes) m.tls_logs
    → (m' m'' : Machine) × (snapshot sorter real_msync m addr bytes ≡ some m')
      × (snapshot sorter real_msync m' addr' bytes' ≡ some m'')
      × (m'.backing ≡ m.backing)
      × All IsDropped m'.tls_logs
      × (m''.backing ≡ m.backing)
      × (m''.mem ≡ m.mem)
unfolding finished
snapshot_forgets sorter real_msync m addr bytes addr' bytes' nop on first out =
    let m' = finished sorter real_msync m addr bytes in
    (
      m',
      finished sorter real_msync m' addr' bytes',
      snapshot_eq sorter real_msync m addr bytes nop on (later_returns m addr first),
      snapshot_eq sorter real_msync m' addr' bytes' nop on (
          later_returns m' addr'
            (first_snapshot-final_walk sorter m addr bytes m.tls_logs (start_walk m) first)),
      final_walk_outside sorter m addr bytes m.tls_logs (start_walk m) first out,
      final_logs-IsDropped sorter m addr bytes m.tls_logs (start_walk m),
      final_walk_outside sorter m' addr' bytes' m'.tls_logs (start_walk m')
            (first_snapshot-final_walk sorter m addr bytes m.tls_logs (start_walk m) first)
            (IsOutside-of_dropped addr' bytes' m'.tls_logs
              (final_logs-IsDropped sorter m addr bytes m.tls_logs (start_walk m)))
          ∙ final_walk_outside sorter m addr bytes m.tls_logs (start_walk m) first out,
      refl,
    )
