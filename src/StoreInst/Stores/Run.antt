-- ===== src/StoreInst/Stores/Run.antt =====
-- Interleaved stores of several threads, and a snapshot behind them.
use snapshot_public.Prelude.{
  ℕ, ◌+◌, ◌%◌, ◌≤◌, ◌<◌, ◌≡◌, refl, ◌⊎◌, inl, inr, Bool, true, false, ◌&&◌, ◌||◌, some, List, [],
  ◌∷◌, ltb, leb, if◌then◌else◌, Any, All, arith, Any-map,
}
use snapshot_public.StoreInst.Memory.{
  Mem, word, sub64, memcpy, memcpy_outside, store_le, store_le_outside,
}
use snapshot_public.StoreInst.Log.{LeanEntry}
use snapshot_public.StoreInst.Apply.{in_range}
use snapshot_public.StoreInst.Apply.Copies.{IsPlaced, mirror, Holds, kept_of_eq}
use snapshot_public.StoreInst.Apply.Loop.{IsWanted}
use snapshot_public.StoreInst.Snapshot.{Sorter, Machine, default_start, first_returns, snapshot}
use snapshot_public.StoreInst.Snapshot.Effect.{IsMappingPlaced}
use snapshot_public.StoreInst.Snapshot.Persist.{snapshot_persists}
use snapshot_public.StoreInst.Recovery.Undo.{IsStore}
use snapshot_public.StoreInst.Stores.{
  addr_in_range, log_by, check_memory, put_mem, is_logged_copy, logged_memcpy, logged_memmove,
  logged_memset, instrumented_store, Store, scalar, copy, move, fill, exec, run,
}
use snapshot_public.StoreInst.Stores.Logged.{IsLogged, IsFitting, unlogged_step, IsLogged-step}

-- A store that the program may make: a scalar store is of eight bytes at most, and a `memset`
-- below the tracked memory ends before its first byte.
abbrev pub IsAllowed : Machine → ℕ → Store → Type 0
IsAllowed m thread (scalar ptr n v) = (n ≤ 8) × IsFitting m thread ptr 8
IsAllowed m thread (copy dst src n) = IsFitting m thread dst n
IsAllowed m thread (move dst src n) = IsFitting m thread dst n
IsAllowed m thread (fill s c n) =
    (s < m.rt.start_addr → s + n < m.rt.start_addr) × IsFitting m thread s n

memcpy-IsStore :
    (mem : Mem) (dst : ℕ) (from : Mem) (src n : ℕ) → IsStore mem (memcpy mem dst from src n) dst n
memcpy-IsStore mem dst from src n x out = memcpy_outside mem dst from src n x out

-- A store behind any test that logs it where it is tracked.
tested_step :
    (m : Machine) (thread start bytes : ℕ) (mem' : Mem) (n : ℕ) (test : Bool)
    → IsLogged m
    → IsFitting m thread start bytes
    → n ≤ bytes
    → IsStore m.mem mem' start n
    → (test ≡ true → m.rt.start_addr ≤ start)
    → (test ≡ false → (start + n ≤ m.rt.start_addr) ⊎ (m.rt.end_addr ≤ start))
    → IsLogged (put_mem (if test then log_by m thread start bytes else m) mem')
tested_step m thread start bytes mem' n true inv fits short same hit miss =
    IsLogged-step m inv thread start bytes fits mem' n short same (hit refl)
tested_step m thread start bytes mem' n false inv fits short same hit miss =
    unlogged_step m inv thread start bytes fits mem' n short same (miss refl)

-- Every allowed store keeps the tracked memory covered.
pub exec-IsLogged :
    (m : Machine) (thread : ℕ) (s : Store)
    → IsLogged m
    → IsAllowed m thread s
    → IsLogged (exec m thread s)
unfolding exec instrumented_store check_memory logged_memcpy logged_memmove logged_memset
    is_logged_copy addr_in_range
exec-IsLogged m thread (scalar ptr n v) inv a =
    tested_step m thread ptr 8 (store_le n m.mem ptr v) n
      (m.rt.start_tracking && (leb m.rt.start_addr ptr && ltb ptr m.rt.end_addr)) inv a.1 a.0
      (λ x out. store_le_outside n m.mem ptr v x out) (λ e. ground arith)
      (λ e. ground (arith, inv.tracking, (a.1).apart))
exec-IsLogged m thread (copy dst src n) inv a =
    tested_step m thread dst n (memcpy m.mem dst m.mem src n) n (is_logged_copy m.rt dst) inv a
      (omega arith) (memcpy-IsStore m.mem dst m.mem src n) (λ e. ground arith)
      (λ e. ground (arith, inv.tracking, inv.margin, a.apart))
exec-IsLogged m thread (move dst src n) inv a =
    tested_step m thread dst n (memcpy m.mem dst m.mem src n) n (is_logged_copy m.rt dst) inv a
      (omega arith) (memcpy-IsStore m.mem dst m.mem src n) (λ e. ground arith)
      (λ e. ground (arith, inv.tracking, inv.margin, a.apart))
exec-IsLogged m thread (fill s c n) inv a =
    tested_step m thread s n (memcpy m.mem s (λ _. c % 256) 0 n) n
      ((addr_in_range m.rt s || addr_in_range m.rt (s + n)) && m.rt.start_tracking) inv a.1
      (omega arith) (memcpy-IsStore m.mem s (λ _. c % 256) 0 n) (λ e. ground (arith, a.0))
      (λ e. ground (arith, inv.tracking, a.0, (a.1).apart))

-- Each store of the sequence is allowed where it is made.
abbrev pub AllAllowed : Machine → List (ℕ × Store) → Type 0
AllAllowed m [] = Unit
AllAllowed m ((thread, s) ∷ rest) = IsAllowed m thread s × AllAllowed (exec m thread s) rest

-- However the allowed stores of the threads interleave, a tracked memory that is covered at first
-- stays so: each of its bytes is in the backing file as it is in the page cache, or some thread's
-- log holds it, and the logged ranges have their place in the backing file. The log and the tracking
-- are on.
pub run-IsLogged :
    (m : Machine) (stores : List (ℕ × Store))
    → IsLogged m
    → AllAllowed m stores
    → IsLogged (run m stores)
unfolding run
run-IsLogged m [] inv a = inv
run-IsLogged m ((thread, s) ∷ rest) inv a =
    run-IsLogged (exec m thread s) rest (exec-IsLogged m thread s inv a.0) a.1

IsWanted-of_held :
    (start_addr end_addr pm_back bytes x : ℕ) (e : LeanEntry)
    → start_addr < word
    → end_addr ≤ start_addr + bytes
    → x < end_addr
    → IsPlaced start_addr pm_back e
    → Holds x e
    → IsWanted start_addr bytes x e
unfolding in_range sub64
IsWanted-of_held start_addr end_addr pm_back bytes x e a b c p h =
    (ground (arith, p.behind, p.room), h)

-- With instrumented stores, and not made a no-op, one snapshot of the whole tracked memory returns
-- and makes each tracked byte of the backing file that of the page cache, if every change was
-- logged, with the log and the tracking on, the ranges have their place in the backing file, and on
-- the first snapshot the tracked memory begins at its default address, the size of the file that is
-- mapped there is found, and the paging cache, if there is one, can be resized.
pub snapshot_syncs :
    (sorter : Sorter) (real_msync : ℕ → ℕ → Bool) (m : Machine) (bytes : ℕ)
    → m.nop_msync ≡ false
    → m.rt.store_inst_enabled ≡ true
    → IsLogged m
    → m.rt.start_addr < word
    → m.backing_file_start < word
    → (m.first_snapshot ≡ false) ⊎ (m.rt.start_addr ≡ default_start)
    → All (IsMappingPlaced m.rt.start_addr m.backing_file_start) m.mapped_addr
    → m.rt.end_addr ≤ m.rt.start_addr + bytes
    → first_returns m m.rt.start_addr ≡ true
    → (m' : Machine) × (snapshot sorter real_msync m m.rt.start_addr bytes ≡ some m')
      × ((x : ℕ)
          → m.rt.start_addr ≤ x
          → x < m.rt.end_addr
          → m'.backing (mirror m.rt.start_addr m.backing_file_start x) ≡ m'.mem x)
snapshot_syncs sorter real_msync m bytes nop enabled inv start_fits back_fits first mapped whole
      gets_past =
    let (m', returns, wanted, kept, dropped, same) =
      snapshot_persists sorter real_msync m m.rt.start_addr bytes nop enabled
        (record {
          margin = inv.margin;
          start_fits = start_fits;
          back_fits = back_fits;
          logs_placed = inv.placed;
          start_default = first;
          mappings_placed = mapped;
        })
        gets_past in
    (m', returns, λ x h k. rw same (synced x h k m' wanted kept (inv.covered x h k)))
  where
    synced :
        (x : ℕ)
        → m.rt.start_addr ≤ x
        → x < m.rt.end_addr
        → (m' : Machine)
        → ((x : ℕ)
            → m.rt.start_addr ≤ x
            → Any (λ l. Any (IsWanted m.rt.start_addr bytes x) l.entries) m.tls_logs
            → m'.backing (mirror m.rt.start_addr m.backing_file_start x) ≡ m.mem x)
        → ((x : ℕ)
            → m.rt.start_addr ≤ x
            → (m'.backing (mirror m.rt.start_addr m.backing_file_start x)
                ≡ m.backing (mirror m.rt.start_addr m.backing_file_start x))
              ⊎ (m'.backing (mirror m.rt.start_addr m.backing_file_start x) ≡ m.mem x))
        → (m.backing (mirror m.rt.start_addr m.backing_file_start x) ≡ m.mem x)
          ⊎ Any (λ l. Any (Holds x) l.entries) m.tls_logs
        → m'.backing (mirror m.rt.start_addr m.backing_file_start x) ≡ m.mem x
    synced x h k m' wanted kept (inl e) = kept_of_eq (kept x h) e
    synced x h k m' wanted kept (inr w) = wanted x h (
        Any-map (λ l. All (IsPlaced m.rt.start_addr m.backing_file_start) l.entries)
          (λ l. Any (Holds x) l.entries) (λ l. Any (IsWanted m.rt.start_addr bytes x) l.entries)
          m.tls_logs
          (λ l p v.
            Any-map (IsPlaced m.rt.start_addr m.backing_file_start) (Holds x)
              (IsWanted m.rt.start_addr bytes x) l.entries
              (λ e q y.
                IsWanted-of_held m.rt.start_addr m.rt.end_addr m.backing_file_start bytes x e
                  start_fits whole k q y)
              p v)
          inv.placed w)
