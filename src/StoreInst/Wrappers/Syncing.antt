-- ===== src/StoreInst/Wrappers/Syncing.antt =====
-- `fsync`, `fdatasync` and `munmap` on a mapped file.
use snapshot_public.Prelude.{
  ℕ, ◌+◌, ◌-◌, ◌≤◌, ◌<◌, ◌≡◌, ◌⊎◌, Bool, true, false, none, some, List, [], ◌∷◌, ◌++◌, ◌==◌,
  if◌then◌else◌, arith, Any, All,
}
use snapshot_public.StoreInst.Apply.Copies.{mirror}
use snapshot_public.StoreInst.Apply.Loop.{IsWanted}
use snapshot_public.StoreInst.Snapshot.{Mapping, Sorter, Machine, first_returns}
use snapshot_public.StoreInst.Snapshot.Effect.{IsReady, IsDropped}
use snapshot_public.StoreInst.Snapshot.Persist.{snapshot_persists}
use snapshot_public.StoreInst.Stores.{addr_in_range}
use snapshot_public.StoreInst.Wrappers.{
  find_mapping, with_mappings, intercepted_fsync, intercepted_fdatasync, intercepted_munmap,
}

-- With instrumented stores, and `snapshot` not made a no-op, both `fsync` and `fdatasync` of a
-- mapped file in the tracked memory return 0, whatever the real functions would do, and leave the
-- same machine, in which each tracked byte that a thread has logged in an entry whose address is in
-- the range of the file has its page-cache content in the backing file, and the logs are dropped;
-- this is where the tracked memory begins at the address 512 or later, the logged entries and the
-- mapped ranges lie behind its start and have their place in the backing file, none of them so near
-- the end of the addresses that their sums wrap, and on the first snapshot the tracked memory
-- begins at its default address 0x10000000000, the size of the file that is mapped at the address
-- is found, and the paging cache, if there is one, can be resized.
pub fsync_persists :
    (sorter : Sorter) (real_msync : ℕ → ℕ → Bool) (real_fsync real_fdatasync : Bool)
    (rs : List (ℕ × Mapping)) (m : Machine) (fd : ℕ) (r : Mapping)
    → find_mapping rs fd ≡ some r
    → addr_in_range m.rt (r.start + 1) ≡ true
    → m.nop_msync ≡ false
    → m.rt.store_inst_enabled ≡ true
    → IsReady (with_mappings m rs)
    → first_returns (with_mappings m rs) r.start ≡ true
    → (m' : Machine) × (intercepted_fsync sorter real_msync real_fsync rs m fd ≡ some (m', true))
      × (intercepted_fdatasync sorter real_msync real_fdatasync rs m fd ≡ some (m', true))
      × ((x : ℕ)
          → m.rt.start_addr ≤ x
          → Any (λ l. Any (IsWanted r.start (r.end - r.start) x) l.entries) m.tls_logs
          → m'.backing (mirror m.rt.start_addr m.backing_file_start x) ≡ m.mem x)
      × All IsDropped m'.tls_logs
unfolding intercepted_fsync intercepted_fdatasync
fsync_persists sorter real_msync real_fsync real_fdatasync rs m fd r found tracked nop on ready
      first =
    let (m', returns, wanted, kept, dropped, same) =
      snapshot_persists sorter real_msync (with_mappings m rs) r.start (r.end - r.start) nop on
        ready first in
    (
      m',
      rw (intercepted_fsync, found) (simp (on, returns)),
      rw (intercepted_fdatasync, found) (simp (tracked, returns)),
      wanted,
      dropped,
    )

-- Two ranges share no address.
abbrev pub IsDisjoint : Mapping → Mapping → Type 0
IsDisjoint r r' = (r.end ≤ r'.start) ⊎ (r'.end ≤ r.start)

-- `munmap` at the start of a recorded range drops that range and no other, and at an address inside
-- one that is not its start it ends the program; the range shares no address with those before it in
-- the table.
pub intercepted_munmap_drops :
    (before after : List (ℕ × Mapping)) (fd addr : ℕ) (r : Mapping)
    → All (λ e. IsDisjoint e.1 r) before
    → r.start ≤ addr
    → addr < r.end
    → intercepted_munmap (before ++ (fd, r) ∷ after) addr
      ≡ (if addr == r.start then some (before ++ after) else none)
unfolding intercepted_munmap
intercepted_munmap_drops [] after fd addr r a lo hi = ground arith
intercepted_munmap_drops ((key, q) ∷ before) after fd addr r a lo hi =
    ground (arith, a.0, intercepted_munmap_drops before after fd addr r a.1 lo hi)
