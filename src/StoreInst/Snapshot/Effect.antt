-- ===== src/StoreInst/Snapshot/Effect.antt =====
-- The walk of `snapshot` over the logs of all threads.
use snapshot_public.Prelude.{
  ℕ, ◌+◌, ◌-◌, ◌≤◌, ◌<◌, ◌≡◌, refl, ◌⊎◌, inl, inr, true, false, ◌&&◌, none, some, List, [], ◌∷◌,
  ltb, leb, ◌==◌, if◌then◌else◌, Bool-cases, arith, Any, All,
}
use snapshot_public.StoreInst.Memory.{Mem, word, memcpy, add64, sub64}
use snapshot_public.StoreInst.Log.{empty, lean, Log, drain, clear, set_state}
use snapshot_public.StoreInst.Apply.Copies.{IsPlaced, mirror, kept_trans, kept_of_eq}
use snapshot_public.StoreInst.Apply.Loop.{
  IsWanted, apply_entries_counts, apply_entries_covers, apply_entries_stays,
}
use snapshot_public.StoreInst.Snapshot.{
  Sorter, Mapping, Machine, default_start, copy_mapping, Walk, begin_log, log_list, end_log,
  start_progress, first_backing, copy_log, snapshot_log, snapshot_logs,
}
use snapshot_public.StoreInst.Snapshot.Sorting.{All-log_list, Any-log_list}

-- The mapping lies behind the start of the tracked memory, and its place does not wrap.
pub record IsMappingPlaced (start_addr pm_back : ℕ) (r : Mapping) : Type 0 where
  pub behind : start_addr ≤ r.start
  pub room : r.start < word
  pub backing_room : pm_back + (r.start - start_addr) < word

-- The logs and mappings lie in the tracked memory. The first snapshot takes for granted that this
-- memory begins at its default address.
pub record IsReady (m : Machine) : Type 0 where
  pub margin : 512 ≤ m.rt.start_addr
  pub start_fits : m.rt.start_addr < word
  pub back_fits : m.backing_file_start < word
  pub logs_placed :
      All (λ l. All (IsPlaced m.rt.start_addr m.backing_file_start) l.entries) m.tls_logs
  pub start_default : (m.first_snapshot ≡ false) ⊎ (m.rt.start_addr ≡ default_start)
  pub mappings_placed : All (IsMappingPlaced m.rt.start_addr m.backing_file_start) m.mapped_addr

-- The log is dropped: inactive, and with no entries in either copy.
abbrev pub IsDropped : Log → Type 0
IsDropped l =
    (l.log_area.state ≡ empty)
    × (l.entries ≡ [])
    × (l.log_area.log_offset ≡ 0)
    × (l.log_area.tail_ptr ≡ 0)
    × (l.last_log ≡ lean 0 0)
    × (l.last_flush_offset ≡ 0)

module _ (sorter : Sorter) (m : Machine) (addr bytes : ℕ) where
  -- A thread's log and the walk after the log was processed.
  unfoldable pub after_log : Log → Walk → Log
  after_log l w =
      clear
        (set_state empty false (record (begin_log l) { entries = log_list sorter (begin_log l) }))

  unfoldable pub after_walk : Log → Walk → Walk
  after_walk l w = record {
    backing = (copy_log sorter m addr bytes l w).backing;
    ops = drain ∷ (copy_log sorter m addr bytes l w).ops;
    first_snapshot = false;
  }

  copy_log_counts :
      (l : Log) (w : Walk)
      → ((copy_log sorter m addr bytes l w).applied_cnt
          == (copy_log sorter m addr bytes l w).entry_cnt)
        ≡ true
  unfolding copy_log
  copy_log_counts l w = ground (
    arith,
    apply_entries_counts m.rt.start_addr m.backing_file_start m.mem addr bytes
        (log_list sorter (begin_log l)) none
        (start_progress (first_backing sorter m addr bytes w) w.ops) refl,
  )

  snapshot_log_eq :
      (l : Log) (w : Walk)
      → snapshot_log sorter m addr bytes l w ≡ some (after_log l w, after_walk l w)
  unfolding snapshot_log end_log after_log after_walk
  snapshot_log_eq l w = rw (copy_log_counts l w)

  unfoldable pub final_walk : List Log → Walk → Walk
  final_walk [] w = w
  final_walk (l ∷ ls) w = final_walk ls (after_walk l w)

  unfoldable pub final_logs : List Log → Walk → List Log
  final_logs [] w = []
  final_logs (l ∷ ls) w = after_log l w ∷ final_logs ls (after_walk l w)

  pub snapshot_logs_eq :
      (ls : List Log) (w : Walk)
      → snapshot_logs sorter m addr bytes ls w ≡ some (final_logs ls w, final_walk ls w)
  unfolding snapshot_logs final_walk final_logs
  snapshot_logs_eq [] w = refl
  snapshot_logs_eq (l ∷ ls) w = rw (snapshot_log_eq l w, snapshot_logs_eq ls (after_walk l w))

  pub final_logs-IsDropped : (ls : List Log) (w : Walk) → All IsDropped (final_logs ls w)
  unfolding final_logs after_log clear set_state
  final_logs-IsDropped [] w = tt
  final_logs-IsDropped (l ∷ ls) w =
      ((refl, refl, refl, refl, refl, refl), final_logs-IsDropped ls (after_walk l w))

-- One byte, followed through the walk.
module _ (sorter : Sorter) (m : Machine) (addr bytes : ℕ) (ready : IsReady m) (x : ℕ)
    (tracked : m.rt.start_addr ≤ x) where
  abbrev place : ℕ
  place = mirror m.rt.start_addr m.backing_file_start x

  abbrev IsCopied : Mem → Type 0
  IsCopied backing = backing place ≡ m.mem x

  -- The byte of the backing file is as before or that of the page cache.
  abbrev IsKept : Mem → Mem → Type 0
  IsKept before after = (after place ≡ before place) ⊎ IsCopied after

  copy_mapping_stays :
      (rs : List Mapping) (backing : Mem)
      → m.rt.start_addr ≡ default_start
      → All (IsMappingPlaced m.rt.start_addr m.backing_file_start) rs
      → IsKept backing (copy_mapping m.backing_file_start rs m.mem addr backing)
  unfolding copy_mapping
  copy_mapping_stays [] backing e a = inl refl
  copy_mapping_stays (r ∷ rs) backing e a = elim (Bool-cases (leb r.start addr && ltb addr r.end)) [
    | inl hit ↦ rw hit (memcpy_stays (if r.is_anonymous then r.end - r.start else r.file_size))
    | inr miss ↦ rw miss (copy_mapping_stays rs backing e a.1)
  ]
    where
      dst_eq :
          add64 m.backing_file_start (sub64 r.start default_start)
          ≡ m.backing_file_start + (r.start - m.rt.start_addr)
      dst_eq = unfold add64 sub64 in omega (arith, a.0.behind, a.0.room, a.0.backing_room)

      memcpy_stays :
          (n : ℕ)
          → IsKept backing (
              memcpy backing
                (add64 m.backing_file_start (sub64 r.start default_start))
                m.mem
                r.start
                n)
      memcpy_stays n = rw dst_eq (unfold memcpy in ground (arith, a.0.behind))

  first_backing_stays :
      (w : Walk)
      → (w.first_snapshot ≡ false) ⊎ (m.rt.start_addr ≡ default_start)
      → IsKept w.backing (first_backing sorter m addr bytes w)
  unfolding first_backing
  first_backing_stays w (inl e) = rw e (inl refl)
  first_backing_stays w (inr e) = elim (Bool-cases w.first_snapshot) [
    | inl f ↦ rw f (copy_mapping_stays m.mapped_addr w.backing e ready.mappings_placed)
    | inr f ↦ rw f (inl refl)
  ]

  module _ (l : Log) (w : Walk)
      (placed : All (IsPlaced m.rt.start_addr m.backing_file_start) l.entries)
      (first : (w.first_snapshot ≡ false) ⊎ (m.rt.start_addr ≡ default_start)) where
    sorted-IsPlaced :
        All (IsPlaced m.rt.start_addr m.backing_file_start) (log_list sorter (begin_log l))
    sorted-IsPlaced = All-log_list (IsPlaced m.rt.start_addr m.backing_file_start) sorter l placed

    after_walk_stays : IsKept w.backing (after_walk sorter m addr bytes l w).backing
    unfolding after_walk copy_log
    after_walk_stays = kept_trans (first_backing_stays w first) (
        apply_entries_stays m.rt.start_addr m.backing_file_start m.mem addr bytes ready.margin
          ready.start_fits ready.back_fits x tracked (log_list sorter (begin_log l)) none
          (start_progress (first_backing sorter m addr bytes w) w.ops) sorted-IsPlaced)

    after_walk_covers :
        Any (IsWanted addr bytes x) l.entries
        → IsCopied (after_walk sorter m addr bytes l w).backing
    unfolding after_walk copy_log
    after_walk_covers wanted =
        apply_entries_covers m.rt.start_addr m.backing_file_start m.mem addr bytes ready.margin
          ready.start_fits ready.back_fits x tracked (log_list sorter (begin_log l)) none
          (start_progress (first_backing sorter m addr bytes w) w.ops) sorted-IsPlaced tt
          (inr (Any-log_list (IsWanted addr bytes x) sorter l wanted))

  pub final_walk_stays :
      (ls : List Log) (w : Walk)
      → All (λ l. All (IsPlaced m.rt.start_addr m.backing_file_start) l.entries) ls
      → (w.first_snapshot ≡ false) ⊎ (m.rt.start_addr ≡ default_start)
      → IsKept w.backing (final_walk sorter m addr bytes ls w).backing
  unfolding final_walk
  final_walk_stays [] w a first = inl refl
  final_walk_stays (l ∷ ls) w a first = kept_trans (after_walk_stays l w a.0 first) (
      final_walk_stays ls (after_walk sorter m addr bytes l w) a.1
        (inl (unfold after_walk in refl)))

  pub final_walk_covers :
      (ls : List Log) (w : Walk)
      → All (λ l. All (IsPlaced m.rt.start_addr m.backing_file_start) l.entries) ls
      → (w.first_snapshot ≡ false) ⊎ (m.rt.start_addr ≡ default_start)
      → Any (λ l. Any (IsWanted addr bytes x) l.entries) ls
      → IsCopied (final_walk sorter m addr bytes ls w).backing
  unfolding final_walk
  final_walk_covers [] w a first wanted = absurd wanted
  final_walk_covers (l ∷ ls) w a first (inl wanted) =
      kept_of_eq
        (final_walk_stays ls (after_walk sorter m addr bytes l w) a.1
          (inl (unfold after_walk in refl)))
        (after_walk_covers l w a.0 first wanted)
  final_walk_covers (l ∷ ls) w a first (inr wanted) =
      final_walk_covers ls (after_walk sorter m addr bytes l w) a.1
        (inl (unfold after_walk in refl)) wanted
