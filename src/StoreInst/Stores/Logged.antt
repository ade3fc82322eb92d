-- ===== src/StoreInst/Stores/Logged.antt =====
-- One store to the memory and the log entry that goes before it.
use snapshot_public.Prelude.{
  ℕ, ◌+◌, ◌-◌, ◌≤◌, ◌<◌, ◌≡◌, refl, sym, ◌∙◌, ◌⊎◌, inl, inr, true, ◌&&◌, some, [], ◌∷◌, ◌++◌, ltb,
  leb, get_elem?, set, length, Any, All, arith, Bool-cases, Any-set_self, Any-set_keeps, All-set,
  Any-append_left, Any-append_last, All-append_last, get_elem?-some,
}
use snapshot_public.StoreInst.Memory.{Mem, word}
use snapshot_public.StoreInst.Log.{
  Log, Runtime, lean, log_range, log_range_cases, remember, append_entry, flush_lines,
}
use snapshot_public.StoreInst.Apply.Copies.{IsPlaced, mirror, Holds}
use snapshot_public.StoreInst.Snapshot.{Machine}
use snapshot_public.StoreInst.Recovery.Undo.{IsStore}
use snapshot_public.StoreInst.Stores.{log_by, put_mem}

-- `log_range` remembers the range, whatever it writes to the log area.
entries-log_range :
    (rt : Runtime) (mem : Mem) (l : Log) (start bytes : ℕ)
    → rt.cxl_mode_enabled ≡ true
    → (log_range rt mem l start bytes).1.entries ≡ l.entries ++ lean start bytes ∷ []
unfolding remember append_entry flush_lines
entries-log_range rt mem l start bytes on =
    log_range_cases (λ l'. l'.entries ≡ l.entries ++ lean start bytes ∷ []) rt mem l start bytes
      (λ e. cc) (λ e. refl) (λ e. ground arith)

pub rt-log_range :
    (rt : Runtime) (mem : Mem) (l : Log) (start bytes : ℕ)
    → let rt' = (log_range rt mem l start bytes).0 in
      (rt'.start_addr ≡ rt.start_addr)
      × (rt'.end_addr ≡ rt.end_addr)
      × (rt'.start_tracking ≡ rt.start_tracking)
      × (rt'.cxl_mode_enabled ≡ rt.cxl_mode_enabled)
unfolding log_range
rt-log_range rt mem l start bytes = ground arith

-- Each tracked byte is in the backing file as it is in the page cache, or some thread has logged
-- it.
abbrev pub IsCovered : Machine → Type 0
IsCovered m =
    (x : ℕ)
    → m.rt.start_addr ≤ x
    → x < m.rt.end_addr
    → (m.backing (mirror m.rt.start_addr m.backing_file_start x) ≡ m.mem x)
      ⊎ Any (λ l. Any (Holds x) l.entries) m.tls_logs

abbrev pub AllPlaced : Machine → Type 0
AllPlaced m = All (λ l. All (IsPlaced m.rt.start_addr m.backing_file_start) l.entries) m.tls_logs

-- Tracking is on, every change of the tracked memory is logged, and the logged ranges have their
-- place in the backing file.
pub record IsLogged (m : Machine) : Type 0 where
  pub on : m.rt.cxl_mode_enabled ≡ true
  pub tracking : m.rt.start_tracking ≡ true
  pub margin : 512 ≤ m.rt.start_addr
  pub covered : IsCovered m
  pub placed : AllPlaced m

-- The store to the range `[start, start + bytes)` by the thread does not begin before the tracked
-- memory and reach into it, and its place in the backing file does not wrap.
pub record IsFitting (m : Machine) (thread start bytes : ℕ) : Type 0 where
  pub exists : thread < length m.tls_logs
  pub apart : start < m.rt.start_addr → start + bytes ≤ m.rt.start_addr
  pub room : start + bytes + 512 < word
  pub backing_room : m.backing_file_start + (start - m.rt.start_addr) + bytes + 512 < word

module _ (m : Machine) (inv : IsLogged m) (thread start bytes : ℕ)
    (fits : IsFitting m thread start bytes) (mem' : Mem) (n : ℕ) (short : n ≤ bytes)
    (same : IsStore m.mem mem' start n) where
  -- A store outside the tracked memory needs no log.
  pub unlogged_step :
      (start + n ≤ m.rt.start_addr) ⊎ (m.rt.end_addr ≤ start) → IsLogged (put_mem m mem')
  unfolding put_mem
  unlogged_step out = record {
    on = inv.on;
    tracking = inv.tracking;
    margin = inv.margin;
    covered = λ x h k. rw (same x (omega arith)) (inv.covered x h k);
    placed = inv.placed;
  }

  -- The machine after the store, `l` being the thread's log.
  abbrev stored : Log → Machine
  stored l = record m {
    rt = (log_range m.rt m.mem l start bytes).0;
    tls_logs = set m.tls_logs thread (log_range m.rt m.mem l start bytes).1;
    mem = mem';
  }

  module _ (l : Log) (found : get_elem? m.tls_logs thread ≡ some l)
      (from : m.rt.start_addr ≤ start) where
    entries_eq : (log_range m.rt m.mem l start bytes).1.entries ≡ l.entries ++ lean start bytes ∷ []
    entries_eq = entries-log_range m.rt m.mem l start bytes inv.on

    -- The byte is in the new entry.
    covered_inside :
        (x : ℕ)
        → start ≤ x
        → x < start + n
        → Any
            (λ l. Any (Holds x) l.entries)
            (set m.tls_logs thread (log_range m.rt m.mem l start bytes).1)
    covered_inside x h k =
        Any-set_self (λ l. Any (Holds x) l.entries) m.tls_logs thread l
          (log_range m.rt m.mem l start bytes).1 found
          (rw entries_eq (Any-append_last (Holds x) l.entries (lean start bytes) (omega arith)))

    -- What was covered stays covered.
    covered_outside :
        (x : ℕ)
        → (x < start) ⊎ (start + n ≤ x)
        → (m.backing (mirror m.rt.start_addr m.backing_file_start x) ≡ m.mem x)
          ⊎ Any (λ l. Any (Holds x) l.entries) m.tls_logs
        → (m.backing (mirror m.rt.start_addr m.backing_file_start x) ≡ mem' x)
          ⊎ Any
              (λ l. Any (Holds x) l.entries)
              (set m.tls_logs thread (log_range m.rt m.mem l start bytes).1)
    covered_outside x out (inl e) = inl (e ∙ sym (same x out))
    covered_outside x out (inr w) = inr (
        Any-set_keeps (λ l. Any (Holds x) l.entries) m.tls_logs thread l
          (log_range m.rt m.mem l start bytes).1 found
          (λ v. rw entries_eq (Any-append_left (Holds x) l.entries (lean start bytes ∷ []) v)) w)

    stored-IsCovered : IsCovered (stored l)
    stored-IsCovered x h k =
        let kept = rt-log_range m.rt m.mem l start bytes in
        rw kept.0 (elim (Bool-cases (leb start x && ltb x (start + n))) [
          | inl hit ↦ inr (covered_inside x (ground arith) (ground arith))
          | inr miss ↦ covered_outside x (ground arith) (inv.covered x (omega arith) (omega arith))
        ])

    stored-AllPlaced : AllPlaced (stored l)
    stored-AllPlaced =
        let kept = rt-log_range m.rt m.mem l start bytes in
        let placed = IsPlaced m.rt.start_addr m.backing_file_start in
        rw kept.0 (
          All-set (λ l. All placed l.entries) m.tls_logs thread l
            (log_range m.rt m.mem l start bytes).1 found
            (λ a. rw entries_eq (
              All-append_last placed l.entries (lean start bytes) a
                (record { behind = from; room = fits.room; backing_room = fits.backing_room })))
            inv.placed)

    stored-IsLogged : IsLogged (stored l)
    stored-IsLogged =
        let kept = rt-log_range m.rt m.mem l start bytes in
        record {
          on = kept.3 ∙ inv.on;
          tracking = kept.2 ∙ inv.tracking;
          margin = rw kept.0 inv.margin;
          covered = stored-IsCovered;
          placed = stored-AllPlaced;
        }

  log_by_eq :
      (l : Log)
      → get_elem? m.tls_logs thread ≡ some l
      → put_mem (log_by m thread start bytes) mem' ≡ stored l
  unfolding put_mem log_by
  log_by_eq l found = ground arith

  pub IsLogged-step :
      m.rt.start_addr ≤ start → IsLogged (put_mem (log_by m thread start bytes) mem')
  IsLogged-step from =
      let (l, found) = get_elem?-some m.tls_logs thread fits.exists in
      rw (log_by_eq l found) (stored-IsLogged l found from)
