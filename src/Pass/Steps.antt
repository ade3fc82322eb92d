-- ===== src/Pass/Steps.antt =====
-- What calls of `checkMemory` keep of the machine, and runs of blocks in steps.
use snapshot_public.Prelude.{
  ℕ, ◌≡◌, refl, ◌∙◌, inl, inr, ◌&&◌, none, some, List, [], ◌∷◌, ◌++◌, ltb, leb, get_elem?, length,
  arith, Bool-cases, Option-cases, length-set,
}
use snapshot_public.StoreInst.Log.{log_range}
use snapshot_public.StoreInst.Snapshot.{Machine}
use snapshot_public.StoreInst.Stores.{log_by, check_memory}
use snapshot_public.StoreInst.Stores.Logged.{IsFitting, rt-log_range}
use snapshot_public.Pass.Instrument.{Inst}
use snapshot_public.Pass.Exec.{Values, Visit, exec_inst, exec_block, exec_visit}

-- The tracked range, its backing file and the threads are the same.
pub record Same (m m' : Machine) : Type 0 where
  pub start : m'.rt.start_addr ≡ m.rt.start_addr
  pub end : m'.rt.end_addr ≡ m.rt.end_addr
  pub back : m'.backing_file_start ≡ m.backing_file_start
  pub threads : length m'.tls_logs ≡ length m.tls_logs

pub Same-fits :
    (m m' : Machine) (thread start bytes : ℕ)
    → Same m m'
    → IsFitting m thread start bytes
    → IsFitting m' thread start bytes
Same-fits m m' thread start bytes s f = record {
  exists = omega (arith, f.exists, s.threads);
  apart = omega (arith, f.apart, s.start);
  room = f.room;
  backing_room = omega (arith, f.backing_room, s.start, s.back);
}

pub check_memory-mem : (m : Machine) (thread ptr : ℕ) → (check_memory m thread ptr).mem ≡ m.mem
unfolding check_memory log_by
check_memory-mem m thread ptr = ground arith

log_by-Same : (m0 m : Machine) (thread ptr n : ℕ) → Same m0 m → Same m0 (log_by m thread ptr n)
unfolding log_by
log_by-Same m0 m thread ptr n s = elim (Option-cases (get_elem? m.tls_logs thread)) [
  | inl e ↦ rw (log_by, e) s
  | inr l ↦
      let kept = rt-log_range m.rt m.mem l.0 ptr n in
      rw (log_by, l.1)
        (record {
          start = kept.0 ∙ s.start;
          end = kept.1 ∙ s.end;
          back = s.back;
          threads = length-set m.tls_logs thread (log_range m.rt m.mem l.0 ptr n).1 ∙ s.threads;
        })
]

pub check_memory-Same :
    (m0 m : Machine) (thread ptr : ℕ) → Same m0 m → Same m0 (check_memory m thread ptr)
unfolding check_memory
check_memory-Same m0 m thread ptr s =
    elim (Bool-cases (m.rt.start_tracking && (leb m.rt.start_addr ptr && ltb ptr m.rt.end_addr))) [
      | inl e ↦ rw (check_memory, e) (log_by-Same m0 m thread ptr 8 s)
      | inr e ↦ rw (check_memory, e) s
    ]

pub exec_block-append :
    (m : Machine) (thread : ℕ) (vals : Values) (xs ys : List Inst)
    → exec_block m thread vals (xs ++ ys) ≡ exec_block (exec_block m thread vals xs) thread vals ys
unfolding exec_block
exec_block-append m thread vals [] ys = refl
exec_block-append m thread vals (x ∷ xs) ys =
    exec_block-append (exec_inst m thread vals x) thread vals xs ys

pub exec_visit-none :
    (bs : List (List Inst)) (v : Visit) (m : Machine)
    → get_elem? bs v.1 ≡ none
    → exec_visit bs v m ≡ m
unfolding exec_visit
exec_visit-none bs v m e = rw (exec_visit, e) refl

pub exec_visit-some :
    (bs : List (List Inst)) (v : Visit) (m : Machine) (b : List Inst)
    → get_elem? bs v.1 ≡ some b
    → exec_visit bs v m ≡ exec_block m v.0 v.2 b
unfolding exec_visit
exec_visit-some bs v m b e = rw (exec_visit, e) refl
