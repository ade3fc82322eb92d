-- ===== src/CxlFs/Controller/Refines.antt =====
-- A program that loads and stores bytes of the range, faulting where a page is not in memory, and
-- the flat memory that it means to use.
use snapshot_public.Prelude.{
  ℕ, ◌+◌, ◌-◌, ◌*◌, ◌/◌, ◌%◌, ◌≤◌, ◌<◌, ◌≡◌, refl, ap, ◌∙◌, fun_ext, inl, inr, Bool, true, Option,
  some, List, [], ◌∷◌, if◌then◌else◌, Bool-cases, ◌>>=◌, arith, All,
}
use snapshot_public.CxlFs.Controller.{
  Page, page_size, Controller, EvictEnv, update, page_index, handler,
}
use snapshot_public.CxlFs.Controller.Paging.{view, IsPaged, IsKept, IsServed}
use snapshot_public.CxlFs.Controller.Faults.{handler_serves, IsFault}

-- An instruction that reads or writes the byte at an address.
pub data Access : Type 0 where
  load : ℕ → Access
  store : ℕ → ℕ → Access

abbrev pub place_of : Access → ℕ
place_of (load place) = place
place_of (store place v) = place

-- An inaccessible page faults, and the instruction is tried again after the handler.
unfoldable pub touch : EvictEnv → ℕ → Controller → Option Controller
touch env place c = if c.access (page_index c place) then some c else handler env place c

abbrev offset : Controller → ℕ → ℕ
offset c place = (place - c.shm_start) % page_size

abbrev poke_page : Controller → ℕ → ℕ → Controller
poke_page c place v =
    let idx = page_index c place in
    record c { shm = update c.shm idx (update (c.shm idx) (offset c place) v) }

-- The bytes that the accesses load, in order, and the controller behind them.
unfoldable pub run_paged : List (EvictEnv × Access) → Controller → Option (List ℕ × Controller)
run_paged [] c = some ([], c)
run_paged ((env, load place) ∷ rest) c = do
  c' ← touch env place c
  (bytes, c'') ← run_paged rest c'
  some (c'.shm (page_index c' place) (offset c' place) ∷ bytes, c'')
run_paged ((env, store place v) ∷ rest) c = do
  c' ← touch env place c
  run_paged rest (poke_page c' place v)

-- The same on one array of bytes that starts at `start`.
unfoldable pub run_flat : ℕ → List (EvictEnv × Access) → (ℕ → ℕ) → List ℕ × (ℕ → ℕ)
run_flat start [] mem = ([], mem)
run_flat start ((env, load place) ∷ rest) mem =
    let r = run_flat start rest mem in (mem (place - start) ∷ r.0, r.1)
run_flat start ((env, store place v) ∷ rest) mem =
    run_flat start rest (update mem (place - start) v)

-- The flat memory that a controller stands for.
abbrev pub flat : Controller → ℕ → ℕ
flat c off = view c (off / page_size) (off % page_size)

-- A controller with right bookkeeping and room for a page.
pub record IsRunning (c : Controller) : Type 0 where
  pub paged : IsPaged c
  pub fits : c.used_pages ≤ c.max_active_pg_cnt
  pub room : 0 < c.max_active_pg_cnt

-- An access in the range at a time when evictions work.
abbrev pub IsValid : ℕ → ℕ → EvictEnv × Access → Type 0
IsValid start size a = IsServed a.0 × (start ≤ place_of a.1) × (place_of a.1 < start + size)

record Touched (env : EvictEnv) (place : ℕ) (c : Controller) : Type 0 where
  after : Controller
  returns : touch env place c ≡ some after
  present : after.access (page_index after place) ≡ true
  running : IsRunning after
  kept : IsKept c after

same_index :
    (c c' : Controller) (place : ℕ)
    → c'.shm_start ≡ c.shm_start
    → c'.access (page_index c place) ≡ true
    → c'.access (page_index c' place) ≡ true
unfolding page_index
same_index c c' place e h = ap (λ s. c'.access ((place - s) / 4096)) e ∙ h

touched :
    (env : EvictEnv) (place : ℕ) (c : Controller)
    → IsRunning c
    → IsServed env
    → c.shm_start ≤ place
    → place < c.shm_start + c.shm_size
    → Touched env place c
unfolding touch
touched env place c r s lo hi = elim (Bool-cases (c.access (page_index c place))) [
  | inl e ↦ record {
    after = c;
    returns = simp e;
    present = e;
    running = r;
    kept = record { content = λ _. refl; start = refl; size = refl; limit = refl };
  }
  | inr e ↦
      let f : IsFault c place = record { lower = lo; upper = hi; absent = e } in
      let (c', eq, acc, p, le, k) = handler_serves env place c s r.paged r.fits r.room f in
      let limit = k.limit in
      let pos = r.room in
      record {
        after = c';
        returns = simp (e, eq);
        present = same_index c c' place k.start acc;
        running = record { paged = p; fits = le; room = omega arith };
        kept = k;
      }
]

IsKept-flat : {c c' : Controller} → IsKept c c' → flat c' ≡ flat c
IsKept-flat k = fun_ext λ off. ap (λ p. p (off % page_size)) (k.content (off / page_size))

flat_load :
    (access : ℕ → Bool) (shm blk : ℕ → Page) (idx off : ℕ)
    → access idx ≡ true
    → shm idx off ≡ (if access idx then shm idx else blk (idx * 8)) off
flat_load access shm blk idx off h = ground arith

flat_store :
    (access : ℕ → Bool) (shm blk : ℕ → Page) (n o v : ℕ)
    → access (n / 4096) ≡ true
    → (if access (o / 4096)
          then update shm (n / 4096) (update (shm (n / 4096)) (n % 4096) v) (o / 4096)
          else blk (o / 4096 * 8))
        (o % 4096)
      ≡ update
          (λ k. (if access (k / 4096) then shm (k / 4096) else blk (k / 4096 * 8)) (k % 4096))
          n
          v
          o
unfolding update
flat_store access shm blk n o v h = ground arith

-- A byte of a page in memory, as the flat memory has it.
read_lem :
    (c : Controller) (place start : ℕ) (mem : ℕ → ℕ)
    → c.access (page_index c place) ≡ true
    → c.shm_start ≡ start
    → flat c ≡ mem
    → c.shm (page_index c place) (offset c place) ≡ mem (place - start)
unfolding page_index
read_lem c place start mem h es ef =
    flat_load c.access c.shm c.blk ((place - c.shm_start) / 4096) ((place - c.shm_start) % 4096) h
    ∙ ap (λ s. flat c (place - s)) es
    ∙ ap (λ f. f (place - start)) ef

poke_page_lem :
    (c : Controller) (place start v : ℕ) (mem : ℕ → ℕ)
    → c.access (page_index c place) ≡ true
    → c.shm_start ≡ start
    → flat c ≡ mem
    → flat (poke_page c place v) ≡ update mem (place - start) v
unfolding page_index
poke_page_lem c place start v mem h es ef =
    fun_ext (λ o. flat_store c.access c.shm c.blk (place - c.shm_start) o v h)
    ∙ ap (λ s. update (flat c) (place - s) v) es
    ∙ ap (λ f. update f (place - start) v) ef

poke_page-IsRunning : (c : Controller) (place v : ℕ) → IsRunning c → IsRunning (poke_page c place v)
poke_page-IsRunning c place v r =
    let p = r.paged in
    record {
      paged = record { nodup = p.nodup; used = p.used; mapped = p.mapped; aligned = p.aligned };
      fits = r.fits;
      room = r.room;
    }

-- The run of a program from a controller, against its run on a flat memory.
abbrev Agrees : ℕ → List (EvictEnv × Access) → Controller → (ℕ → ℕ) → Type 0
Agrees start accs c mem =
    (c' : Controller) × (run_paged accs c ≡ some ((run_flat start accs mem).0, c'))
    × (flat c' ≡ (run_flat start accs mem).1)
    × IsRunning c'

run_refines_at :
    (accs : List (EvictEnv × Access)) (c : Controller) (start size : ℕ) (mem : ℕ → ℕ)
    → IsRunning c
    → c.shm_start ≡ start
    → c.shm_size ≡ size
    → flat c ≡ mem
    → All (IsValid start size) accs
    → Agrees start accs c mem
unfolding run_paged run_flat
run_refines_at [] c start size mem r es ez ef v = (c, refl, ef, r)
run_refines_at ((env, load place) ∷ rest) c start size mem r es ez ef ((s, lo, hi), v) =
    let t = touched env place c r s (omega arith) (omega arith) in
    let k = t.kept in
    let (c'', eq, ef', r') =
      run_refines_at rest t.after start size mem t.running (k.start ∙ es) (k.size ∙ ez)
        (IsKept-flat k ∙ ef) v in
    (
      c'',
      simp (
        t.returns,
        eq,
        read_lem t.after place start mem t.present (k.start ∙ es) (IsKept-flat k ∙ ef),
      ),
      ef',
      r',
    )
run_refines_at ((env, store place b) ∷ rest) c start size mem r es ez ef ((s, lo, hi), v) =
    let t = touched env place c r s (omega arith) (omega arith) in
    let k = t.kept in
    let e = poke_page_lem t.after place start b mem t.present (k.start ∙ es) (IsKept-flat k ∙ ef) in
    let (c'', eq, ef', r') =
      run_refines_at rest (poke_page t.after place b) start size (update mem (place - start) b)
        (poke_page-IsRunning t.after place b t.running) (k.start ∙ es) (k.size ∙ ez) e v in
    (c'', simp (t.returns, eq), ef', r')

-- Loads and stores through page faults use memory like one flat array of bytes: from a controller
-- with right bookkeeping and a limit of at least one page that is not exceeded, accesses in the
-- range, each at a time when the device accepts the write of the evicted page, `mprotect` succeeds,
-- and the read of the page succeeds and finds what the device accepted last for it (so that no
-- earlier write of the page is still pending or has failed), all return, load what the same
-- accesses load from the array, and leave the pages in memory, and for the others those that the
-- device accepted last, as that array.
pub run_refines :
    (accs : List (EvictEnv × Access)) (c : Controller)
    → IsRunning c
    → All (IsValid c.shm_start c.shm_size) accs
    → (c' : Controller) × (run_paged accs c ≡ some ((run_flat c.shm_start accs (flat c)).0, c'))
      × (flat c' ≡ (run_flat c.shm_start accs (flat c)).1)
      × IsRunning c'
run_refines accs c r v = run_refines_at accs c c.shm_start c.shm_size (flat c) r refl refl refl v
