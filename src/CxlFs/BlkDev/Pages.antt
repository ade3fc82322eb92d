-- ===== src/CxlFs/BlkDev/Pages.antt =====
-- Runs of `read_blocking` and `write_blocking` in blkdev.cc on pages, the way controller.cc calls
-- them.
use snapshot_public.Prelude.{
  ℕ, ◌*◌, ◌≤◌, ◌<◌, ◌≡◌, refl, ap, sym, subst, ◌∙◌, Bool, true, false, Option, none, some, List, [],
  ◌∷◌, ltb, length, ◌>>=◌, arith, length-set, All, All-set_any, All-get,
}
use snapshot_public.CxlFs.Controller.{Page, update}
use snapshot_public.CxlFs.BlkDev.{Buf, Nvme, BlkDev}
use snapshot_public.CxlFs.BlkDev.Requests.{
  WriteEnv, ReadEnv, wait, get_read_buf, issue_read, read_into, read_blocking, write_blocking,
}
use snapshot_public.CxlFs.BlkDev.Buffers.{IsWritten, namespace_at, target_ns_lem}
use snapshot_public.CxlFs.BlkDev.Writes.{write_blocking_ok}
use snapshot_public.CxlFs.BlkDev.Refines.{IsDrive, IsPlain, IsReady, page_in, page_of, page_of-put}

-- There is memory for the first read, and the drive takes the read and completes it without error.
pub record IsRead (env : ReadEnv) : Type 0 where
  pub zmalloc : env.zmalloc_succeeds ≡ true
  pub accepted : env.read_accepted ≡ true
  pub done : wait env.polls 0 ≡ some 1

module _ {D : Type 0} (nvme : Nvme D) where
  -- The device holds these pages.
  abbrev pub Holds : BlkDev D → (ℕ → Page) → Type 0
  Holds dev pages = (pg i : ℕ) → i < 4096 → page_of nvme dev pg i ≡ pages pg i

  pub write_page_ok :
      (env : WriteEnv) (buf : Buf) (pg : ℕ) (dev : BlkDev D) (pages : ℕ → Page)
      → IsDrive nvme
      → IsReady nvme dev
      → IsWritten env
      → Holds dev pages
      → (dev' : BlkDev D) × (write_blocking nvme env buf (pg * 8) 8 dev ≡ some (true, dev'))
        × IsReady nvme dev'
        × Holds dev' (update pages pg buf)
        × (dev'.dma_bufs ≡ dev.dma_bufs)
  unfolding update
  write_page_ok env buf pg dev pages drive w ok h =
      let (d, g) = namespace_at dev (pg * 8) w.count in
      let plain = All-get (IsPlain nvme) dev.namespaces _ d w.plain g in
      let upd : (pg' i : ℕ)
          → i < 4096
          → update (page_of nvme dev) pg buf pg' i ≡ update pages pg buf pg' i =
        λ pg' i l. ground (arith, h pg' i l) in
      let (dev', done, nss, idle) =
        write_blocking_ok nvme env buf (pg * 8) 8 dev d w.count ok g plain in
      (
        dev',
        done,
        record {
          count = record {
            counted = idle.cnt ∙ w.count.counted ∙ sym (ap length nss ∙ length-set _ _ _);
            some_ns = subst (λ n. 0 < n) (sym idle.cnt) w.count.some_ns;
          };
          plain = subst (All (IsPlain nvme)) (sym nss) (
              All-set_any (IsPlain nvme) dev.namespaces _ _ w.plain
                (drive.same_kind d (pg * 8) 8 buf ∙ plain));
          room = λ b e. w.room b (sym idle.read_buf ∙ e);
        },
        λ pg' i l. page_of-put nvme dev dev' pg pg' i d buf drive l g nss idle.cnt ∙ upd pg' i l,
        idle.dma_bufs,
      )

  read_into_ok :
      (env : ReadEnv) (lba : ℕ) (d : D) (b : ℕ × Buf) (dev : BlkDev D)
      → IsRead env
      → 4096 ≤ b.0
      → read_into nvme env lba 8 d b dev
        ≡ some (nvme.read d lba 8, true, record dev { read_buf = some (b.0, nvme.read d lba 8) })
  unfolding read_into issue_read
  read_into_ok env lba d b dev ok room =
      let fits : ltb b.0 4096 ≡ false = ground arith in
      rw (read_into, issue_read, fits, ok.accepted, ok.done) refl

  get_read_buf_ok :
      (env : ReadEnv) (o : Option (ℕ × Buf))
      → IsRead env
      → ((b : ℕ × Buf) → o ≡ some b → 4096 ≤ b.0)
      → (b : ℕ × Buf) × (get_read_buf nvme env.zmalloc_succeeds 8 o ≡ some b) × (4096 ≤ b.0)
  unfolding get_read_buf
  get_read_buf_ok env none ok room =
      ((4096, λ _. 0), rw (get_read_buf, ok.zmalloc) refl, omega arith)
  get_read_buf_ok env (some b) ok room = (b, refl, room b refl)

  pub read_page_ok :
      (env : ReadEnv) (buf : Buf) (pg : ℕ) (dev : BlkDev D) (pages : ℕ → Page)
      → IsDrive nvme
      → IsReady nvme dev
      → IsRead env
      → Holds dev pages
      → (content : Buf) × (dev' : BlkDev D) × (read_blocking nvme env buf (pg * 8) 8 dev
          ≡ some (content, true, dev'))
        × IsReady nvme dev'
        × Holds dev' pages
        × ((i : ℕ) → i < 4096 → content i ≡ pages pg i)
        × (k : ℕ) × (dev'.read_buf ≡ some (k, content))
  unfolding read_blocking page_of page_in
  read_page_ok env buf pg dev pages drive w ok h =
      let (d, g) = namespace_at dev (pg * 8) w.count in
      let (b, got, room) = get_read_buf_ok env dev.read_buf ok w.room in
      (
        nvme.read d (pg * 8) 8,
        record dev { read_buf = some (b.0, nvme.read d (pg * 8) 8) },
        rw
            (
              target_ns_lem dev (pg * 8) w.count.some_ns,
              got,
              g,
              read_into_ok env (pg * 8) d b dev ok room,
            )
            refl,
        record {
          count = record { counted = w.count.counted; some_ns = w.count.some_ns };
          plain = w.plain;
          room = λ b' e.
              let same : (b.0, nvme.read d (pg * 8) 8) ≡ b' = cc in
              subst (λ (q : ℕ × Buf). 4096 ≤ q.0) same room;
        },
        h,
        λ i l. ap (λ o. page_in nvme o pg i) (sym g) ∙ h pg i l,
        b.0,
        refl,
      )

-- A request for a page, with what the machine and the drive answer.
pub data Request : Type 0 where
  write_page : WriteEnv → ℕ → Buf → Request
  read_page : ReadEnv → ℕ → Buf → Request

-- Whether a request returns 0, and the page that it reads.
abbrev pub Reply : Type 0
Reply = Bool × Option Page

abbrev pub IsServed : Request → Type 0
IsServed (write_page env pg buf) = IsWritten env
IsServed (read_page env pg buf) = IsRead env

-- The replies of an array of pages.
unfoldable pub run_array : (ℕ → Page) → List Request → List Reply
run_array pages [] = []
run_array pages (write_page env pg buf ∷ rs) = (true, none) ∷ run_array (update pages pg buf) rs
run_array pages (read_page env pg buf ∷ rs) = (true, some (pages pg)) ∷ run_array pages rs

-- The pages agree in their 4096 bytes.
abbrev pub SamePage : Option Page → Option Page → Type 0
SamePage none none = Unit
SamePage (some p) (some q) = (i : ℕ) → i < 4096 → p i ≡ q i
SamePage _ _ = ⊥

abbrev pub SameReplies : List Reply → List Reply → Type 0
SameReplies [] [] = Unit
SameReplies (x ∷ xs) (y ∷ ys) = (x.0 ≡ y.0) × SamePage x.1 y.1 × SameReplies xs ys
SameReplies _ _ = ⊥

module _ {D : Type 0} (nvme : Nvme D) where
  unfoldable pub run_requests : BlkDev D → List Request → Option (List Reply × BlkDev D)
  run_requests dev [] = some ([], dev)
  run_requests dev (write_page env pg buf ∷ rs) = do
    (rc, dev') ← write_blocking nvme env buf (pg * 8) 8 dev
    (replies, dev'') ← run_requests dev' rs
    some ((rc, none) ∷ replies, dev'')
  run_requests dev (read_page env pg buf ∷ rs) = do
    (content, rc, dev') ← read_blocking nvme env buf (pg * 8) 8 dev
    (replies, dev'') ← run_requests dev' rs
    some ((rc, some content) ∷ replies, dev'')

  -- Requests for pages use the namespaces like one array of pages: on a ready device that holds the
  -- pages of an array, with drives that read back what was written, every run of blocking reads and
  -- writes of single pages that machine and drives serve ends, and its replies are those of the
  -- array: each request returns 0 and each read finds the last page written there. The device is
  -- ready again.
  pub run_requests_refines :
      (rs : List Request) (dev : BlkDev D) (pages : ℕ → Page)
      → IsDrive nvme
      → IsReady nvme dev
      → Holds nvme dev pages
      → All IsServed rs
      → (replies : List Reply) × (dev' : BlkDev D) × (run_requests dev rs ≡ some (replies, dev'))
        × SameReplies replies (run_array pages rs)
        × IsReady nvme dev'
  unfolding run_requests run_array
  run_requests_refines [] dev pages drive w h ok = ([], dev, refl, tt, w)
  run_requests_refines (write_page env pg buf ∷ rs) dev pages drive w h ok =
      let (dev', done, w', h', bufs) = write_page_ok nvme env buf pg dev pages drive w ok.0 h in
      let (replies, dev'', run, same, w'') =
        run_requests_refines rs dev' (update pages pg buf) drive w' h' ok.1 in
      ((true, none) ∷ replies, dev'', rw (done, run) refl, (refl, tt, same), w'')
  run_requests_refines (read_page env pg buf ∷ rs) dev pages drive w h ok =
      let (content, dev', done, w', h', found, k, kept) =
        read_page_ok nvme env buf pg dev pages drive w ok.0 h in
      let (replies, dev'', run, same, w'') = run_requests_refines rs dev' pages drive w' h' ok.1 in
      ((true, some content) ∷ replies, dev'', rw (done, run) refl, (refl, found, same), w'')
