-- ===== src/StoreInst/Recovery/Chain.antt =====
-- A log whose entries follow one another up to its end, and what recovery does with one more.
use snapshot_public.Prelude.{
  ℕ, zero, suc, ◌+◌, ◌-◌, ◌≤◌, ◌<◌, ◌≡◌, refl, sym, ap, ◌∙◌, fun_ext, inl, inr, arith,
  if◌then◌else◌, Bool-cases, lt→ltb,
}
use snapshot_public.StoreInst.Memory.{Mem, memcpy}
use snapshot_public.StoreInst.Entry.{
  header_size, entry_bytes, entry_addr, entry_bytes_frame, entry_addr_frame,
}
use snapshot_public.StoreInst.Recovery.{next_off, in_file, find_entries, apply_entry, apply_reverse}

-- From `cur` the entries of `c` lead to `limit` exactly.
pub data Chain (c : Mem) (limit : ℕ) : ℕ → Type 0 where
  done : {cur : ℕ} → cur ≡ limit → Chain c limit cur
  step : {cur : ℕ} → Chain c limit (next_off c cur) → Chain c limit cur

pub Chain-le : {c : Mem} {limit cur : ℕ} → Chain c limit cur → cur ≤ limit
Chain-le (done e) = omega arith
Chain-le (step k) = omega (arith, Chain-le k)

-- Recovery from the entry at `cur` on.
abbrev pub undo : Mem → ℕ → ℕ → ℕ → ℕ → ℕ → Mem → Mem
undo c addr len limit rounds cur file =
    apply_reverse c addr (find_entries rounds c cur limit addr len) file

-- The effect of the entry at `cur`, if it lies in the file.
abbrev pub apply_if : Mem → ℕ → ℕ → ℕ → Mem → Mem
apply_if c addr len cur file =
    if in_file addr len (entry_addr c cur) then apply_entry c addr cur file else file

module _ (c : Mem) (addr len limit : ℕ) where
  pub undo_end : (n cur : ℕ) (file : Mem) → limit ≤ cur → undo c addr len limit n cur file ≡ file
  unfolding find_entries apply_reverse
  undo_end zero cur file h = refl
  undo_end (suc n) cur file h = ground arith

  pub undo_step :
      (n cur : ℕ) (file : Mem)
      → cur < limit
      → undo c addr len limit (suc n) cur file
        ≡ apply_if c addr len cur (undo c addr len limit n (next_off c cur) file)
  unfolding find_entries apply_reverse
  undo_step n cur file h =
      rw (lt→ltb cur limit h)
        (elim (Bool-cases (in_file addr len (entry_addr c cur))) [ inl e ↦ rw e | inr e ↦ rw e ])

-- `c'` is `c` with more behind `limit`.
abbrev pub Extends : Mem → Mem → ℕ → Type 0
Extends c c' limit = (x : ℕ) → x < limit → c' x ≡ c x

module _ {c c' : Mem} {limit : ℕ} (same : Extends c c' limit) where
  bytes_same : (cur : ℕ) → next_off c cur ≤ limit → entry_bytes c' cur ≡ entry_bytes c cur
  bytes_same cur h = entry_bytes_frame c c' cur (λ x _ k. same x (omega arith))

  addr_same : (cur : ℕ) → next_off c cur ≤ limit → entry_addr c' cur ≡ entry_addr c cur
  addr_same cur h = entry_addr_frame c c' cur (λ x _ k. same x (omega arith))

  pub Chain-extend :
      (end : ℕ) {cur : ℕ} → next_off c' limit ≡ end → Chain c limit cur → Chain c' end cur
  Chain-extend end {cur} e (done d) = step (done (rw d e))
  Chain-extend end e (step {cur} k) = step (rw (bytes_same cur (Chain-le k)) (Chain-extend end e k))

  pub Chain-frame : {cur : ℕ} → Chain c limit cur → Chain c' limit cur
  Chain-frame (done d) = done d
  Chain-frame (step {cur} k) = step (rw (bytes_same cur (Chain-le k)) (Chain-frame k))

  apply_entry_same :
      (addr cur : ℕ) (file : Mem)
      → next_off c cur ≤ limit
      → apply_entry c' addr cur file ≡ apply_entry c addr cur file
  unfolding apply_entry memcpy
  apply_entry_same addr cur file h = fun_ext (λ x.
      rw (bytes_same cur h, addr_same cur h)
        (ground (arith, same (cur + header_size + (x - (entry_addr c cur - addr))))))

  apply_if_same :
      (addr len cur : ℕ) (file : Mem)
      → next_off c cur ≤ limit
      → apply_if c' addr len cur file ≡ apply_if c addr len cur file
  apply_if_same addr len cur file h = rw (addr_same cur h, apply_entry_same addr cur file h)

  module _ (addr len end : ℕ) (last : next_off c' limit ≡ end) where
    -- Recovery of the longer log undoes the last entry and then recovers the shorter one.
    pub undo_append :
        (n m : ℕ) {cur : ℕ} (file : Mem)
        → limit ≤ cur + n
        → end ≤ cur + m
        → Chain c limit cur
        → undo c' addr len end m cur file
          ≡ undo c addr len limit n cur (apply_if c' addr len limit file)
    undo_append n zero file h k r = absurd (omega (arith, Chain-le r))
    undo_append n (suc m) {cur} file h k (done e) =
        rw (undo_end c addr len limit n cur (apply_if c' addr len limit file) (omega arith), e)
          (undo_step c' addr len end m limit file (omega arith)
            ∙ ap (apply_if c' addr len limit)
                (undo_end c' addr len end m (next_off c' limit) file (omega arith)))
    undo_append zero (suc m) file h k (step r) = absurd (omega (arith, Chain-le r))
    undo_append (suc n) (suc m) {cur} file h k (step r) =
        undo_step c' addr len end m cur file (omega (arith, Chain-le r))
        ∙ apply_if_same addr len cur _ (Chain-le r)
        ∙ ap (apply_if c addr len cur)
            (rw (bytes_same cur (Chain-le r)) (undo_append n m file (omega arith) (omega arith) r))
        ∙ sym (
            undo_step c addr len limit n cur (apply_if c' addr len limit file)
              (omega (arith, Chain-le r)))
