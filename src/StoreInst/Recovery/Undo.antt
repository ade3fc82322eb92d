-- ===== src/StoreInst/Recovery/Undo.antt =====
-- `recover_log` on a log to which `log_range` has added an entry.
use snapshot_public.Prelude.{
  ℕ, ◌+◌, ◌-◌, ◌^◌, ◌≤◌, ◌<◌, ◌≡◌, refl, sym, ap, ◌∙◌, fun_ext, ◌⊎◌, inl, inr, ◌&&◌, arith, ltb,
  leb, if◌then◌else◌, Bool-cases,
}
use snapshot_public.StoreInst.Memory.{Mem, memcpy, memcpy_ext, memcpy-memcpy}
use snapshot_public.StoreInst.Entry.{
  header_size, entry_bytes, entry_addr, write_entry, write_entry_outside, entry_bytes-write_entry,
  entry_addr-write_entry, content-write_entry,
}
use snapshot_public.StoreInst.Log.{
  Layout, Log, LeanEntry, lean, remember, append_entry, flush_lines, logged,
}
use snapshot_public.StoreInst.Recovery.{next_off, in_file, apply_entry, recover_log}
use snapshot_public.StoreInst.Recovery.Chain.{
  Chain, Extends, Chain-extend, Chain-frame, undo, apply_if, undo_append,
}

-- Where the last logged range stands in the log area.
pub data IsLast (a : Layout) (e : LeanEntry) : Type 0 where
  fresh : a.log_offset ≡ 0 → e.bytes ≡ 0 → IsLast a e
  ended :
      (o : ℕ)
      → Chain a.content o 0
      → next_off a.content o ≡ a.log_offset
      → entry_addr a.content o ≡ e.addr
      → entry_bytes a.content o ≡ e.bytes
      → IsLast a e

-- The log area is a chain of entries that ends at the tail, the last one being `e`.
pub record IsParsed (a : Layout) (e : LeanEntry) : Type 0 where
  pub tail : a.tail_ptr ≡ a.log_offset
  pub chain : Chain a.content a.log_offset 0
  pub last : IsLast a e

-- A store to the range changes no other byte.
abbrev pub IsStore : Mem → Mem → ℕ → ℕ → Type 0
IsStore mem mem' start bytes = (x : ℕ) → (x < start) ⊎ (start + bytes ≤ x) → mem' x ≡ mem x

-- Each byte of the file is the byte of one of two memories.
abbrev pub IsTorn : ℕ → ℕ → Mem → Mem → Mem → Type 0
IsTorn addr len old new file =
    (i : ℕ) → i < len → (file i ≡ old (addr + i)) ⊎ (file i ≡ new (addr + i))

-- Recovery brings every such file back to the memory `old`.
abbrev pub Undoes : ℕ → ℕ → Mem → Mem → Layout → Type 0
Undoes addr len old mem a =
    (file : Mem)
    → IsTorn addr len old mem file
    → (i : ℕ) → i < len
    → recover_log a addr len file i ≡ old (addr + i)

-- The file with the logged range put back.
abbrev pub restored : ℕ → ℕ → Mem → ℕ → ℕ → Mem → Mem
restored addr len mem start bytes file =
    if in_file addr len start then memcpy file (start - addr) mem start bytes else file

restored_at :
    (addr len : ℕ) (mem : Mem) (start bytes : ℕ) (file : Mem) (i : ℕ)
    → (start < addr → start + bytes ≤ addr)
    → i < len
    → restored addr len mem start bytes file i
      ≡ (if leb start (addr + i) && ltb (addr + i) (start + bytes) then mem (addr + i) else file i)
unfolding in_file memcpy
restored_at addr len mem start bytes file i apart h = ground arith

pub restored-IsTorn :
    (addr len : ℕ) (old mem mem' : Mem) (start bytes : ℕ) (file : Mem)
    → (start < addr → start + bytes ≤ addr)
    → IsStore mem mem' start bytes
    → IsTorn addr len old mem' file
    → IsTorn addr len old mem (restored addr len mem start bytes file)
restored-IsTorn addr len old mem mem' start bytes file apart same torn i h =
    rw (restored_at addr len mem start bytes file i apart h)
      (ground (arith, torn i h, same (addr + i)))

-- Applying the entry that a range was logged in.
apply_if-logged :
    (c : Mem) (addr len o : ℕ) (mem : Mem) (start bytes : ℕ) (file : Mem)
    → start < 2 ^ 56
    → bytes < 2 ^ 23
    → apply_if (write_entry c o mem start bytes) addr len o file
      ≡ restored addr len mem start bytes file
unfolding apply_entry
apply_if-logged c addr len o mem start bytes file h k =
    rw (entry_addr-write_entry c o mem start bytes h, entry_bytes-write_entry c o mem start bytes k)
      (ap (λ (copy : Mem). if in_file addr len start then copy else file)
        (memcpy_ext file (start - addr) (write_entry c o mem start bytes) mem (o + header_size)
          start bytes (content-write_entry c o mem start bytes)))

-- Applying any entry for the same range makes no difference between a file and the restored one.
apply_if-restored :
    (c : Mem) (addr len o : ℕ) (mem : Mem) (start bytes : ℕ) (file : Mem)
    → entry_addr c o ≡ start
    → entry_bytes c o ≡ bytes
    → apply_if c addr len o (restored addr len mem start bytes file) ≡ apply_if c addr len o file
unfolding apply_entry
apply_if-restored c addr len o mem start bytes file h k =
    rw (h, k)
      (elim (Bool-cases (in_file addr len start)) [
        | inl e ↦ rw e (memcpy-memcpy file (start - addr) mem c start (o + header_size) bytes)
        | inr e ↦ rw e
      ])

restored-empty :
    (addr len : ℕ) (mem : Mem) (start : ℕ) (file : Mem) → restored addr len mem start 0 file ≡ file
unfolding memcpy
restored-empty addr len mem start file = fun_ext (λ x. ground arith)

-- The log area that `log_range` leaves when it writes an entry.
unfoldable pub appended : Layout → Mem → ℕ → ℕ → Layout
appended a mem start bytes = record a {
  log_offset = a.log_offset + (header_size + bytes);
  tail_ptr = a.tail_ptr + (header_size + bytes);
  content = write_entry a.content a.tail_ptr mem start bytes;
}

pub log_area-logged :
    (mem : Mem) (l : Log) (start bytes : ℕ)
    → (logged mem l start bytes).log_area ≡ appended l.log_area mem start bytes
unfolding flush_lines append_entry remember appended
log_area-logged mem l start bytes = ground arith

pub last_log-logged :
    (mem : Mem) (l : Log) (start bytes : ℕ) → (logged mem l start bytes).last_log ≡ lean start bytes
unfolding flush_lines append_entry remember
last_log-logged mem l start bytes = ground arith

module _ (a : Layout) (e : LeanEntry) (p : IsParsed a e) (mem : Mem) (start bytes : ℕ)
    (addr_fits : start < 2 ^ 56) (bytes_fit : bytes < 2 ^ 23) where
  abbrev longer : Mem
  longer = write_entry a.content a.log_offset mem start bytes

  extends : Extends a.content longer a.log_offset
  extends x h = write_entry_outside a.content a.log_offset mem start bytes x (inl h)

  last_next : next_off longer a.log_offset ≡ a.log_offset + (header_size + bytes)
  last_next =
      omega (arith, entry_bytes-write_entry a.content a.log_offset mem start bytes bytes_fit)

  -- A new entry lengthens the chain.
  pub appended-IsParsed : IsParsed (appended a mem start bytes) (lean start bytes)
  unfolding appended
  appended-IsParsed = rw p.tail (record {
    tail = refl;
    chain = Chain-extend extends _ last_next p.chain;
    last =
        ended a.log_offset (Chain-frame extends p.chain) last_next
          (entry_addr-write_entry a.content a.log_offset mem start bytes addr_fits)
          (entry_bytes-write_entry a.content a.log_offset mem start bytes bytes_fit);
  })

  -- Recovery of the longer log first puts the new range back.
  pub recover-appended :
      (addr len : ℕ) (file : Mem)
      → recover_log (appended a mem start bytes) addr len file
        ≡ recover_log a addr len (restored addr len mem start bytes file)
  unfolding appended recover_log
  recover-appended addr len file = rw p.tail (
      undo_append extends addr len _ last_next a.log_offset (a.log_offset + (header_size + bytes))
        file (omega arith) (omega arith) p.chain
      ∙ ap (λ (f : Mem). recover_log a addr len f)
          (apply_if-logged a.content addr len a.log_offset mem start bytes file addr_fits
            bytes_fit))

-- A range that was logged last may be changed again with no new entry.
pub recover-restored :
    (a : Layout) (start bytes : ℕ) (addr len : ℕ) (mem file : Mem)
    → IsLast a (lean start bytes)
    → recover_log a addr len (restored addr len mem start bytes file) ≡ recover_log a addr len file
unfolding recover_log
recover-restored a start bytes addr len mem file (fresh e z) =
    rw z (ap (λ (f : Mem). recover_log a addr len f) (restored-empty addr len mem start file))
recover-restored a start bytes addr len mem file (ended o k n ea eb) =
    peel (restored addr len mem start bytes file)
    ∙ ap (λ (f : Mem). undo a.content addr len o o 0 f)
        (apply_if-restored a.content addr len o mem start bytes file ea eb)
    ∙ sym (peel file)
  where
    peel :
        (f : Mem)
        → recover_log a addr len f ≡ undo a.content addr len o o 0 (apply_if a.content addr len o f)
    peel f =
        undo_append (λ x h. refl) addr len a.log_offset n o a.log_offset f (omega arith)
          (omega arith) k
