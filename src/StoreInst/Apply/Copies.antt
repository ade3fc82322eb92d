-- ===== src/StoreInst/Apply/Copies.antt =====
-- The copy of one entry in the loop of `snapshot`: which bytes of the backing file it reaches.
use snapshot_public.Prelude.{
  ℕ, ◌+◌, ◌-◌, ◌≤◌, ◌<◌, ◌≡◌, ◌∙◌, ◌⊎◌, inl, inr, true, false, ◌&&◌, ltb, leb, if◌then◌else◌,
  Bool-cases, arith,
}
use snapshot_public.StoreInst.Memory.{Mem, word, memcpy, add64, sub64}
use snapshot_public.StoreInst.Log.{LeanEntry}
use snapshot_public.StoreInst.Align.{align_to, align_dst, new_size, aligned_write_covers}
use snapshot_public.StoreInst.Apply.{Progress, copy_entry}

-- The logged range lies behind the start of the tracked memory, and its place in the backing file
-- does not wrap.
pub record IsPlaced (start_addr pm_back : ℕ) (e : LeanEntry) : Type 0 where
  pub behind : start_addr ≤ e.addr
  pub room : e.addr + e.bytes + 512 < word
  pub backing_room : pm_back + (e.addr - start_addr) + e.bytes + 512 < word

-- The place of the address `x` in the backing file.
abbrev pub mirror : ℕ → ℕ → ℕ → ℕ
mirror start_addr pm_back x = pm_back + (x - start_addr)

-- The byte `x` is logged by the entry.
abbrev pub Holds : ℕ → LeanEntry → Type 0
Holds x e = (e.addr ≤ x) × (x < e.addr + e.bytes)

-- A value that is kept or becomes `v`, twice in a row.
pub kept_trans : {a b c v : ℕ} → (b ≡ a) ⊎ (b ≡ v) → (c ≡ b) ⊎ (c ≡ v) → (c ≡ a) ⊎ (c ≡ v)
kept_trans (inl e) (inl f) = inl (f ∙ e)
kept_trans (inr e) (inl f) = inr (f ∙ e)
kept_trans _ (inr f) = inr f

pub kept_of_eq : {a b v : ℕ} → (b ≡ a) ⊎ (b ≡ v) → a ≡ v → b ≡ v
kept_of_eq (inl e) h = e ∙ h
kept_of_eq (inr f) h = f

module _ (start_addr pm_back : ℕ) (mem : Mem) (margin : 512 ≤ start_addr)
    (start_fits : start_addr < word) (back_fits : pm_back < word) (x : ℕ)
    (tracked : start_addr ≤ x) where
  abbrev place : ℕ
  place = mirror start_addr pm_back x

  -- The byte `x` of the backing file is that of the page cache.
  abbrev IsCopied : Mem → Type 0
  IsCopied backing = backing place ≡ mem x

  dst_eq :
      (e : LeanEntry)
      → IsPlaced start_addr pm_back e
      → add64 pm_back (sub64 e.addr start_addr) ≡ pm_back + (e.addr - start_addr)
  unfolding add64 sub64
  dst_eq e h = omega arith

  src_eq :
      (from : ℕ)
      → pm_back ≤ from + 512
      → from + start_addr < pm_back + word
      → from < word
      → add64 (sub64 from pm_back) start_addr ≡ from + start_addr - pm_back
  unfolding add64 sub64
  src_eq from h k m = omega arith

  -- A copy between corresponding addresses.
  record IsMirrorCopy (e : LeanEntry) (before after : Mem) : Type 0 where
    dst : ℕ
    src : ℕ
    size : ℕ
    copies : after ≡ memcpy before dst mem src size
    aligned : src + pm_back ≡ dst + start_addr
    not_after : dst ≤ pm_back + (e.addr - start_addr)
    long_enough : pm_back + (e.addr - start_addr) + e.bytes ≤ dst + size

  streaming_copy :
      (e : LeanEntry) (p : Progress)
      → IsPlaced start_addr pm_back e
      → leb 8 e.bytes ≡ true
      → IsMirrorCopy e p.backing (copy_entry start_addr pm_back mem e p).backing
  unfolding copy_entry
  streaming_copy e p h long =
      let dst_addr = pm_back + (e.addr - start_addr) in
      let to = align_to e.bytes in
      let from = align_dst dst_addr to in
      let wide = aligned_write_covers dst_addr e.bytes in
      let src = src_eq from (omega arith) (omega arith) (omega arith) in
      record {
        dst = from;
        src = from + start_addr - pm_back;
        size = new_size dst_addr e.bytes to;
        copies = rw (long, dst_eq e h, src);
        aligned = omega arith;
        not_after = wide.0;
        long_enough = wide.2;
      }

  plain_copy :
      (e : LeanEntry) (p : Progress)
      → IsPlaced start_addr pm_back e
      → leb 8 e.bytes ≡ false
      → IsMirrorCopy e p.backing (copy_entry start_addr pm_back mem e p).backing
  unfolding copy_entry
  plain_copy e p h short = record {
    dst = pm_back + (e.addr - start_addr);
    src = e.addr;
    size = e.bytes;
    copies = rw (short, dst_eq e h);
    aligned = omega arith;
    not_after = omega arith;
    long_enough = omega arith;
  }

  mirror_copy :
      (e : LeanEntry) (p : Progress)
      → IsPlaced start_addr pm_back e
      → IsMirrorCopy e p.backing (copy_entry start_addr pm_back mem e p).backing
  mirror_copy e p h = elim (Bool-cases (leb 8 e.bytes)) [
    | inl long ↦ streaming_copy e p h long
    | inr short ↦ plain_copy e p h short
  ]

  memcpy-place :
      (backing : Mem) (dst src n : ℕ)
      → src + pm_back ≡ dst + start_addr
      → memcpy backing dst mem src n place
        ≡ (if leb dst place && ltb place (dst + n) then mem x else backing place)
  unfolding memcpy
  memcpy-place backing dst src n e = ground arith

  -- A copied range holds its bytes of the page cache.
  pub copy_entry_covers :
      (e : LeanEntry) (p : Progress)
      → IsPlaced start_addr pm_back e
      → Holds x e
      → IsCopied (copy_entry start_addr pm_back mem e p).backing
  copy_entry_covers e p h c =
      let k = mirror_copy e p h in
      rw (k.copies, memcpy-place p.backing k.dst k.src k.size k.aligned)
        (ground (arith, k.not_after, k.long_enough))

  -- Any other byte keeps its content or gets that of the page cache.
  pub copy_entry_stays :
      (e : LeanEntry) (p : Progress)
      → IsPlaced start_addr pm_back e
      → ((copy_entry start_addr pm_back mem e p).backing place ≡ p.backing place)
        ⊎ IsCopied (copy_entry start_addr pm_back mem e p).backing
  copy_entry_stays e p h =
      let k = mirror_copy e p h in
      rw (k.copies, memcpy-place p.backing k.dst k.src k.size k.aligned) (ground arith)
