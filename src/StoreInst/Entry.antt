-- ===== src/StoreInst/Entry.antt =====
-- log.hh, `log_entry_t`: the packed 10-byte header of a log entry (a `disabled` bit, 23 bits of
-- length, 56 bits of address, in that order from the lowest bit) and the logged bytes behind it.
use snapshot_public.Prelude.{ℕ, ◌+◌, ◌*◌, ◌/◌, ◌%◌, ◌^◌, ◌≤◌, ◌<◌, ◌≡◌, ap, ◌∙◌, ◌⊎◌, inl, arith}
use snapshot_public.StoreInst.Memory.{
  Mem, memcpy, memcpy_inside, memcpy_outside, load_le, store_le, store_le_outside, load_le_frame,
  load_le-store_le,
}

-- sizeof(log_entry_t)
abbrev pub header_size : ℕ
header_size = 10

-- `entry->disabled`, `entry->bytes` and `entry->addr` of the entry at offset `o`.
unfoldable pub entry_disabled : Mem → ℕ → ℕ
entry_disabled c o = load_le 3 c o % 2

unfoldable pub entry_bytes : Mem → ℕ → ℕ
entry_bytes c o = load_le 3 c o / 2 % 2 ^ 23

unfoldable pub entry_addr : Mem → ℕ → ℕ
entry_addr c o = load_le 7 c (o + 3)

-- `log_entry.addr = a`: the value is cut to 56 bits.
unfoldable pub set_entry_addr : Mem → ℕ → ℕ → Mem
set_entry_addr c o a = store_le 7 c (o + 3) (a % 2 ^ 56)

-- `log_entry.bytes = n`: the value is cut to 23 bits, and the `disabled` bit stays as it was.
unfoldable pub set_entry_bytes : Mem → ℕ → ℕ → Mem
unfolding entry_disabled
set_entry_bytes c o n = store_le 3 c o (entry_disabled c o + 2 * (n % 2 ^ 23))

-- The three writes with which `log_range` fills the entry at `tail_ptr`.
unfoldable pub write_entry : Mem → ℕ → Mem → ℕ → ℕ → Mem
write_entry c o mem start bytes =
    memcpy (set_entry_bytes (set_entry_addr c o start) o bytes) (o + header_size) mem start bytes

entry_bytes-set_entry_bytes :
    (c : Mem) (o n : ℕ) → n < 2 ^ 23 → entry_bytes (set_entry_bytes c o n) o ≡ n
unfolding entry_bytes set_entry_bytes
entry_bytes-set_entry_bytes c o n h =
    omega (arith, load_le-store_le 3 c o (load_le 3 c o % 2 + 2 * (n % 2 ^ 23)) (omega arith))

entry_addr-set_entry_addr :
    (c : Mem) (o a : ℕ) → a < 2 ^ 56 → entry_addr (set_entry_addr c o a) o ≡ a
unfolding entry_addr set_entry_addr
entry_addr-set_entry_addr c o a h =
    omega (arith, load_le-store_le 7 c (o + 3) (a % 2 ^ 56) (omega arith))

-- The fields of an entry depend on the bytes of its header alone.
pub entry_bytes_frame :
    (c c' : Mem) (o : ℕ)
    → ((x : ℕ) → o ≤ x → x < o + header_size → c' x ≡ c x)
    → entry_bytes c' o ≡ entry_bytes c o
unfolding entry_bytes
entry_bytes_frame c c' o same =
    rw (load_le_frame 3 c c' o (λ x h k. same x (omega arith) (omega arith)))

pub entry_addr_frame :
    (c c' : Mem) (o : ℕ)
    → ((x : ℕ) → o ≤ x → x < o + header_size → c' x ≡ c x)
    → entry_addr c' o ≡ entry_addr c o
unfolding entry_addr
entry_addr_frame c c' o same =
    load_le_frame 7 c c' (o + 3) (λ x h k. same x (omega arith) (omega arith))

module _ (c : Mem) (o : ℕ) (mem : Mem) (start bytes : ℕ) where
  abbrev header : Mem
  header = set_entry_bytes (set_entry_addr c o start) o bytes

  pub write_entry_outside :
      (x : ℕ) → (x < o) ⊎ (o + header_size + bytes ≤ x) → write_entry c o mem start bytes x ≡ c x
  unfolding write_entry set_entry_bytes set_entry_addr
  write_entry_outside x h = ground (
    arith,
    memcpy_outside header (o + 10) mem start bytes x,
    store_le_outside 3 (set_entry_addr c o start) o
        (entry_disabled (set_entry_addr c o start) o + 2 * (bytes % 2 ^ 23)) x,
    store_le_outside 7 c (o + 3) (start % 2 ^ 56) x,
  )

  header_same : (x : ℕ) → o ≤ x → x < o + header_size → write_entry c o mem start bytes x ≡ header x
  unfolding write_entry
  header_same x h k = memcpy_outside header (o + 10) mem start bytes x (inl k)

  -- The three fields read back as they were written.
  pub entry_bytes-write_entry :
      bytes < 2 ^ 23 → entry_bytes (write_entry c o mem start bytes) o ≡ bytes
  entry_bytes-write_entry h =
      entry_bytes_frame header (write_entry c o mem start bytes) o header_same
      ∙ entry_bytes-set_entry_bytes (set_entry_addr c o start) o bytes h

  addr_kept : entry_addr header o ≡ entry_addr (set_entry_addr c o start) o
  unfolding entry_addr set_entry_bytes
  addr_kept = load_le_frame 7 (set_entry_addr c o start) header (o + 3) (λ x h k.
      store_le_outside 3 (set_entry_addr c o start) o
        (entry_disabled (set_entry_addr c o start) o + 2 * (bytes % 2 ^ 23)) x (omega arith))

  pub entry_addr-write_entry :
      start < 2 ^ 56 → entry_addr (write_entry c o mem start bytes) o ≡ start
  entry_addr-write_entry h =
      entry_addr_frame header (write_entry c o mem start bytes) o header_same
      ∙ addr_kept
      ∙ entry_addr-set_entry_addr c o start h

  pub content-write_entry :
      (i : ℕ) → i < bytes → write_entry c o mem start bytes (o + header_size + i) ≡ mem (start + i)
  unfolding write_entry
  content-write_entry i h =
      memcpy_inside header (o + 10) mem start bytes (o + 10 + i) (omega arith) (omega arith)
      ∙ ap mem (omega arith)

  entry_disabled-set_entry_addr : entry_disabled (set_entry_addr c o start) o ≡ entry_disabled c o
  unfolding entry_disabled set_entry_addr
  entry_disabled-set_entry_addr = rw (
      load_le_frame 3 c (store_le 7 c (o + 3) (start % 2 ^ 56)) o
        (λ x h k. store_le_outside 7 c (o + 3) (start % 2 ^ 56) x (inl k)))

  entry_disabled-write_entry :
      entry_disabled (write_entry c o mem start bytes) o ≡ entry_disabled c o
  unfolding entry_disabled set_entry_bytes
  entry_disabled-write_entry =
      rw
        (load_le_frame 3 header (write_entry c o mem start bytes) o
          (λ x h k. header_same x h (omega arith)))
        (omega (
          arith,
          load_le-store_le 3 (set_entry_addr c o start) o
              (load_le 3 (set_entry_addr c o start) o % 2 + 2 * (bytes % 2 ^ 23)) (omega arith),
          entry_disabled-set_entry_addr,
        ))

  -- What `log_range` writes at `tail_ptr` reads back: the address if it fits 56 bits, the length if
  -- it fits 23, and as many bytes of the memory from that address on. The `disabled` bit of the
  -- place and all bytes outside the entry stay as they were.
  pub write_entry_reads_back :
      start < 2 ^ 56
      → bytes < 2 ^ 23
      → (entry_addr (write_entry c o mem start bytes) o ≡ start)
        × (entry_bytes (write_entry c o mem start bytes) o ≡ bytes)
        × (entry_disabled (write_entry c o mem start bytes) o ≡ entry_disabled c o)
        × ((i : ℕ)
            → i < bytes
            → write_entry c o mem start bytes (o + header_size + i) ≡ mem (start + i))
        × ((x : ℕ)
            → (x < o) ⊎ (o + header_size + bytes ≤ x)
            → write_entry c o mem start bytes x ≡ c x)
  write_entry_reads_back h k = (
    entry_addr-write_entry h,
    entry_bytes-write_entry k,
    entry_disabled-write_entry,
    content-write_entry,
    write_entry_outside,
  )
