-- ===== src/StoreInst/Apply/Loop.antt =====
-- The loop of `snapshot` over a log as a whole, and its two counters.
use snapshot_public.Prelude.{
  ℕ, ◌+◌, ◌≤◌, ◌<◌, ◌≡◌, refl, ◌⊎◌, inl, inr, true, false, Option, none, some, List, [], ◌∷◌,
  Bool-cases, arith, Any, All,
}
use snapshot_public.StoreInst.Memory.{Mem, word}
use snapshot_public.StoreInst.Log.{LeanEntry}
use snapshot_public.StoreInst.Apply.{
  Progress, in_range, skip_entry, copy_entry, apply_one, is_break, apply_entries,
}
use snapshot_public.StoreInst.Apply.Copies.{
  IsPlaced, mirror, Holds, copy_entry_covers, copy_entry_stays, kept_trans, kept_of_eq,
}

-- The byte `x` is logged by the entry, which lies in the range of the snapshot.
abbrev pub IsWanted : ℕ → ℕ → ℕ → LeanEntry → Type 0
IsWanted start diff x e = (in_range start diff e ≡ true) × Holds x e

module _ (start_addr pm_back : ℕ) (mem : Mem) (start diff : ℕ) where
  apply_one_counts :
      (prev : Option LeanEntry) (e : LeanEntry) (p : Progress)
      → p.applied_cnt ≡ p.entry_cnt
      → (apply_one start_addr pm_back mem start diff prev e p).applied_cnt
        ≡ (apply_one start_addr pm_back mem start diff prev e p).entry_cnt
  unfolding apply_one copy_entry
  apply_one_counts prev e p h = ground arith

  -- Every entry in range is applied, by a copy or as a repetition of the entry before it.
  pub apply_entries_counts :
      (es : List LeanEntry) (prev : Option LeanEntry) (p : Progress)
      → p.applied_cnt ≡ p.entry_cnt
      → (apply_entries start_addr pm_back mem start diff prev es p).applied_cnt
        ≡ (apply_entries start_addr pm_back mem start diff prev es p).entry_cnt
  unfolding apply_entries
  apply_entries_counts [] prev p h = h
  apply_entries_counts (e ∷ es) prev p h =
      let q = apply_one start_addr pm_back mem start diff prev e p in
      let one = apply_one_counts prev e p h in
      elim (Bool-cases (is_break start diff prev e)) [
        | inl stop ↦ rw stop one
        | inr on ↦ rw on (
            apply_entries_counts es (some e)
              (record q {
                bytes_flushed = q.bytes_flushed + e.bytes;
                total_proc = q.total_proc + 1;
              })
              one)
      ]

  module _ (margin : 512 ≤ start_addr) (start_fits : start_addr < word) (back_fits : pm_back < word)
      (x : ℕ) (tracked : start_addr ≤ x) where
    abbrev IsCopied : Mem → Type 0
    IsCopied backing = backing (mirror start_addr pm_back x) ≡ mem x

    no_break :
        (prev : Option LeanEntry) (e : LeanEntry)
        → IsPlaced start_addr pm_back e
        → is_break start diff prev e ≡ false
    unfolding is_break
    no_break prev e h = ground arith

    apply_one_stays :
        (prev : Option LeanEntry) (e : LeanEntry) (p : Progress)
        → IsPlaced start_addr pm_back e
        → ((apply_one start_addr pm_back mem start diff prev e p).backing
              (mirror start_addr pm_back x)
            ≡ p.backing (mirror start_addr pm_back x))
          ⊎ IsCopied (apply_one start_addr pm_back mem start diff prev e p).backing
    unfolding apply_one
    apply_one_stays prev e p h = elim (Bool-cases (in_range start diff e)) [
      | inr out ↦ rw out (inl refl)
      | inl hit ↦ elim (Bool-cases (skip_entry prev e)) [
        | inl skip ↦ rw (hit, skip) (inl refl)
        | inr new ↦
            rw (hit, new)
              (copy_entry_stays start_addr pm_back mem margin start_fits back_fits x tracked e
                (record p { entry_cnt = p.entry_cnt + 1; applied_cnt = p.applied_cnt + 1 }) h)
      ]
    ]

    -- What is known of the entry before: if its bytes are wanted they are copied.
    abbrev IsDone : Option LeanEntry → Mem → Type 0
    IsDone none backing = Unit
    IsDone (some e) backing = IsWanted start diff x e → IsCopied backing

    skip-done :
        (prev : Option LeanEntry) (e : LeanEntry) (backing : Mem)
        → skip_entry prev e ≡ true
        → IsDone prev backing
        → IsWanted start diff x e
        → IsCopied backing
    unfolding skip_entry in_range
    skip-done none e backing s d w = cc
    skip-done (some e') e backing s d w = d (ground arith)

    apply_one_covers :
        (prev : Option LeanEntry) (e : LeanEntry) (p : Progress)
        → IsPlaced start_addr pm_back e
        → IsDone prev p.backing
        → IsWanted start diff x e
        → IsCopied (apply_one start_addr pm_back mem start diff prev e p).backing
    unfolding apply_one
    apply_one_covers prev e p h d w = elim (Bool-cases (skip_entry prev e)) [
      | inl skip ↦ rw (w.0, skip) (skip-done prev e p.backing skip d w)
      | inr new ↦
          rw (w.0, new)
            (copy_entry_covers start_addr pm_back mem margin start_fits back_fits x tracked e
              (record p { entry_cnt = p.entry_cnt + 1; applied_cnt = p.applied_cnt + 1 }) h w.1)
    ]

    step-done :
        (prev : Option LeanEntry) (e : LeanEntry) (p : Progress)
        → IsPlaced start_addr pm_back e
        → IsDone prev p.backing
        → IsCopied p.backing ⊎ IsWanted start diff x e
        → IsCopied (apply_one start_addr pm_back mem start diff prev e p).backing
    step-done prev e p h d (inl c) = kept_of_eq (apply_one_stays prev e p h) c
    step-done prev e p h d (inr w) = apply_one_covers prev e p h d w

    -- The loop copies every wanted byte, and keeps what is copied.
    pub apply_entries_covers :
        (es : List LeanEntry) (prev : Option LeanEntry) (p : Progress)
        → All (IsPlaced start_addr pm_back) es
        → IsDone prev p.backing
        → IsCopied p.backing ⊎ Any (IsWanted start diff x) es
        → IsCopied (apply_entries start_addr pm_back mem start diff prev es p).backing
    unfolding apply_entries
    apply_entries_covers [] prev p a d (inl c) = c
    apply_entries_covers [] prev p a d (inr w) = absurd w
    apply_entries_covers (e ∷ es) prev p a d w =
        let q = apply_one start_addr pm_back mem start diff prev e p in
        let q' = record q {
          bytes_flushed = q.bytes_flushed + e.bytes;
          total_proc = q.total_proc + 1;
        } in
        let done : IsDone (some e) q.backing = λ v. apply_one_covers prev e p a.0 d v in
        let held : IsCopied p.backing → IsCopied q.backing =
          λ c. step-done prev e p a.0 d (inl c) in
        rw (no_break prev e a.0)
          (apply_entries_covers es (some e) q' a.1 done (sort_out held done w))
      where
        sort_out : {P C C' W : Type 0} → (C → C') → (P → C') → C ⊎ (P ⊎ W) → C' ⊎ W
        sort_out held done (inl c) = inl (held c)
        sort_out held done (inr (inl w)) = inl (done w)
        sort_out held done (inr (inr ws)) = inr ws

    -- It changes a byte of the backing file only to that of the page cache.
    pub apply_entries_stays :
        (es : List LeanEntry) (prev : Option LeanEntry) (p : Progress)
        → All (IsPlaced start_addr pm_back) es
        → ((apply_entries start_addr pm_back mem start diff prev es p).backing
              (mirror start_addr pm_back x)
            ≡ p.backing (mirror start_addr pm_back x))
          ⊎ IsCopied (apply_entries start_addr pm_back mem start diff prev es p).backing
    unfolding apply_entries
    apply_entries_stays [] prev p a = inl refl
    apply_entries_stays (e ∷ es) prev p a =
        let q = apply_one start_addr pm_back mem start diff prev e p in
        let q' = record q {
          bytes_flushed = q.bytes_flushed + e.bytes;
          total_proc = q.total_proc + 1;
        } in
        rw (no_break prev e a.0)
          (kept_trans (apply_one_stays prev e p a.0) (apply_entries_stays es (some e) q' a.1))
