-- ===== src/StoreInst/Recovery/First.antt =====
-- Which of the logs that a file depends on are recovered.
use snapshot_public.Prelude.{
  ◌≡◌, refl, ◌∙◌, ◌⊎◌, inl, inr, true, false, none, some, List, [], ◌∷◌, ◌++◌, All, arith, ap,
  Option-cases, Bool-cases,
}
use snapshot_public.StoreInst.Log.{Layout}
use snapshot_public.StoreInst.Recovery.{Dependency, LogFiles, is_active, needs_recovery}

-- The log file is missing, or its log is not active.
abbrev pub IsIdle : LogFiles → Dependency → Type 0
IsIdle logs d =
    (logs d.pid d.tid ≡ none)
    ⊎ ((log : Layout) × (logs d.pid d.tid ≡ some log) × (is_active log.state ≡ false))

needs_recovery-idle :
    (logs : LogFiles) (d : Dependency) (ds : List Dependency)
    → IsIdle logs d
    → needs_recovery logs (d ∷ ds) ≡ needs_recovery logs ds
unfolding needs_recovery
needs_recovery-idle logs d ds (inl e) = ground arith
needs_recovery-idle logs d ds (inr (log, e, f)) = ground arith

needs_recovery-active :
    (logs : LogFiles) (d : Dependency) (ds : List Dependency) (log : Layout)
    → logs d.pid d.tid ≡ some log
    → is_active log.state ≡ true
    → needs_recovery logs (d ∷ ds) ≡ d ∷ []
unfolding needs_recovery
needs_recovery-active logs d ds log e f = ground arith

IsIdle-cases :
    (logs : LogFiles) (d : Dependency)
    → IsIdle logs d
      ⊎ ((log : Layout) × (logs d.pid d.tid ≡ some log) × (is_active log.state ≡ true))
IsIdle-cases logs d = elim (Option-cases (logs d.pid d.tid)) [
  | inl missing ↦ inl (inl missing)
  | inr (log, found) ↦ elim (Bool-cases (is_active log.state)) [
    | inl on ↦ inr (log, found, on)
    | inr off ↦ inl (inr (log, found, off))
  ]
]

-- The dependency is the first one whose log is active.
pub record IsLeading (logs : LogFiles) (deps : List Dependency) (d : Dependency) : Type 0 where
  pub before : List Dependency
  pub after : List Dependency
  pub split : before ++ d ∷ after ≡ deps
  pub idle : All (IsIdle logs) before
  pub log : Layout
  pub found : logs d.pid d.tid ≡ some log
  pub on : is_active log.state ≡ true

-- Of the dependencies of a file `needs_recovery` returns the first one whose log is active, and no
-- other, and none if no log is active.
pub needs_recovery_first :
    (logs : LogFiles) (deps : List Dependency)
    → (All (IsIdle logs) deps × (needs_recovery logs deps ≡ []))
      ⊎ ((d : Dependency) × IsLeading logs deps d × (needs_recovery logs deps ≡ d ∷ []))
needs_recovery_first logs [] = inl (tt, unfold needs_recovery in refl)
needs_recovery_first logs (d ∷ ds) = elim (IsIdle-cases logs d) [
  | inl idle ↦ elim (needs_recovery_first logs ds) [
    | inl (all, e) ↦ inl ((idle, all), needs_recovery-idle logs d ds idle ∙ e)
    | inr (d', first, e) ↦ inr (
      d',
      record {
        before = d ∷ first.before;
        after = first.after;
        split = ap (λ t. d ∷ t) first.split;
        idle = (idle, first.idle);
        log = first.log;
        found = first.found;
        on = first.on;
      },
      needs_recovery-idle logs d ds idle ∙ e,
    )
  ]
  | inr (log, found, on) ↦ inr (
    d,
    record { before = []; after = ds; split = refl; idle = tt; log = log; found = found; on = on },
    needs_recovery-active logs d ds log found on,
  )
]
