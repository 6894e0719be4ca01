-- ===== src/EventLog/Keeping.antt =====
-- No rotation loses the log or an archive, whatever fails.
use text.Mathlib.TextEquality.{eq_iff}
use text.Mathlib.TextPositions.{eq_refl}
use agent_metrics.Prelude.{
  ℕ, zero, suc, ◌-◌, ◌*◌, ◌≡◌, refl, ◌⊎◌, inl, inr, String, true, false, not, ◌||◌, Option, some,
  arith, leb, if_cases, Bool-cases, Option-cases,
}
use agent_metrics.Prelude.Maps.{JsMap, has}
use agent_metrics.EventLog.Rotation.{
  Platform, Faults, LogFile, Disk, Trimmed, EventLogRotationResult, trim_event_log_file, ms_per_day,
  next_archive_path, replace_log, rotate_event_log_if_needed,
}

next_archive_path-free :
    (name : ℕ → String) (archive : JsMap LogFile) (left attempt : ℕ) (path : String)
    → next_archive_path name archive left attempt ≡ some path
    → has archive path ≡ false
unfolding next_archive_path
next_archive_path-free name archive zero attempt path e = cc
next_archive_path-free name archive (suc left) attempt path e =
    elim (Bool-cases (has archive (name attempt))) [
      | inl taken ↦ next_archive_path-free name archive left (suc attempt) path (ground arith)
      | inr free ↦ ground arith
    ]

-- The log is where it was, or it is in the archive and a copy of the lines given is in its place;
-- and every archive that was there is there.
abbrev pub Keeps : LogFile → JsMap LogFile → Trimmed → Disk → Type 0
Keeps file archive trimmed disk =
    ((disk.live ≡ some file)
      ⊎ ((path : String) × (disk.archive.get path ≡ some file)
          × ((copy : LogFile) × (disk.live ≡ some copy) × (copy.lines ≡ trimmed.written))))
    × ((old : String) (g : LogFile) → archive.get old ≡ some g → disk.archive.get old ≡ some g)

-- What a step keeps, of its result and the disk.
abbrev StepKeeps : LogFile → JsMap LogFile → Trimmed → Option EventLogRotationResult × Disk → Type 0
StepKeeps file archive trimmed result = Keeps file archive trimmed result.1

module _ (p : Platform) (name : ℕ → String) (faults : Faults) where
  replace_log-Keeps :
      (file copy : LogFile) (trimmed : Trimmed) (path : String) (disk : Disk)
      → faults.restore_fails ≡ false
      → disk.live ≡ some file
      → disk.temp ≡ some copy
      → copy.lines ≡ trimmed.written
      → has disk.archive path ≡ false
      → StepKeeps file disk.archive trimmed (replace_log p name faults file trimmed path disk)
  unfolding replace_log
  replace_log-Keeps file copy trimmed path disk sound live temp same free =
      if_cases (StepKeeps file disk.archive trimmed) faults.archive_rename_fails
        (λ stuck. (inl live, λ old g h. h))
        (λ moved.
          if_cases (StepKeeps file disk.archive trimmed) faults.replace_fails
            (λ fails.
              rw (sound)
                (inl (ground (arith, eq_refl path)), λ old g h. ground (arith, eq_iff path old)))
            (λ done. (
              inr (path, ground (arith, eq_refl path), (copy, temp, same)),
              λ old g h. ground (arith, eq_iff path old),
            )))

-- However large a log is that is there, and whatever of the file operations fails, unless a
-- failed replacement cannot be undone either: the log is afterwards where it was, with all its
-- lines, or it is whole in the archive and the trimmed copy is in its place; and no archive is
-- overwritten.
pub rotation_loses_nothing :
    (p : Platform) (name : ℕ → String) (faults : Faults) (max_bytes retention_days now_ms : ℕ)
    (disk : Disk) (file : LogFile)
    → faults.restore_fails ≡ false
    → disk.live ≡ some file
    → Keeps file disk.archive
        (trim_event_log_file p (now_ms - retention_days * ms_per_day) file.lines)
        (rotate_event_log_if_needed p name faults max_bytes retention_days now_ms disk).1
unfolding rotate_event_log_if_needed
rotation_loses_nothing p name faults max_bytes retention_days now_ms disk file sound live =
    let trimmed = trim_event_log_file p (now_ms - retention_days * ms_per_day) file.lines in
    let copy : LogFile = record {
      lines = trimmed.written;
      size = trimmed.kept_bytes;
      is_file = true;
    } in
    let ready = record disk { temp = some copy } in
    rw (live, rotate_event_log_if_needed)
      (if_cases (StepKeeps file disk.archive trimmed) (not file.is_file || leb file.size max_bytes)
        (λ small. (inl live, λ old g h. h))
        (λ large.
          if_cases (StepKeeps file disk.archive trimmed) faults.trim_fails
            (λ fails. (inl live, λ old g h. h))
            (λ written.
              if_cases (StepKeeps file disk.archive trimmed) faults.archive_lookup_fails
                (λ fails. (inl live, λ old g h. h))
                (λ looked. elim (Option-cases (next_archive_path name disk.archive 100 0)) [
                  | inl full ↦ rw (full) (inl live, λ old g h. h)
                  | inr (path, found) ↦ rw (found) (
                      replace_log-Keeps p name faults file copy trimmed path ready sound live refl
                        refl (next_archive_path-free name disk.archive 100 0 path found))
                ]))))
