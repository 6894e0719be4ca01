-- ===== src/EventLog/Limits.antt =====
-- What the environment may set.
use agent_metrics.Prelude.{ℕ, ◌≤◌, inl, inr, String, Option, none, some, arith, Bool-cases}
use agent_metrics.Prelude.Texts.{◌=s◌}
use agent_metrics.Sync.Summary.{trim}
use agent_metrics.Sync.Utils.{JsNumber, whole, other, max_safe_integer}
use agent_metrics.EventLog.Rotation.{
  positive_or, read_positive_integer, resolve_event_log_rotation_config,
  default_event_log_max_bytes, default_event_log_retention_days,
}

abbrev IsLimit : ℕ → Type 0
IsLimit n = (1 ≤ n) × (n ≤ max_safe_integer)

module _ (number_of : String → JsNumber) where
  positive_or-IsLimit :
      (n : JsNumber) (fallback : ℕ) → IsLimit fallback → IsLimit (positive_or number_of n fallback)
  positive_or-IsLimit (whole n) fallback h = (ground (arith, h.0), ground (arith, h.1))
  positive_or-IsLimit other fallback h = h

  read_positive_integer-IsLimit :
      (raw : Option String) (fallback : ℕ)
      → IsLimit fallback
      → IsLimit (read_positive_integer number_of raw fallback)
  unfolding read_positive_integer
  read_positive_integer-IsLimit none fallback h = h
  read_positive_integer-IsLimit (some raw) fallback h =
      let kept = positive_or-IsLimit (number_of (trim raw)) fallback h in
      elim (Bool-cases (trim raw =s "")) [ inl blank ↦ rw (blank) h | inr full ↦ rw (full) kept ]

-- Whatever the environment says, and however texts are read as numbers, both limits of the
-- rotation are at least 1 and safe integers.
pub limits_are_positive :
    (number_of : String → JsNumber) (max_bytes retention_days : Option String)
    → ((1 ≤ (resolve_event_log_rotation_config number_of max_bytes retention_days).max_bytes)
        × ((resolve_event_log_rotation_config number_of max_bytes retention_days).max_bytes
            ≤ max_safe_integer))
      × ((1 ≤ (resolve_event_log_rotation_config number_of max_bytes retention_days).retention_days)
          × ((resolve_event_log_rotation_config number_of max_bytes retention_days).retention_days
              ≤ max_safe_integer))
unfolding resolve_event_log_rotation_config
limits_are_positive number_of max_bytes retention_days = (
  read_positive_integer-IsLimit number_of max_bytes default_event_log_max_bytes
      (omega arith, omega arith),
  read_positive_integer-IsLimit number_of retention_days default_event_log_retention_days
      (omega arith, omega arith),
)
