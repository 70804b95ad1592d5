-- ===== src/Common/Tracker.antt =====
-- common/sequence.py: the gaps in the 14-bit packet counts of each APID.
pub mod Gaps
pub mod Examples
use cislunar_ground_platform.Base.{ℕ, ◌+◌, ◌-◌, ◌%◌, Option, none, some, ◌==◌, if◌then◌else◌}

-- `_last`, with `none` where the dictionary has no key.
pub record SequenceTracker : Type 0 where
  last : ℕ → Option ℕ

abbrev pub fresh_tracker : SequenceTracker
fresh_tracker = record { last = λ apid. none }

-- `& MAX_SEQUENCE` is the remainder modulo 2 ^ 14.
abbrev pub expected_after : ℕ → ℕ
expected_after previous = (previous + 1) % 16384

-- `current - expected` may be negative in Python; `expected` is below 2 ^ 14, which is added first.
abbrev pub missing_before : ℕ → ℕ → ℕ
missing_before previous current =
    if current == expected_after previous
    then 0
    else (current + 16384 - expected_after previous) % 16384

abbrev pub remember : ℕ → ℕ → SequenceTracker → SequenceTracker
remember apid current tracker = record {
  last = λ key. if key == apid then some current else tracker.last key;
}

unfoldable pub observe : ℕ → ℕ → SequenceTracker → ℕ × SequenceTracker
observe apid current tracker = (
  elim (tracker.last apid) [ none ↦ 0 | some previous ↦ missing_before previous current ],
  remember apid current tracker,
)
