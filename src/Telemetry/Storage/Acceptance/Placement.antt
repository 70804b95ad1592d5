-- ===== src/Telemetry/Storage/Acceptance/Placement.antt =====
-- The sequence rule that storage.py applies, beside `decide_sequence` of sequence.py.
use cislunar_ground_platform.Base.{
  ℕ, ◌^◌, ◌<◌, true, false, Option, none, some, ◌∷◌, Bytes, if◌then◌else◌, Result, ok, err, ◌≡◌,
  arith,
}
use cislunar_ground_platform.Base.Int.{ℤ, pos, eqb_ℤ}
use cislunar_ground_platform.Telemetry.Sequence as Rule
use cislunar_ground_platform.Telemetry.Storage.Records.{SequenceDisposition, TelemetrySequenceState}
use cislunar_ground_platform.Telemetry.Storage.Acceptance.{place}

abbrev pub mark : Option TelemetrySequenceState → Option ℤ
mark none = none
mark (some s) = some s.high_water_sequence

-- The decision that a placement stands for: the same disposition, the same count of missing packets,
-- and the mark moved where the packet is ahead.
abbrev pub decision :
    Option ℤ
    → ℤ
    → Option (SequenceDisposition × ℤ)
    → Result Rule.SequenceError Rule.SequenceDecision
decision last current none = err Rule.state_error
decision last current (some (d, missing)) = ok (record {
  disposition = elim d [
    | SequenceDisposition.first ↦
        if eqb_ℤ missing (pos 0) then Rule.first_in_order else Rule.first_with_gap
    | SequenceDisposition.in_order ↦ Rule.in_order
    | SequenceDisposition.gap ↦ Rule.gap
    | SequenceDisposition.late ↦ Rule.late_or_out_of_order
  ];
  accepted = true;
  should_queue = true;
  should_advance_high_water = elim d [ SequenceDisposition.late ↦ false | _ ↦ true ];
  next_high_water = elim d [ SequenceDisposition.late ↦ last | _ ↦ some current ];
  missing_count = missing;
})

-- The stored high-water value is an unsigned 32-bit number.
abbrev pub IsUint32Mark : Option TelemetrySequenceState → Type 0
IsUint32Mark none = Unit {0}
IsUint32Mark (some s) = (h : ℕ) × (s.high_water_sequence ≡ pos h) × (h < 2 ^ 32)

-- On unsigned 32-bit values the rule written out in the transaction is the rule of
-- `decide_sequence` for a packet without a record: the same errors, dispositions, missing counts
-- and marks.
pub place-decide_sequence :
    (state : Option TelemetrySequenceState) (c byte : ℕ) (bytes : Bytes)
    → IsUint32Mark state
    → c < 2 ^ 32
    → Rule.decide_sequence (mark state) (pos c) (byte ∷ bytes) none
      ≡ decision (mark state) (pos c) (place state (pos c))
unfolding Rule.decide_sequence place
place-decide_sequence none c byte bytes h hc = ground arith
place-decide_sequence (some s) c byte bytes (h, e, bound) hc = ground arith
