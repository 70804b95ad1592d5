-- ===== src/Telemetry/Sequence.antt =====
-- mission_ground/telemetry/sequence.py: the decision on one validated frame. The tests on Python
-- types (`isinstance`) have no counterpart, since the arguments are typed.
pub mod Decisions
pub mod Runs
mod Examples
use cislunar_ground_platform.Base.{
  ℕ, ◌-◌, ◌^◌, ◌≤◌, Bool, true, false, not, ◌&&◌, ◌||◌, Option, none, some, [], ◌∷◌, Bytes,
  bytes_eq, ltb, leb, ◌==◌, if◌then◌else◌, Result, ok, err, ◌>>=◌, ◌>>◌, raise_if,
}
use cislunar_ground_platform.Base.Int.{ℤ, pos, ◌-ℤ◌, leb_ℤ, eqb_ℤ, wrap32}

abbrev pub uint32_modulus : ℕ
uint32_modulus = 2 ^ 32

abbrev pub uint32_max : ℕ
uint32_max = 2 ^ 32 - 1

abbrev pub half_range : ℕ
half_range = 2 ^ 31

pub data SequenceDisposition : Type 0 where
  first_in_order first_with_gap in_order gap : SequenceDisposition
  duplicate conflict late_or_out_of_order : SequenceDisposition

-- `ValueError`, and `SequenceStateError`
pub data SequenceError : Type 0 where
  value_error state_error : SequenceError

pub record SequenceDecision : Type 0 where
  pub disposition : SequenceDisposition
  pub accepted : Bool
  pub should_queue : Bool
  pub should_advance_high_water : Bool
  pub next_high_water : Option ℤ
  pub missing_count : ℤ

abbrev pub is_unique : SequenceDecision → Bool
is_unique d = elim d.disposition [ duplicate ↦ false | conflict ↦ false | _ ↦ true ]

abbrev pub validate_uint32 : ℤ → Result SequenceError (Unit {0})
validate_uint32 value =
    raise_if (not (leb_ℤ (pos 0) value && leb_ℤ value (pos uint32_max))) value_error

abbrev pub validate_high_water : Option ℤ → Result SequenceError (Unit {0})
validate_high_water none = ok tt
validate_high_water (some value) = validate_uint32 value

abbrev is_empty : Bytes → Bool
is_empty [] = true
is_empty (b ∷ bs) = false

-- A packet record exists under the same key.
unfoldable pub decide_existing : Option ℤ → Bytes → Bytes → SequenceDecision
decide_existing last_high_water incoming existing =
    if bytes_eq existing incoming
    then record {
      disposition = duplicate;
      accepted = true;
      should_queue = false;
      should_advance_high_water = false;
      next_high_water = last_high_water;
      missing_count = pos 0;
    }
    else record {
      disposition = conflict;
      accepted = false;
      should_queue = false;
      should_advance_high_water = false;
      next_high_water = last_high_water;
      missing_count = pos 0;
    }

-- The first packet of a boot session.
unfoldable pub decide_first : ℤ → SequenceDecision
decide_first current = record {
  disposition = if eqb_ℤ current (pos 0) then first_in_order else first_with_gap;
  accepted = true;
  should_queue = true;
  should_advance_high_water = true;
  next_high_water = some current;
  missing_count = current;
}

abbrev advancing : SequenceDisposition → ℤ → ℕ → SequenceDecision
advancing disposition current missing = record {
  disposition = disposition;
  accepted = true;
  should_queue = true;
  should_advance_high_water = true;
  next_high_water = some current;
  missing_count = pos missing;
}

abbrev late : ℤ → SequenceDecision
late last = record {
  disposition = late_or_out_of_order;
  accepted = true;
  should_queue = true;
  should_advance_high_water = false;
  next_high_water = some last;
  missing_count = pos 0;
}

abbrev pub forward_distance : ℤ → ℤ → ℕ
forward_distance current last = wrap32 (current -ℤ last)

-- A new packet after the high-water mark `last`.
unfoldable pub decide_next : ℤ → ℤ → Result SequenceError SequenceDecision
decide_next last current =
    let distance = forward_distance current last in
    if distance == 0
    then err state_error
    else if distance == 1
    then ok (advancing in_order current 0)
    else if leb 2 distance && ltb distance half_range
    then ok (advancing gap current (distance - 1))
    else ok (late last)

decide_new : Option ℤ → ℤ → Result SequenceError SequenceDecision
decide_new none current = ok (decide_first current)
decide_new (some last) current = decide_next last current

decide_stored : Option ℤ → ℤ → Bytes → Option Bytes → Result SequenceError SequenceDecision
unfolding decide_new decide_existing decide_first decide_next
decide_stored last_high_water current incoming none = decide_new last_high_water current
decide_stored last_high_water current incoming (some existing) =
    ok (decide_existing last_high_water incoming existing)

unfoldable pub decide_sequence :
    Option ℤ → ℤ → Bytes → Option Bytes → Result SequenceError SequenceDecision
unfolding decide_stored
decide_sequence last_high_water current incoming existing = do
  validate_uint32 current
  validate_high_water last_high_water
  raise_if (is_empty incoming) value_error
  decide_stored last_high_water current incoming existing
