-- ===== src/Telemetry/Sequence/Examples.antt =====
-- Concrete decisions of sequence.py: gaps, a wrap of the counter, and a late packet.
use cislunar_ground_platform.Base.{
  ℕ, ◌+◌, ◌%◌, ◌^◌, ◌≡◌, refl, true, none, some, List, [], ◌∷◌, Bytes, ok, Ensures, arith,
}
use cislunar_ground_platform.Base.Int.{pos, ◌-ℤ◌}
use cislunar_ground_platform.Telemetry.Sequence.{decide_sequence, late_or_out_of_order}
use cislunar_ground_platform.Telemetry.Sequence.Decisions.{
  Agrees, IsRepeat, decide_sequence_new, decide_sequence_existing, decide_sequence_antisym,
}
use cislunar_ground_platform.Telemetry.Sequence.Runs.{
  Session, empty_session, follow, follow_accounts,
}

-- The packet after the greatest sequence number is in order.
decide_sequence_new_example :
    Ensures
      (λ r. Agrees 0 4294967295 1 r × (r.accepted ≡ true) × (r.should_queue ≡ true))
      (decide_sequence (some (pos 4294967295)) (pos 0) (1 ∷ 9 ∷ []) none)
decide_sequence_new_example =
    decide_sequence_new 0 4294967295 1 (9 ∷ []) (omega arith) (omega arith) (λ h. omega (arith, h))

decide_sequence_existing_example :
    Ensures
      (IsRepeat (some (pos 8)) (1 ∷ 2 ∷ []) (1 ∷ 3 ∷ []))
      (decide_sequence (some (pos 8)) (pos 5) (1 ∷ 2 ∷ []) (some (1 ∷ 3 ∷ [])))
decide_sequence_existing_example =
    decide_sequence_existing (some (pos 8)) 5 1 (2 ∷ []) (1 ∷ 3 ∷ []) (omega arith) refl

advances :
    Ensures
      (λ r. r.should_advance_high_water ≡ true)
      (decide_sequence (some (pos 4)) (pos 9) (1 ∷ []) none)
unfolding decide_sequence ◌-ℤ◌
advances = refl

decide_sequence_antisym_example :
    Ensures
      (λ r. (r.disposition ≡ late_or_out_of_order) × (r.next_high_water ≡ some (pos 9)))
      (decide_sequence (some (pos 9)) (pos 4) (1 ∷ []) none)
decide_sequence_antisym_example =
    decide_sequence_antisym 9 4 1 [] (omega arith) (omega arith) advances

-- First 1 (one missing), then 4 (two missing), then the late 3, then 5.
abbrev packets : List (ℕ × ℕ × Bytes)
packets = (1, 1, []) ∷ (4, 1, []) ∷ (3, 1, []) ∷ (5, 1, []) ∷ []

abbrev session_after : Session
session_after = record { high_water = some (pos 5); advanced = 3; missing = 3 }

followed : follow empty_session packets ≡ ok session_after
unfolding follow decide_sequence ◌-ℤ◌
followed = refl

follow_accounts_example : (3 + 3) % 2 ^ 32 ≡ (5 + 1) % 2 ^ 32
follow_accounts_example = follow_accounts packets session_after 5 (ground arith) followed refl
