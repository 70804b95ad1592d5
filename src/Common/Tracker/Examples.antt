-- ===== src/Common/Tracker/Examples.antt =====
-- common/sequence.py: two APIDs whose packets arrive interleaved, one count passing 2 ^ 14.
use cislunar_ground_platform.Base.{List, [], ◌∷◌, ◌+◌, ◌%◌, some, ◌≡◌, refl, arith}
use cislunar_ground_platform.Common.Tracker.{SequenceTracker, fresh_tracker, observe}
use cislunar_ground_platform.Common.Tracker.Gaps.{
  Packet, InOrder, missing_of, received_of, last_of, missing_of-received_of,
}

abbrev started : SequenceTracker
started = (observe 100 16382 fresh_tracker).1

abbrev packets : List Packet
packets = (100, 16383) ∷ (101, 5) ∷ (100, 16386) ∷ []

started_known : started.last 100 ≡ some (16382 % 16384)
unfolding observe
started_known = refl

counted : missing_of 100 packets started ≡ 2
unfolding missing_of observe
counted = refl

packets-InOrder : InOrder 100 16382 packets
packets-InOrder = (
  λ h. (
    omega arith,
    omega arith,
    (λ h. ground arith, λ h. (λ h. (omega arith, omega arith, tt), λ h. tt)),
  ),
  λ h. ground arith,
)

missing_of-received_of_example :
    16382 + received_of 100 packets + missing_of 100 packets started ≡ last_of 100 16382 packets
missing_of-received_of_example =
    missing_of-received_of 100 16382 packets started started_known packets-InOrder
