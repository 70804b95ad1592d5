-- ===== src/Telemetry/Queue/Examples.antt =====
-- Two references in the queue, and each property at them. The entry is read by a function that knows
-- the two entries.
use cislunar_ground_platform.Base.{
  ℕ, true, false, Option, none, some, [], ◌∷◌, Bytes, bytes_eq, if◌then◌else◌, ok, err, ◌≡◌, ◌≢◌,
  refl,
}
use cislunar_ground_platform.Base.Int.{pos}
use cislunar_ground_platform.Std.Unicode.{is_decimal, is_space}
use cislunar_ground_platform.Telemetry.Queue.Messages.{
  QueueMessage, conflict_error, queue_message, to_json_bytes, Loaded, object, text, job_key,
  packet_key,
}
use cislunar_ground_platform.Telemetry.Queue.Lists.{
  Redis, get, del, enqueue, claim, ack, recover_processing,
}
use cislunar_ground_platform.Telemetry.Queue.Lifecycle.{
  IsValidMessage, Reads, idle_queue, enqueue-repeat, enqueue-claim-ack,
}
use cislunar_ground_platform.Telemetry.Queue.Recovery.{recover_processing-all}
use cislunar_ground_platform.Telemetry.Queue.Transfers.{
  Conserves, here, next, claims, recovers, Moves-Conserves,
}

-- 0f0e0d0c-0b0a-4908-8706-050403020100
abbrev job : Bytes
job =
    b'0' ∷ b'f' ∷ b'0' ∷ b'e' ∷ b'0' ∷ b'd' ∷ b'0' ∷ b'c' ∷ b'-' ∷ b'0' ∷ b'b' ∷ b'0' ∷ b'a' ∷ b'-'
    ∷ b'4' ∷ b'9' ∷ b'0' ∷ b'8' ∷ b'-' ∷ b'8' ∷ b'7' ∷ b'0' ∷ b'6' ∷ b'-' ∷ b'0' ∷ b'5' ∷ b'0'
    ∷ b'4' ∷ b'0' ∷ b'3' ∷ b'0' ∷ b'2' ∷ b'0' ∷ b'1' ∷ b'0' ∷ b'0' ∷ []

-- TLM-P01-B00000007-S00000003 and -S00000004
abbrev packet : ℕ → Bytes
packet last =
    b'T' ∷ b'L' ∷ b'M' ∷ b'-' ∷ b'P' ∷ b'0' ∷ b'1' ∷ b'-' ∷ b'B' ∷ b'0' ∷ b'0' ∷ b'0' ∷ b'0' ∷ b'0'
    ∷ b'0' ∷ b'0' ∷ b'7' ∷ b'-' ∷ b'S' ∷ b'0' ∷ b'0' ∷ b'0' ∷ b'0' ∷ b'0' ∷ b'0' ∷ b'0' ∷ last ∷ []

abbrev message : QueueMessage
message = record { job_id = job; packet_id = packet b'3' }

abbrev rival : QueueMessage
rival = record { job_id = job; packet_id = packet b'4' }

abbrev loads : Bytes → Option Loaded
loads raw =
    if bytes_eq raw (to_json_bytes message)
    then some (object ((job_key, text job) ∷ (packet_key, text message.packet_id) ∷ []))
    else none

valid : IsValidMessage message
unfolding queue_message is_decimal is_space
valid = refl

read_back : Reads loads message
unfolding to_json_bytes bytes_eq
read_back = refl

unmarked : get message.job_id [] ≡ none
unfolding get
unmarked = refl

enqueue-claim-ack_example :
    ((enqueue message (idle_queue [] [] [])).0 ≡ ok true)
    × ((claim loads (pos 5) (enqueue message (idle_queue [] [] [])).1).0 ≡ ok (some message))
    × (ack message (claim loads (pos 5) (enqueue message (idle_queue [] [] [])).1).1
        ≡ (ok tt, idle_queue [] [] (del message.job_id [])))
enqueue-claim-ack_example = enqueue-claim-ack loads message 5 [] [] [] valid read_back unmarked

enqueued : (enqueue message (idle_queue [] [] [])).0 ≡ ok true
unfolding enqueue
enqueued = refl

enqueue-repeat_example :
    (to_json_bytes rival ≡ to_json_bytes message
      → enqueue rival (enqueue message (idle_queue [] [] [])).1
        ≡ (ok false, (enqueue message (idle_queue [] [] [])).1))
    × (to_json_bytes rival ≢ to_json_bytes message
        → enqueue rival (enqueue message (idle_queue [] [] [])).1
          ≡ (err conflict_error, (enqueue message (idle_queue [] [] [])).1))
enqueue-repeat_example = enqueue-repeat message rival true (idle_queue [] [] []) enqueued refl

abbrev stranded : Redis
stranded = record {
  pending = (3 ∷ []) ∷ [];
  processing = (2 ∷ []) ∷ (1 ∷ []) ∷ [];
  failed = [];
  markers = [];
}

recover_processing-all_example :
    recover_processing stranded
    ≡ (2, record stranded { processing = []; pending = (2 ∷ []) ∷ (1 ∷ []) ∷ (3 ∷ []) ∷ [] })
recover_processing-all_example = recover_processing-all stranded

-- A malformed entry is claimed, and then the rest recovered.
Moves-Conserves_example : Conserves stranded (recover_processing (claim loads (pos 1) stranded).1).1
Moves-Conserves_example =
    Moves-Conserves stranded (recover_processing (claim loads (pos 1) stranded).1).1
      (next (next here (claims loads (pos 1))) recovers)
