-- ===== src/Telemetry/Queue/Lists.antt =====
-- queue.py: the Redis keys of the queue as a state, the five scripts, and `TelemetryQueue`. The
-- head of a list is its left end. A Redis step stays when the method raises afterwards, so a method
-- gives its outcome and the state in every case.
use cislunar_ground_platform.Base.{
  ℕ, zero, suc, ◌+◌, Bool, Option, none, some, List, [], ◌∷◌, Bytes, bytes_eq, length, ◌==◌,
  if◌then◌else◌, Result, ok, err,
}
use cislunar_ground_platform.Base.Int.{ℤ, pos, negsuc, eqb_ℤ, ltb_ℤ}
use cislunar_ground_platform.Telemetry.Queue.Messages.{
  QueueError, json_error, conflict_error, state_error, value_error, QueueMessage, to_json_bytes,
  Loaded, from_json_bytes,
}

-- `QueueKeys.for_namespace` gives distinct keys to the three lists; a marker key is the prefix and
-- the job identifier.
pub record Redis : Type 0 where
  pub pending : List Bytes
  pub processing : List Bytes
  pub failed : List Bytes
  pub markers : List (Bytes × Bytes)

-- GET
unfoldable pub get : Bytes → List (Bytes × Bytes) → Option Bytes
get key [] = none
get key ((k, v) ∷ rest) = if bytes_eq k key then some v else get key rest

-- DEL
unfoldable pub del : Bytes → List (Bytes × Bytes) → List (Bytes × Bytes)
del key [] = []
del key ((k, v) ∷ rest) = if bytes_eq k key then del key rest else (k, v) ∷ del key rest

-- LREM key 1 value: removes the first equal entry, and counts what it removed.
unfoldable pub lrem : Bytes → List Bytes → ℕ × List Bytes
lrem value [] = (0, [])
lrem value (x ∷ xs) =
    let rest = lrem value xs in if bytes_eq x value then (1, xs) else (rest.0, x ∷ rest.1)

-- RPOP: the right end, where the list is not empty.
unfoldable pub rpop : List Bytes → Option (Bytes × List Bytes)
rpop [] = none
rpop (x ∷ xs) = elim (rpop xs) [ none ↦ some (x, []) | some (y, ys) ↦ some (y, x ∷ ys) ]

-- The marker that the script has read decides.
unfoldable pub enqueue_marked : Option Bytes → Bytes → Bytes → Redis → ℤ × Redis
enqueue_marked none job_id raw s =
    (pos 1, record s { markers = (job_id, raw) ∷ s.markers; pending = raw ∷ s.pending })
enqueue_marked (some existing) job_id raw s =
    if bytes_eq existing raw then (pos 0, s) else (negsuc 0, s)

-- ENQUEUE_SCRIPT
unfoldable pub enqueue_script : Bytes → Bytes → Redis → ℤ × Redis
unfolding get enqueue_marked
enqueue_script job_id raw s = enqueue_marked (get job_id s.markers) job_id raw s

-- ACK_SCRIPT
unfoldable pub ack_script : Bytes → Bytes → Redis → ℕ × Redis
unfolding lrem del
ack_script job_id raw s =
    let (removed, rest) = lrem raw s.processing in
    let taken = record s { processing = rest } in
    (removed, if removed == 1 then record taken { markers = del job_id s.markers } else taken)

-- RETRY_SCRIPT
unfoldable pub retry_script : Bytes → Redis → ℕ × Redis
unfolding lrem
retry_script raw s =
    let (removed, rest) = lrem raw s.processing in
    let taken = record s { processing = rest } in
    (removed, if removed == 1 then record taken { pending = raw ∷ s.pending } else taken)

-- DEAD_LETTER_SCRIPT
unfoldable pub dead_letter_script : Bytes → Redis → ℕ × Redis
unfolding lrem
dead_letter_script raw s =
    let (removed, rest) = lrem raw s.processing in
    let taken = record s { processing = rest } in
    (removed, if removed == 1 then record taken { failed = raw ∷ s.failed } else taken)

-- RECOVER_PROCESSING_SCRIPT: RPOPLPUSH from processing to pending until there is nothing. The fuel
-- is the number of entries.
unfoldable pub recover_loop : ℕ → ℕ → List Bytes → List Bytes → ℕ × List Bytes × List Bytes
unfolding rpop
recover_loop zero recovered processing pending = (recovered, processing, pending)
recover_loop (suc fuel) recovered processing pending = elim (rpop processing) [
  | none ↦ (recovered, processing, pending)
  | some (item, rest) ↦ recover_loop fuel (recovered + 1) rest (item ∷ pending)
]

-- `recover_processing`
unfoldable pub recover_processing : Redis → ℕ × Redis
unfolding recover_loop
recover_processing s =
    let (recovered, processing, pending) =
      recover_loop (length s.processing) 0 s.processing s.pending in
    (recovered, record s { processing = processing; pending = pending })

unfoldable pub enqueue : QueueMessage → Redis → Result QueueError Bool × Redis
unfolding enqueue_script
enqueue m s =
    let (result, after) = enqueue_script m.job_id (to_json_bytes m) s in
    (if eqb_ℤ result (negsuc 0) then err conflict_error else ok (eqb_ℤ result (pos 1)), after)

-- The caller of a script that found nothing to remove raises.
abbrev removed_one : ℕ × Redis → Result QueueError (Unit {0}) × Redis
removed_one (removed, after) = (if removed == 1 then ok tt else err state_error, after)

-- `ack` and `acknowledge`
unfoldable pub ack : QueueMessage → Redis → Result QueueError (Unit {0}) × Redis
unfolding ack_script
ack m s = removed_one (ack_script m.job_id (to_json_bytes m) s)

unfoldable pub retry : QueueMessage → Redis → Result QueueError (Unit {0}) × Redis
unfolding retry_script
retry m s = removed_one (retry_script (to_json_bytes m) s)

unfoldable pub dead_letter : QueueMessage → Redis → Result QueueError (Unit {0}) × Redis
unfolding dead_letter_script
dead_letter m s = removed_one (dead_letter_script (to_json_bytes m) s)

-- A malformed entry is kept in the failed list, and the exception goes on. Another exception leaves
-- the entry in the processing list.
unfoldable pub claimed :
    Result QueueError QueueMessage → Bytes → Redis → Result QueueError (Option QueueMessage) × Redis
unfolding dead_letter_script
claimed (ok m) raw s = (ok (some m), s)
claimed (err json_error) raw s = (err json_error, s)
claimed (err e) raw s =
    let (removed, after) = dead_letter_script raw s in
    (if removed == 1 then err e else err state_error, after)

-- What BRPOPLPUSH took from the pending list; nothing where the list stays empty until the timeout.
unfoldable pub claim_taken :
    (Bytes → Option Loaded)
    → Option (Bytes × List Bytes)
    → Redis
    → Result QueueError (Option QueueMessage) × Redis
unfolding claimed
claim_taken loads none s = (ok none, s)
claim_taken loads (some (raw, rest)) s =
    claimed (from_json_bytes loads raw) raw
      (record s { pending = rest; processing = raw ∷ s.processing })

unfoldable pub claim :
    (Bytes → Option Loaded) → ℤ → Redis → Result QueueError (Option QueueMessage) × Redis
unfolding rpop claim_taken
claim loads timeout_seconds s =
    if ltb_ℤ timeout_seconds (pos 0)
    then (err value_error, s)
    else claim_taken loads (rpop s.pending) s

abbrev pub queue_depth : Redis → ℕ
queue_depth s = length s.pending

abbrev pub processing_depth : Redis → ℕ
processing_depth s = length s.processing

abbrev pub failed_depth : Redis → ℕ
failed_depth s = length s.failed
