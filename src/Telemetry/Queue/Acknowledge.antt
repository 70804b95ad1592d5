-- ===== src/Telemetry/Queue/Acknowledge.antt =====
-- queue.py, `ack`: what it does to an entry that the processing list holds.
use cislunar_ground_platform.Base.{
  ◌+◌, ◌≤◌, none, List, [], ◌∷◌, Bytes, bytes_eq, ◌==◌, ==_iff, ok, ◌≡◌, refl, arith, inl, inr,
  Bool-cases, if◌then◌else◌, true,
}
use cislunar_ground_platform.Telemetry.Queue.Messages.{QueueMessage, to_json_bytes}
use cislunar_ground_platform.Telemetry.Queue.Lists.{Redis, get, del, lrem, ack_script, ack}
use cislunar_ground_platform.Telemetry.Queue.Transfers.{count, lrem-count}

-- One entry of the message has left the processing list, and nothing else has moved; the job has no
-- marker.
pub record Acknowledged (m : QueueMessage) (s s' : Redis) : Type 0 where
  pub removed :
      (raw : Bytes)
      → count raw s.processing
        ≡ count raw s'.processing + (if bytes_eq (to_json_bytes m) raw then 1 else 0)
  pub unmarked : get m.job_id s'.markers ≡ none
  pub pending : s'.pending ≡ s.pending
  pub failed : s'.failed ≡ s.failed

get-del : (key : Bytes) (markers : List (Bytes × Bytes)) → get key (del key markers) ≡ none
unfolding get del
get-del key [] = refl
get-del key ((k, v) ∷ rest) = elim (Bool-cases (bytes_eq k key)) [
  | inl e ↦ rw e (get-del key rest)
  | inr e ↦ rw (e, e) (get-del key rest)
]

-- `LREM` finds an entry that stands in the list.
lrem_found : (value : Bytes) (xs : List Bytes) → 1 ≤ count value xs → (lrem value xs).0 ≡ 1
unfolding lrem count
lrem_found value [] h = absurd (omega (arith, h))
lrem_found value (x ∷ xs) h = elim (Bool-cases (bytes_eq x value)) [
  | inl e ↦ rw e refl
  | inr e ↦ rw e (lrem_found value xs (ground arith))
]

-- An acknowledgement of an entry in the processing list returns.
pub ack-Acknowledged :
    (m : QueueMessage) (s : Redis)
    → 1 ≤ count (to_json_bytes m) s.processing
    → ((ack m s).0 ≡ ok tt) × Acknowledged m s (ack m s).1
unfolding ack ack_script
ack-Acknowledged m s held =
    let one = lrem_found (to_json_bytes m) s.processing held in
    let is_one : ((lrem (to_json_bytes m) s.processing).0 == 1) ≡ true = (==_iff _ 1).1 one in
    rw is_one (
      refl,
      record {
        removed = λ raw. ground (arith, one, lrem-count raw (to_json_bytes m) s.processing);
        unmarked = get-del m.job_id s.markers;
        pending = refl;
        failed = refl;
      },
    )
