-- ===== src/Telemetry/Storage/History/Packets.antt =====
-- An accepted packet stays as it is along any run of the services.
use cislunar_ground_platform.Base.{
  some, List, ◌∷◌, Bytes, bytes_eq, bytes_eq→eq, false, ◌≡◌, ap, ◌∙◌, inl, inr, Bool-cases,
}
use cislunar_ground_platform.Telemetry.Storage.Records.{LogicalTelemetryPacket}
use cislunar_ground_platform.Telemetry.Storage.Tables.{Db, find, is_some, packet_is, get_packet}
use cislunar_ground_platform.Telemetry.Storage.History.{Run, here, next}
use cislunar_ground_platform.Telemetry.Storage.History.Progress.{Change, idle, moves, adds}
use cislunar_ground_platform.Telemetry.Storage.History.Changes.{Step-Change}

packet-cons :
    (i : Bytes) (q p : LogicalTelemetryPacket) (ps : List LogicalTelemetryPacket)
    → is_some (find (packet_is q.packet_id) ps) ≡ false
    → find (packet_is i) ps ≡ some p
    → find (packet_is i) (q ∷ ps) ≡ some p
packet-cons i q p ps new found = elim (Bool-cases (bytes_eq q.packet_id i)) [
  | inl e ↦ cc (new, found, bytes_eq→eq q.packet_id i e)
  | inr e ↦ unfold find in rw e found
]

Change-get_packet :
    (db db' : Db) (i : Bytes) (p : LogicalTelemetryPacket)
    → Change db db'
    → get_packet i db ≡ some p
    → get_packet i db' ≡ some p
Change-get_packet db db' i p (idle same) found = ap (find (packet_is i)) same.1 ∙ found
Change-get_packet db db' i p (moves j k there change jobs packets) found =
    ap (find (packet_is i)) packets ∙ found
Change-get_packet db db' i p (adds q j same new free jobs packets) found =
    ap (find (packet_is i)) packets ∙ packet-cons i q p db.packets new found

pub Run-get_packet :
    (db db' : Db) (i : Bytes) (p : LogicalTelemetryPacket)
    → Run db db'
    → get_packet i db ≡ some p
    → get_packet i db' ≡ some p
Run-get_packet db db' i p here found = found
Run-get_packet db db' i p (next {db' = middle} run step) found =
    Change-get_packet middle db' i p (Step-Change middle db' step)
      (Run-get_packet db middle i p run found)
