-- ===== src/Telemetry/Storage/History/Invariants.antt =====
-- What holds of jobs and packets along any run of the services.
use cislunar_ground_platform.Base.{
  ℕ, some, List, [], ◌∷◌, map, ◌==◌, ◌≡◌, refl, sym, ◌∙◌, subst, arith, inl, inr, Bool-cases,
}
use cislunar_ground_platform.Telemetry.Storage.Records.{TelemetryProcessingJob}
use cislunar_ground_platform.Telemetry.Storage.Tables.{Db, find, replace, job_is}
use cislunar_ground_platform.Telemetry.Storage.Tables.Rows.{
  Keeps, Keeps-refl, Keeps-cons, Keeps-put, Keeps-trans,
}
use cislunar_ground_platform.Telemetry.Storage.History.{Run, here, next}
use cislunar_ground_platform.Telemetry.Storage.History.Progress.{
  Advances, Change, idle, moves, adds,
}
use cislunar_ground_platform.Telemetry.Storage.History.Changes.{Step-Change}

abbrev job_key : TelemetryProcessingJob → ℕ
job_key j = j.job_id

-- Every job of the first database is in the second, changed at most as `Advances` allows.
abbrev pub KeepsJobs : Db → Db → Type 0
KeepsJobs db db' = Keeps job_key Advances db.jobs db'.jobs

Advances-refl : (j : TelemetryProcessingJob) → Advances j j
Advances-refl j = record { packet = refl; most = refl; attempts = omega arith; final = λ h. h }

Advances-trans : (j k l : TelemetryProcessingJob) → Advances j k → Advances k l → Advances j l
Advances-trans j k l a b = record {
  packet = b.packet ∙ a.packet;
  most = b.most ∙ a.most;
  attempts = omega (arith, a.attempts, b.attempts);
  final = λ h. b.final (a.final h);
}

Change-KeepsJobs : (db db' : Db) → Change db db' → KeepsJobs db db'
Change-KeepsJobs db db' (idle same) =
    subst (λ js. Keeps job_key Advances db.jobs js) (sym same.0)
      (Keeps-refl job_key Advances db.jobs Advances-refl)
Change-KeepsJobs db db' (moves j k found change jobs packets) =
    subst (λ js. Keeps job_key Advances db.jobs js) (sym jobs)
      (Keeps-put job_key Advances k j db.jobs Advances-refl found change)
Change-KeepsJobs db db' (adds p j same new free jobs packets) =
    subst (λ js. Keeps job_key Advances db.jobs js) (sym jobs)
      (Keeps-cons job_key Advances j db.jobs Advances-refl free)

-- Whatever the services do in a run of committed transactions, each job of the first database is
-- found under its identifier in the last, for the same packet and with the same attempt limit, with
-- at least as many attempts counted, and complete if it was complete.
pub Run-KeepsJobs : (db db' : Db) → Run db db' → KeepsJobs db db'
Run-KeepsJobs db db' here = Keeps-refl job_key Advances db.jobs Advances-refl
Run-KeepsJobs db db' (next {db' = middle} run step) =
    Keeps-trans job_key Advances db.jobs middle.jobs db'.jobs Advances-trans
      (Run-KeepsJobs db middle run) (Change-KeepsJobs middle db' (Step-Change middle db' step))

-- The jobs are those of the packets, one each, in the order in which the packets were accepted.
abbrev pub OneJobEach : Db → Type 0
OneJobEach db = map (λ j. j.packet_id) db.jobs ≡ map (λ p. p.packet_id) db.packets

replace_packets :
    (j k : TelemetryProcessingJob) (js : List TelemetryProcessingJob)
    → find (job_is k.job_id) js ≡ some j
    → k.packet_id ≡ j.packet_id
    → map (λ x. x.packet_id) (replace (job_is k.job_id) k js) ≡ map (λ x. x.packet_id) js
unfolding find replace
replace_packets j k [] found same = refl
replace_packets j k (x ∷ js) found same = elim (Bool-cases (x.job_id == k.job_id)) [
  | inl e ↦ ground arith
  | inr e ↦ ground (arith, replace_packets j k js)
]

Change-OneJobEach : (db db' : Db) → Change db db' → OneJobEach db → OneJobEach db'
Change-OneJobEach db db' (idle same) h = rw (same.0, same.1) h
Change-OneJobEach db db' (moves j k found change jobs packets) h =
    rw (jobs, packets) (replace_packets j k db.jobs found change.packet ∙ h)
Change-OneJobEach db db' (adds p j same new free jobs packets) h = rw (jobs, packets, same, h) refl

-- Along every run from a database in which each packet has its one job, and so along every run from
-- an empty one, each packet keeps its one job: none is without, and none gets a second.
pub Run-OneJobEach : (db db' : Db) → Run db db' → OneJobEach db → OneJobEach db'
Run-OneJobEach db db' here h = h
Run-OneJobEach db db' (next {db' = middle} run step) h =
    Change-OneJobEach middle db' (Step-Change middle db' step) (Run-OneJobEach db middle run h)
