-- ===== src/Telemetry/Storage/Queries/Oldest.antt =====
-- storage.py: which jobs the queries for the queue return.
use cislunar_ground_platform.Base.{
  ℕ, zero, suc, ◌≤◌, Bool, true, ◌&&◌, List, [], ◌∷◌, map, length, take, drop, All, All-weaken, leb,
  ok, ◌≡◌, refl, sym, subst, arith, ◌⊎◌, inl, inr, Bool-cases, if_elim,
}
use cislunar_ground_platform.Telemetry.Storage.Records.{Instant, TelemetryProcessingJob}
use cislunar_ground_platform.Telemetry.Storage.Tables.{Db}
use cislunar_ground_platform.Telemetry.Storage.Queries.{
  select, insert_by, order_by, wants_queue, pending_queue_jobs,
}

module _ {A : Type 0} where
  abbrev pub Among : A → List A → Type 0
  Among x [] = ⊥
  Among x (y ∷ ys) = (x ≡ y) ⊎ Among x ys

  select-All : (p : A → Bool) (xs : List A) → All (λ x. p x ≡ true) (select p xs)
  unfolding select
  select-All p [] = tt
  select-All p (x ∷ xs) = elim (Bool-cases (p x)) [
    | inl e ↦ rw e (e, select-All p xs)
    | inr e ↦ rw e (select-All p xs)
  ]

  Among-select :
      (p : A → Bool) (x : A) (xs : List A) → Among x xs → p x ≡ true → Among x (select p xs)
  unfolding select
  Among-select p x [] h e = h
  Among-select p x (y ∷ ys) (inl same) e = rw (subst (λ z. p z ≡ true) same e) (inl same)
  Among-select p x (y ∷ ys) (inr h) e =
      if_elim (Among x) (p y) (y ∷ select p ys) (select p ys) (inr (Among-select p x ys h e))
        (Among-select p x ys h e)

  Among-take :
      (n : ℕ) (x : A) (xs : List A) → Among x xs → Among x (take n xs) ⊎ Among x (drop n xs)
  Among-take zero x xs h = inr h
  Among-take (suc n) x [] h = absurd h
  Among-take (suc n) x (y ∷ ys) (inl same) = inl (inl same)
  Among-take (suc n) x (y ∷ ys) (inr h) = elim (Among-take n x ys h) [
    | inl t ↦ inl (inr t)
    | inr d ↦ inr d
  ]

  All-Among : (P : A → Type 0) (x : A) (xs : List A) → All P xs → Among x xs → P x
  All-Among P x [] h m = absurd m
  All-Among P x (y ∷ ys) h (inl same) = subst P (sym same) h.0
  All-Among P x (y ∷ ys) h (inr m) = All-Among P x ys h.1 m

  All-take : (P : A → Type 0) (n : ℕ) (xs : List A) → All P xs → All P (take n xs)
  All-take P zero xs h = tt
  All-take P (suc n) [] h = tt
  All-take P (suc n) (x ∷ xs) h = (h.0, All-take P n xs h.1)

  All-drop : (P : A → Type 0) (n : ℕ) (xs : List A) → All P xs → All P (drop n xs)
  All-drop P zero xs h = h
  All-drop P (suc n) [] h = tt
  All-drop P (suc n) (x ∷ xs) h = All-drop P n xs h.1

  All-select : (P : A → Type 0) (p : A → Bool) (xs : List A) → All P xs → All P (select p xs)
  unfolding select
  All-select P p [] h = tt
  All-select P p (x ∷ xs) h =
      if_elim (All P) (p x) (x ∷ select p xs) (select p xs) (h.0, All-select P p xs h.1)
        (All-select P p xs h.1)

  All-self : (xs : List A) → All (λ x. Among x xs) xs
  All-self [] = tt
  All-self (x ∷ xs) = (
    inl refl,
    All-weaken (λ y. Among y xs) (λ y. Among y (x ∷ xs)) xs (λ y m. inr m) (All-self xs),
  )

  length-take_le : (n : ℕ) (xs : List A) → length (take n xs) ≤ n
  length-take_le zero xs = omega arith
  length-take_le (suc n) [] = omega arith
  length-take_le (suc n) (x ∷ xs) = omega (arith, length-take_le n xs)

module _ {A : Type 0} (key : A → ℕ) where
  abbrev pub Ordered : List A → Type 0
  Ordered [] = Unit {0}
  Ordered (x ∷ xs) = All (λ y. key x ≤ key y) xs × Ordered xs

  insert-All : (P : A → Type 0) (x : A) (ys : List A) → P x → All P ys → All P (insert_by key x ys)
  unfolding insert_by
  insert-All P x [] h k = (h, tt)
  insert-All P x (y ∷ ys) h k =
      if_elim (All P) (leb (key x) (key y)) (x ∷ y ∷ ys) (y ∷ insert_by key x ys) (h, k)
        (k.0, insert-All P x ys h k.1)

  insert-Ordered : (x : A) (ys : List A) → Ordered ys → Ordered (insert_by key x ys)
  unfolding insert_by
  insert-Ordered x [] h = (tt, tt)
  insert-Ordered x (y ∷ ys) h = elim (Bool-cases (leb (key x) (key y))) [
    | inl e ↦
        let least : key x ≤ key y = ground arith in
        rw e (
          (
            least,
            All-weaken (λ z. key y ≤ key z) (λ z. key x ≤ key z) ys (λ z k. omega (arith, least, k))
                h.0,
          ),
          h,
        )
    | inr e ↦
        rw e (insert-All (λ z. key y ≤ key z) x ys (ground arith) h.0, insert-Ordered x ys h.1)
  ]

  order-Ordered : (xs : List A) → Ordered (order_by key xs)
  unfolding order_by
  order-Ordered [] = tt
  order-Ordered (x ∷ xs) = insert-Ordered x (order_by key xs) (order-Ordered xs)

  order-All : (P : A → Type 0) (xs : List A) → All P xs → All P (order_by key xs)
  unfolding order_by
  order-All P [] h = tt
  order-All P (x ∷ xs) h = insert-All P x (order_by key xs) h.0 (order-All P xs h.1)

  Among-insert : (x y : A) (ys : List A) → (x ≡ y) ⊎ Among x ys → Among x (insert_by key y ys)
  unfolding insert_by
  Among-insert x y [] h = h
  Among-insert x y (z ∷ zs) h =
      if_elim (Among x) (leb (key y) (key z)) (y ∷ z ∷ zs) (z ∷ insert_by key y zs) h (elim h [
        | inl same ↦ inr (Among-insert x y zs (inl same))
        | inr (inl here) ↦ inl here
        | inr (inr m) ↦ inr (Among-insert x y zs (inr m))
      ])

  Among-order : (x : A) (xs : List A) → Among x xs → Among x (order_by key xs)
  unfolding order_by
  Among-order x [] h = h
  Among-order x (y ∷ ys) (inl same) = Among-insert x y (order_by key ys) (inl same)
  Among-order x (y ∷ ys) (inr h) = Among-insert x y (order_by key ys) (inr (Among-order x ys h))

  take-Ordered : (n : ℕ) (xs : List A) → Ordered xs → Ordered (take n xs)
  take-Ordered zero xs h = tt
  take-Ordered (suc n) [] h = tt
  take-Ordered (suc n) (x ∷ xs) h = (All-take (λ y. key x ≤ key y) n xs h.0, take-Ordered n xs h.1)

  take-before :
      (n : ℕ) (xs : List A)
      → Ordered xs
      → All (λ a. All (λ b. key a ≤ key b) (drop n xs)) (take n xs)
  take-before zero xs h = tt
  take-before (suc n) [] h = tt
  take-before (suc n) (x ∷ xs) h = (All-drop (λ b. key x ≤ key b) n xs h.0, take-before n xs h.1)

module _ (now : Instant) (db : Db) where
  abbrev pub wanted : List TelemetryProcessingJob
  wanted = order_by (λ job. job.created_at) (select (wants_queue now) db.jobs)

  wanted-All :
      (limit : ℕ) (P : TelemetryProcessingJob → Type 0)
      → All P (select (wants_queue now) db.jobs)
      → All P (take limit wanted)
  wanted-All limit P h =
      All-take P limit wanted
        (order-All (λ job. job.created_at) P (select (wants_queue now) db.jobs) h)

  -- A job that wants the queue is in the first part of the order, or no younger than all of it.
  wanted-served :
      (limit : ℕ) (job : TelemetryProcessingJob)
      → Among job db.jobs
      → wants_queue now job ≡ true
      → Among job (take limit wanted) ⊎ All (λ a. a.created_at ≤ job.created_at) (take limit wanted)
  wanted-served limit job here wants =
      elim (Among-take limit job wanted (
        Among-order (λ j. j.created_at) job (select (wants_queue now) db.jobs)
          (Among-select (wants_queue now) job db.jobs here wants))) [
            | inl t ↦ inl t
            | inr d ↦ inr (
                All-weaken (λ a. All (λ b. a.created_at ≤ b.created_at) (drop limit wanted))
                  (λ a. a.created_at ≤ job.created_at) (take limit wanted)
                  (λ a h. All-Among (λ b. a.created_at ≤ b.created_at) job (drop limit wanted) h d)
                  (take-before (λ j. j.created_at) limit wanted
                    (order-Ordered (λ j. j.created_at) (select (wants_queue now) db.jobs))))
          ]

-- A limit from 1 to 1000 is accepted. The answer is the identifiers of at most that many jobs of
-- the table, oldest first; each of them is pending or has a retry that is due; and every job of the table that is pending
-- or due is one of them or was created no earlier than any of them.
pub pending_queue_jobs-oldest :
    (limit : ℕ) (now : Instant) (db : Db)
    → 1 ≤ limit
    → limit ≤ 1000
    → (jobs : List TelemetryProcessingJob) × (pending_queue_jobs limit now db
        ≡ ok (map (λ job. job.job_id) jobs))
      × (length jobs ≤ limit)
      × Ordered (λ job. job.created_at) jobs
      × All (λ job. Among job db.jobs) jobs
      × All (λ job. wants_queue now job ≡ true) jobs
      × ((job : TelemetryProcessingJob)
          → Among job db.jobs
          → wants_queue now job ≡ true
          → Among job jobs ⊎ All (λ a. a.created_at ≤ job.created_at) jobs)
unfolding pending_queue_jobs
pending_queue_jobs-oldest limit now db low high =
    let in_range : (leb 1 limit && leb limit 1000) ≡ true = ground arith in
    (
      take limit (wanted now db),
      rw in_range refl,
      length-take_le limit (wanted now db),
      take-Ordered (λ j. j.created_at) limit (wanted now db)
          (order-Ordered (λ j. j.created_at) (select (wants_queue now) db.jobs)),
      wanted-All now db limit (λ job. Among job db.jobs)
          (All-select (λ job. Among job db.jobs) (wants_queue now) db.jobs (All-self db.jobs)),
      wanted-All now db limit (λ job. wants_queue now job ≡ true)
          (select-All (wants_queue now) db.jobs),
      wanted-served now db limit,
    )
