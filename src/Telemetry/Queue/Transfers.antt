-- ===== src/Telemetry/Queue/Transfers.antt =====
-- Where a queue entry can go: claims, retries, quarantine and recovery move entries between the
-- lists.
use cislunar_ground_platform.Base.{
  ℕ, ◌+◌, ◌≤◌, false, Option, none, some, List, [], ◌∷◌, ◌++◌, Bytes, bytes_eq, bytes_eq_iff, ◌==◌,
  if◌then◌else◌, Result, ok, err, ◌≡◌, refl, ap, ◌∙◌, subst, arith, ==_iff, inl, inr, Bool-cases,
  if_elim,
}
use cislunar_ground_platform.Base.Int.{ℤ, pos, ltb_ℤ}
use cislunar_ground_platform.Telemetry.Queue.Messages.{
  QueueError, json_error, message_error, conflict_error, state_error, value_error, QueueMessage,
  to_json_bytes, Loaded, from_json_bytes,
}
use cislunar_ground_platform.Telemetry.Queue.Lists.{
  Redis, lrem, rpop, retry_script, dead_letter_script, recover_processing, retry, dead_letter,
  claimed, claim_taken, claim,
}
use cislunar_ground_platform.Telemetry.Queue.Recovery.{rpop-some, recover_processing-all}

-- How often an entry stands in a list.
unfoldable pub count : Bytes → List Bytes → ℕ
count raw [] = 0
count raw (x ∷ xs) = (if bytes_eq x raw then 1 else 0) + count raw xs

pub count-append :
    (raw : Bytes) (xs ys : List Bytes) → count raw (xs ++ ys) ≡ count raw xs + count raw ys
unfolding count
count-append raw [] ys = omega arith
count-append raw (x ∷ xs) ys = omega (arith, count-append raw xs ys)

-- How often an entry stands in the three lists together.
abbrev pub held : Bytes → Redis → ℕ
held raw s = count raw s.pending + count raw s.processing + count raw s.failed

pub lrem-count :
    (raw value : Bytes) (xs : List Bytes)
    → (count raw xs
        ≡ count raw (lrem value xs).1 + (if bytes_eq value raw then (lrem value xs).0 else 0))
      × ((lrem value xs).0 ≤ 1)
unfolding lrem count
lrem-count raw value [] = ground arith
lrem-count raw value (x ∷ xs) = elim (Bool-cases (bytes_eq x value)) [
  | inl e ↦
      subst
        (λ v.
          (count raw (x ∷ xs)
            ≡ count raw (lrem v (x ∷ xs)).1 + (if bytes_eq v raw then (lrem v (x ∷ xs)).0 else 0))
          × ((lrem v (x ∷ xs)).0 ≤ 1))
        ((bytes_eq_iff x value).0 e) (rw ((bytes_eq_iff x x).1 refl) (ground arith))
  | inr e ↦ ground (arith, lrem-count raw value xs)
]

rpop-count :
    (raw : Bytes) (xs ys : List Bytes) (y : Bytes)
    → rpop xs ≡ some (y, ys)
    → count raw xs ≡ count raw ys + (if bytes_eq y raw then 1 else 0)
rpop-count raw xs ys y h =
    let shifted : count raw (ys ++ (y ∷ [])) ≡ count raw ys + (if bytes_eq y raw then 1 else 0) =
      unfold count in omega (arith, count-append raw ys (y ∷ [])) in
    ap (count raw) (rpop-some xs y ys h) ∙ shifted

-- An entry is held as often as before, and the markers are the same.
abbrev pub Conserves : Redis → Redis → Type 0
Conserves s s' = ((raw : Bytes) → held raw s' ≡ held raw s) × (s'.markers ≡ s.markers)

-- An entry that left the processing list for another stands there once more.
moved_once :
    (raw value : Bytes) (rest : List Bytes) (p before : ℕ) (r : ℕ)
    → before ≡ p + (if bytes_eq value raw then r else 0)
    → r ≡ 1
    → p + count raw (value ∷ rest) ≡ before + count raw rest
unfolding count
moved_once raw value rest p before r h e = ground arith

unmoved :
    (raw value : Bytes) (xs : List Bytes)
    → ((lrem value xs).0 == 1) ≡ false
    → (p f : ℕ) → p + count raw (lrem value xs).1 + f ≡ p + count raw xs + f
unmoved raw value xs e p f = ground (arith, lrem-count raw value xs)

retry_script-Conserves : (value : Bytes) (s : Redis) → Conserves s (retry_script value s).1
unfolding retry_script
retry_script-Conserves value s = elim (Bool-cases ((lrem value s.processing).0 == 1)) [
  | inl e ↦ rw e (
    λ raw. omega (
      arith,
      moved_once raw value s.pending (count raw (lrem value s.processing).1)
          (count raw s.processing) (lrem value s.processing).0 (lrem-count raw value s.processing).0
          ((==_iff _ _).0 e),
    ),
    refl,
  )
  | inr e ↦
      rw e
        (λ raw. unmoved raw value s.processing e (count raw s.pending) (count raw s.failed), refl)
]

dead_letter_script-Conserves :
    (value : Bytes) (s : Redis) → Conserves s (dead_letter_script value s).1
unfolding dead_letter_script
dead_letter_script-Conserves value s = elim (Bool-cases ((lrem value s.processing).0 == 1)) [
  | inl e ↦ rw e (
    λ raw. omega (
      arith,
      moved_once raw value s.failed (count raw (lrem value s.processing).1) (count raw s.processing)
          (lrem value s.processing).0 (lrem-count raw value s.processing).0 ((==_iff _ _).0 e),
    ),
    refl,
  )
  | inr e ↦
      rw e
        (λ raw. unmoved raw value s.processing e (count raw s.pending) (count raw s.failed), refl)
]

claimed-Conserves :
    (m : Result QueueError QueueMessage) (raw : Bytes) (s : Redis) → Conserves s (claimed m raw s).1
unfolding claimed
claimed-Conserves (ok m) raw s = (λ r. refl, refl)
claimed-Conserves (err json_error) raw s = (λ r. refl, refl)
claimed-Conserves (err message_error) raw s = dead_letter_script-Conserves raw s
claimed-Conserves (err conflict_error) raw s = dead_letter_script-Conserves raw s
claimed-Conserves (err state_error) raw s = dead_letter_script-Conserves raw s
claimed-Conserves (err value_error) raw s = dead_letter_script-Conserves raw s

Conserves-trans : (s t u : Redis) → Conserves s t → Conserves t u → Conserves s u
Conserves-trans s t u h k = (λ raw. k.0 raw ∙ h.0 raw, k.1 ∙ h.1)

taken-Conserves :
    (s : Redis) (raw : Bytes) (rest : List Bytes)
    → rpop s.pending ≡ some (raw, rest)
    → Conserves s (record s { pending = rest; processing = raw ∷ s.processing })
unfolding count
taken-Conserves s raw rest h = (λ r. omega (arith, rpop-count r s.pending rest raw h), refl)

claim_taken-Conserves :
    (loads : Bytes → Option Loaded) (o : Option (Bytes × List Bytes)) (s : Redis)
    → rpop s.pending ≡ o
    → Conserves s (claim_taken loads o s).1
unfolding claim_taken
claim_taken-Conserves loads none s h = (λ r. refl, refl)
claim_taken-Conserves loads (some (raw, rest)) s h =
    let taken : Redis = record s { pending = rest; processing = raw ∷ s.processing } in
    Conserves-trans s taken (claimed (from_json_bytes loads raw) raw taken).1
      (taken-Conserves s raw rest h) (claimed-Conserves (from_json_bytes loads raw) raw taken)

claim-Conserves :
    (loads : Bytes → Option Loaded) (t : ℤ) (s : Redis) → Conserves s (claim loads t s).1
unfolding claim
claim-Conserves loads t s =
    if_elim (λ (q : Result QueueError (Option QueueMessage) × Redis). Conserves s q.1)
      (ltb_ℤ t (pos 0)) (err value_error, s) (claim_taken loads (rpop s.pending) s)
      (λ r. refl, refl) (claim_taken-Conserves loads (rpop s.pending) s refl)

recover-Conserves : (s : Redis) → Conserves s (recover_processing s).1
recover-Conserves s =
    rw (recover_processing-all s)
      (λ raw. unfold count in omega (arith, count-append raw s.processing s.pending), refl)

-- What the workers and the recovery do with the queue, whatever `json.loads` makes of an entry.
pub data Move (s : Redis) : Redis → Type 0 where
  claims : (loads : Bytes → Option Loaded) (timeout : ℤ) → Move s (claim loads timeout s).1
  retries : (m : QueueMessage) → Move s (retry m s).1
  dead_letters : (m : QueueMessage) → Move s (dead_letter m s).1
  recovers : Move s (recover_processing s).1

pub data Moves (s : Redis) : Redis → Type 0 where
  here : Moves s s
  next : {t u : Redis} → Moves s t → Move t u → Moves s u

Move-Conserves : (s t : Redis) → Move s t → Conserves s t
Move-Conserves s t (claims loads timeout) = claim-Conserves loads timeout s
Move-Conserves s t (retries m) = unfold retry in retry_script-Conserves (to_json_bytes m) s
Move-Conserves s t (dead_letters m) =
    unfold dead_letter in dead_letter_script-Conserves (to_json_bytes m) s
Move-Conserves s t recovers = recover-Conserves s

-- Claims, retries, quarantines of malformed or failing work and recoveries, in any order and also
-- where they raise, neither lose an entry nor double it: each is held as often as before in the
-- three lists together, and every marker stays.
pub Moves-Conserves : (s t : Redis) → Moves s t → Conserves s t
Moves-Conserves s t here = (λ raw. refl, refl)
Moves-Conserves s t (next {t = u} run step) =
    Conserves-trans s u t (Moves-Conserves s u run) (Move-Conserves u t step)
