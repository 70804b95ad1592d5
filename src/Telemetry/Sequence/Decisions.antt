-- ===== src/Telemetry/Sequence/Decisions.antt =====
-- What each decision of `decide_sequence` says, in arithmetic modulo 2 ^ 32.
use cislunar_ground_platform.Base.{
  ℕ, ◌+◌, ◌-◌, ◌%◌, ◌^◌, ◌≤◌, ◌<◌, ◌≡◌, refl, true, false, Option, none, some, ◌∷◌, Bytes, bytes_eq,
  bytes_eq_iff, Bool-cases, ok, err, Ensures, ◌↔◌, arith, ◌⊎◌, inl, inr, ◌≢◌,
}
use cislunar_ground_platform.Base.Int.{ℤ, pos, ◌-ℤ◌}
use cislunar_ground_platform.Telemetry.Sequence.{
  SequenceDecision, validate_high_water, state_error, in_order, gap, late_or_out_of_order,
  duplicate, conflict, decide_sequence, decide_existing, forward_distance,
}

-- On uint32 values the forward distance is the difference modulo 2 ^ 32.
pub forward_distance_mod :
    (c h : ℕ)
    → c < 2 ^ 32
    → h < 2 ^ 32
    → forward_distance (pos c) (pos h) ≡ (c + 2 ^ 32 - h) % 2 ^ 32
forward_distance_mod c h hc hh = unfold ◌-ℤ◌ in ground arith

-- What a decision on a new packet must be, by its distance ahead of the mark.
abbrev pub Agrees : ℕ → ℕ → ℕ → SequenceDecision → Type 0
Agrees c h d r =
    ((d ≡ 1)
      × (r.disposition ≡ in_order)
      × (r.next_high_water ≡ some (pos c))
      × (r.missing_count ≡ pos 0)
      × (r.should_advance_high_water ≡ true))
    ⊎ ((2 ≤ d)
        × (d < 2 ^ 31)
        × (r.disposition ≡ gap)
        × (r.next_high_water ≡ some (pos c))
        × (r.missing_count ≡ pos (d - 1))
        × (r.should_advance_high_water ≡ true))
    ⊎ ((2 ^ 31 ≤ d)
        × (r.disposition ≡ late_or_out_of_order)
        × (r.next_high_water ≡ some (pos h))
        × (r.missing_count ≡ pos 0)
        × (r.should_advance_high_water ≡ false))

-- The decision on a new packet that differs from the mark: in order, a gap with the number of
-- packets skipped, or late, by its distance modulo 2 ^ 32. It is accepted and queued in each case.
pub decide_sequence_new :
    (c h byte : ℕ) (bytes : Bytes)
    → c < 2 ^ 32
    → h < 2 ^ 32
    → c ≢ h
    → Ensures
        (λ r.
          Agrees c h ((c + 2 ^ 32 - h) % 2 ^ 32) r × (r.accepted ≡ true) × (r.should_queue ≡ true))
        (decide_sequence (some (pos h)) (pos c) (byte ∷ bytes) none)
unfolding decide_sequence
decide_sequence_new c h byte bytes hc hh ne =
    let nonzero : 0 < (c + 2 ^ 32 - h) % 2 ^ 32 = omega arith in
    ground (arith, forward_distance_mod c h hc hh)

-- Without the packet's record, a sequence that equals the mark is refused as inconsistent state,
-- and no other uint32 is.
pub decide_sequence-state_error :
    (c h byte : ℕ) (bytes : Bytes)
    → c < 2 ^ 32
    → h < 2 ^ 32
    → (decide_sequence (some (pos h)) (pos c) (byte ∷ bytes) none ≡ err state_error) ↔ (c ≡ h)
unfolding decide_sequence
decide_sequence-state_error c h byte bytes hc hh = (
  λ e. ground (arith, forward_distance_mod c h hc hh),
  λ e. ground (arith, forward_distance_mod c h hc hh),
)

-- What a decision on a known key must be.
abbrev pub IsRepeat : Option ℤ → Bytes → Bytes → SequenceDecision → Type 0
IsRepeat mark incoming existing r =
    ((r.disposition ≡ duplicate) ↔ (existing ≡ incoming))
    × ((r.disposition ≡ conflict) ↔ (existing ≢ incoming))
    × (r.should_queue ≡ false)
    × (r.should_advance_high_water ≡ false)
    × (r.next_high_water ≡ mark)

decide_existing-IsRepeat :
    (mark : Option ℤ) (incoming existing : Bytes)
    → IsRepeat mark incoming existing (decide_existing mark incoming existing)
unfolding decide_existing
decide_existing-IsRepeat mark incoming existing =
    let iff = bytes_eq_iff existing incoming in
    elim (Bool-cases (bytes_eq existing incoming)) [
      | inl e ↦ rw e (
        (λ _. iff.0 e, λ _. refl),
        (λ no_conflict. cc, λ different. absurd (different (iff.0 e))),
        refl,
        refl,
        refl,
      )
      | inr e ↦ rw e (
        (λ no_duplicate. cc, λ same. absurd (different e same)),
        (λ _. different e, λ _. refl),
        refl,
        refl,
        refl,
      )
    ]
  where
    different : bytes_eq existing incoming ≡ false → existing ≢ incoming
    different e same = cc (e, (bytes_eq_iff existing incoming).1 same)

decide_sequence-some :
    (mark : Option ℤ) (c byte : ℕ) (bytes existing : Bytes)
    → c < 2 ^ 32
    → validate_high_water mark ≡ ok tt
    → decide_sequence mark (pos c) (byte ∷ bytes) (some existing)
      ≡ ok (decide_existing mark (byte ∷ bytes) existing)
unfolding decide_sequence
decide_sequence-some mark c byte bytes existing hc hm = ground arith

-- A delivery under a known key is a duplicate when its bytes are the recorded ones and a conflict
-- otherwise; neither is queued, and the mark stays.
pub decide_sequence_existing :
    (mark : Option ℤ) (c byte : ℕ) (bytes existing : Bytes)
    → c < 2 ^ 32
    → validate_high_water mark ≡ ok tt
    → Ensures
        (IsRepeat mark (byte ∷ bytes) existing)
        (decide_sequence mark (pos c) (byte ∷ bytes) (some existing))
decide_sequence_existing mark c byte bytes existing hc hm =
    rw (decide_sequence-some mark c byte bytes existing hc hm)
      (decide_existing-IsRepeat mark (byte ∷ bytes) existing)

-- If `c` advances the mark `h`, then a packet `h` that arrives after `c` is late: the order of
-- sequence numbers is never turned around, also across the wrap.
pub decide_sequence_antisym :
    (c h byte : ℕ) (bytes : Bytes)
    → c < 2 ^ 32
    → h < 2 ^ 32
    → Ensures
        (λ r. r.should_advance_high_water ≡ true)
        (decide_sequence (some (pos h)) (pos c) (byte ∷ bytes) none)
    → Ensures
        (λ r. (r.disposition ≡ late_or_out_of_order) × (r.next_high_water ≡ some (pos c)))
        (decide_sequence (some (pos c)) (pos h) (byte ∷ bytes) none)
unfolding decide_sequence
decide_sequence_antisym c h byte bytes hc hh e =
    ground (arith, forward_distance_mod c h hc hh, forward_distance_mod h c hh hc)
