-- ===== src/Common/Tracker/Gaps.antt =====
-- common/sequence.py: what the tracker counts over the packets of several APIDs.
use cislunar_ground_platform.Base.{
  ℕ, suc, ◌+◌, ◌%◌, ◌≤◌, ◌<◌, true, false, some, List, [], ◌∷◌, ◌==◌, if◌then◌else◌, ◌≡◌, ◌≢◌, refl,
  ap, ◌∙◌, arith, inl, inr, Bool-cases,
}
use cislunar_ground_platform.Common.Tracker.{SequenceTracker, missing_before, remember, observe}

-- A packet by its APID and the number of packets the sender had made for that APID before it. The
-- header carries the number modulo 2 ^ 14.
abbrev pub Packet : Type 0
Packet = ℕ × ℕ

-- The counts that the tracker returns for one APID, added up over the packets received.
unfoldable pub missing_of : ℕ → List Packet → SequenceTracker → ℕ
unfolding observe
missing_of apid [] tracker = 0
missing_of apid (p ∷ rest) tracker =
    let seen = observe p.0 (p.1 % 16384) tracker in
    let later = missing_of apid rest seen.1 in if p.0 == apid then seen.0 + later else later

unfoldable pub received_of : ℕ → List Packet → ℕ
received_of apid [] = 0
received_of apid (p ∷ rest) =
    let later = received_of apid rest in if p.0 == apid then suc later else later

-- The number of the last packet of the APID, after one with number n.
unfoldable pub last_of : ℕ → ℕ → List Packet → ℕ
last_of apid n [] = n
last_of apid n (p ∷ rest) =
    let same = last_of apid p.1 rest in
    let other = last_of apid n rest in if p.0 == apid then same else other

-- The packets of the APID come in order, and no gap reaches 2 ^ 14 packets.
abbrev pub InOrder : ℕ → ℕ → List Packet → Type 0
InOrder apid n [] = Unit {0}
InOrder apid n (p ∷ rest) =
    ((p.0 == apid) ≡ true → (n < p.1) × (p.1 ≤ n + 16384) × InOrder apid p.1 rest)
    × ((p.0 == apid) ≡ false → InOrder apid n rest)

missing_before-gap :
    (n m : ℕ) → n < m → m ≤ n + 16384 → missing_before (n % 16384) (m % 16384) + n + 1 ≡ m
missing_before-gap n m low high = elim (Bool-cases (m % 16384 == (n % 16384 + 1) % 16384)) [
  | inl e ↦ let same : m % 16384 ≡ (n % 16384 + 1) % 16384 = ground arith in rw e (omega arith)
  | inr e ↦ let other : m % 16384 ≢ (n % 16384 + 1) % 16384 = ground arith in rw e (omega arith)
]

-- An APID's packets do not touch what is kept for another.
kept :
    (b k apid : ℕ) (tracker : SequenceTracker)
    → (b == apid) ≡ false
    → (remember b k tracker).last apid ≡ tracker.last apid
kept b k apid tracker e = let flip : (apid == b) ≡ false = ground arith in rw flip refl

replaced :
    (b k apid : ℕ) (tracker : SequenceTracker)
    → (b == apid) ≡ true
    → (remember b k tracker).last apid ≡ some k
replaced b k apid tracker e = let flip : (apid == b) ≡ true = ground arith in rw flip refl

missing_of-step :
    (apid n : ℕ) (p : Packet) (rest : List Packet) (tracker : SequenceTracker)
    → (p.0 == apid) ≡ true
    → tracker.last apid ≡ some (n % 16384)
    → missing_of apid (p ∷ rest) tracker
      ≡ missing_before (n % 16384) (p.1 % 16384)
        + missing_of apid rest (remember p.0 (p.1 % 16384) tracker)
unfolding missing_of observe
missing_of-step apid n p rest tracker e known =
    let same : p.0 ≡ apid = ground arith in
    let here : tracker.last p.0 ≡ some (n % 16384) = ap tracker.last same ∙ known in
    rw e (rw here refl)

-- A run after a packet with number n of the APID, in which other APIDs may send packets too: the
-- packets of the APID that came and those that the tracker counts as missing make up the distance
-- from n to its last packet, if they come in order and each gap is below 2 ^ 14 packets.
pub missing_of-received_of :
    (apid n : ℕ) (packets : List Packet) (tracker : SequenceTracker)
    → tracker.last apid ≡ some (n % 16384)
    → InOrder apid n packets
    → n + received_of apid packets + missing_of apid packets tracker ≡ last_of apid n packets
unfolding missing_of received_of last_of observe
missing_of-received_of apid n [] tracker known order = omega arith
missing_of-received_of apid n (p ∷ rest) tracker known order = elim (Bool-cases (p.0 == apid)) [
  | inl e ↦
      let ordered = order.0 e in
      let gap = missing_before-gap n p.1 ordered.0 ordered.1 in
      let after =
        missing_of-received_of apid p.1 rest (remember p.0 (p.1 % 16384) tracker)
          (replaced p.0 (p.1 % 16384) apid tracker e) ordered.2 in
      rw (missing_of-step apid n p rest tracker e known) (rw e (omega (arith, gap, after)))
  | inr e ↦
      let after =
        missing_of-received_of apid n rest (remember p.0 (p.1 % 16384) tracker)
          (kept p.0 (p.1 % 16384) apid tracker e ∙ known) (order.1 e) in
      rw e after
]
