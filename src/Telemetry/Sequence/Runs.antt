-- ===== src/Telemetry/Sequence/Runs.antt =====
-- A boot session as its caller keeps it: the mark, and the counts of packets that advanced it and
-- of packets reported missing, over the new packets in the order of their arrival.
use cislunar_ground_platform.Base.{
  ℕ, ◌+◌, ◌%◌, ◌^◌, ◌<◌, ◌≡◌, refl, Option, none, some, List, [], ◌∷◌, Bytes, All, Result, ok,
  ◌>>=◌, >>=-eq-ok, ok-injective, subst, arith, if◌then◌else◌,
}
use cislunar_ground_platform.Base.Int.{ℤ, pos, negsuc, pos_part}
use cislunar_ground_platform.Telemetry.Sequence.{SequenceDecision, SequenceError, decide_sequence}
use cislunar_ground_platform.Telemetry.Sequence.Decisions.{forward_distance_mod}

pub record Session : Type 0 where
  pub high_water : Option ℤ
  pub advanced : ℕ
  pub missing : ℕ

-- The decision is persisted: the mark, and the count of missing packets where the mark moves.
abbrev persist : Session → SequenceDecision → Session
persist s d =
    if d.should_advance_high_water
    then record {
      high_water = d.next_high_water;
      advanced = s.advanced + 1;
      missing = s.missing + pos_part d.missing_count;
    }
    else s

-- New packets, each with a first byte and the rest; no record exists under their keys.
unfoldable pub follow : Session → List (ℕ × ℕ × Bytes) → Result SequenceError Session
follow s [] = ok s
follow s ((c, byte, bytes) ∷ rest) =
    decide_sequence s.high_water (pos c) (byte ∷ bytes) none >>= λ d. follow (persist s d) rest

abbrev pub empty_session : Session
empty_session = record { high_water = none; advanced = 0; missing = 0 }

-- Every sequence number up to the mark was received as an advance or reported missing.
abbrev pub Accounts : Session → Type 0
Accounts s = elim s.high_water [
  | none ↦ (s.advanced ≡ 0) × (s.missing ≡ 0)
  | some h ↦
      (pos_part h < 2 ^ 32)
      × (h ≡ pos (pos_part h))
      × ((s.advanced + s.missing) % 2 ^ 32 ≡ (pos_part h + 1) % 2 ^ 32)
]

abbrev session : Option ℤ → ℕ → ℕ → Session
session mark advanced missing = record { high_water = mark; advanced = advanced; missing = missing }

persist-Accounts :
    (mark : Option ℤ) (advanced missing c byte : ℕ) (bytes : Bytes) (d : SequenceDecision)
    → c < 2 ^ 32
    → Accounts (session mark advanced missing)
    → decide_sequence mark (pos c) (byte ∷ bytes) none ≡ ok d
    → Accounts (persist (session mark advanced missing) d)
unfolding decide_sequence
persist-Accounts none advanced missing c byte bytes d hc a h = ground arith
persist-Accounts (some (negsuc m)) advanced missing c byte bytes d hc a h = ground arith
persist-Accounts (some (pos m)) advanced missing c byte bytes d hc a h =
    ground (arith, forward_distance_mod c m hc)

abbrev pub IsUint32Packet : ℕ × ℕ × Bytes → Type 0
IsUint32Packet (c, byte, bytes) = c < 2 ^ 32

follow-Accounts :
    (s t : Session) (packets : List (ℕ × ℕ × Bytes))
    → All IsUint32Packet packets
    → Accounts s
    → follow s packets ≡ ok t
    → Accounts t
unfolding follow
follow-Accounts s t [] u a h = subst Accounts (ok-injective h) a
follow-Accounts s t ((c, byte, bytes) ∷ rest) u a h =
    let (d, decided, h') =
      >>=-eq-ok (decide_sequence s.high_water (pos c) (byte ∷ bytes) none) _ h in
    follow-Accounts (persist s d) t rest u.1
      (persist-Accounts s.high_water s.advanced s.missing c byte bytes d u.0 a decided) h'

-- In a boot session that starts with no state, the packets that advanced the mark and those that
-- were reported missing add up to the mark plus one, modulo 2 ^ 32, whatever gaps, late packets
-- and wraps there were.
pub follow_accounts :
    (packets : List (ℕ × ℕ × Bytes)) (t : Session) (h : ℕ)
    → All IsUint32Packet packets
    → follow empty_session packets ≡ ok t
    → t.high_water ≡ some (pos h)
    → (t.advanced + t.missing) % 2 ^ 32 ≡ (h + 1) % 2 ^ 32
follow_accounts packets t h u e m =
    let a = follow-Accounts empty_session t packets u (refl, refl) e in ground arith
