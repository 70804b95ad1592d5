-- ===== src/Std/Struct/RoundTrip.antt =====
-- Laws of `pack` and `unpack`, used for the round trips of the codecs.
use cislunar_ground_platform.Base.{
  ℕ, suc, ◌+◌, ◌-◌, ◌*◌, ◌≤◌, ◌^◌, ◌<◌, ◌≡◌, refl, sym, ap, some, List, [], ◌∷◌, ◌++◌, Bytes,
  length, take, drop, length-append, take-append, drop-append, append-take-drop, length-take,
  length-drop, All, All-append, All-take, All-drop, arith, inl, inr, Option-cases,
}
use cislunar_ground_platform.Base.Int.{ℤ, pos, negsuc, ◌≤ℤ◌, pos_part, neg_part}
use cislunar_ground_platform.Base.Digits.{
  be_digits, be_value, IsDigit, length-be_digits, be_digits-All, be_value-be_digits,
  be_digits-be_value, be_value-lt,
}
use cislunar_ground_platform.Std.Struct.{
  Field, unsigned, signed, Format, width, size, to_word, of_word, pack, unpack_fields, unpack,
}

abbrev pub IsByte : ℕ → Type 0
IsByte = IsDigit 255

of_word-to_word :
    (f : Field) (v : ℤ) (w : ℕ) → to_word f v ≡ some w → (of_word f w ≡ v) × (w < 256 ^ width f)
unfolding to_word of_word
of_word-to_word (unsigned k) (pos n) w h = ground arith
of_word-to_word (unsigned k) (negsuc n) w h = cc
of_word-to_word (signed k) (pos n) w h = ground arith
of_word-to_word (signed k) (negsuc n) w h = ground arith

to_word-of_word : (f : Field) (w : ℕ) → w < 256 ^ width f → to_word f (of_word f w) ≡ some w
unfolding to_word of_word
to_word-of_word (unsigned k) w h = ground arith
to_word-of_word (signed k) w h = ground arith

-- Packing succeeds only as one word before the packed rest.
pub pack_cons :
    (f : Field) (fs : Format) (v : ℤ) (vs : List ℤ) (bs : Bytes)
    → pack (f ∷ fs) (v ∷ vs) ≡ some bs
    → (w : ℕ) × (rest : Bytes) × (to_word f v ≡ some w)
      × (pack fs vs ≡ some rest)
      × (be_digits 255 (width f) w ++ rest ≡ bs)
unfolding pack
pack_cons f fs v vs bs h = elim (Option-cases (to_word f v)) [
  | inl no_word ↦ ground arith
  | inr (w, e) ↦ elim (Option-cases (pack fs vs)) [
    | inl no_rest ↦ ground arith
    | inr (rest, e') ↦ (w, rest, e, e', ground arith)
  ]
]

pub length-pack :
    (fs : Format) (vs : List ℤ) (bs : Bytes) → pack fs vs ≡ some bs → length bs ≡ size fs
length-pack [] [] [] h = refl
length-pack [] [] (b ∷ bs) h = unfold pack in cc h
length-pack [] (v ∷ vs) bs h = unfold pack in cc h
length-pack (f ∷ fs) [] bs h = unfold pack in cc h
length-pack (f ∷ fs) (v ∷ vs) bs h =
    let (w, rest, word, tail, e) = pack_cons f fs v vs bs h in
    rw (← e) (
      omega (
        arith,
        length-append (be_digits 255 (width f) w) rest,
        length-be_digits 255 (width f) w,
        length-pack fs vs rest tail,
      ))

pub pack-All : (fs : Format) (vs : List ℤ) (bs : Bytes) → pack fs vs ≡ some bs → All IsByte bs
pack-All [] [] [] h = tt
pack-All [] [] (b ∷ bs) h = unfold pack in cc h
pack-All [] (v ∷ vs) bs h = unfold pack in cc h
pack-All (f ∷ fs) [] bs h = unfold pack in cc h
pack-All (f ∷ fs) (v ∷ vs) bs h =
    let (w, rest, word, tail, e) = pack_cons f fs v vs bs h in
    rw (← e) (
      All-append IsByte (be_digits 255 (width f) w) rest (be_digits-All 255 (width f) w)
        (pack-All fs vs rest tail))

unpack_fields-pack :
    (fs : Format) (vs : List ℤ) (bs : Bytes) → pack fs vs ≡ some bs → unpack_fields fs bs ≡ vs
unfolding unpack_fields
unpack_fields-pack [] [] bs h = refl
unpack_fields-pack [] (v ∷ vs) bs h = unfold pack in cc h
unpack_fields-pack (f ∷ fs) [] bs h = unfold pack in cc h
unpack_fields-pack (f ∷ fs) (v ∷ vs) bs h =
    let (w, rest, word, tail, e) = pack_cons f fs v vs bs h in
    let k : ℕ = width f in
    let n : length (be_digits 255 k w) ≡ k = length-be_digits 255 k w in
    let fits = of_word-to_word f v w word in
    rw (← e) (
      rw
        (
          take-append k (be_digits 255 k w) rest n,
          drop-append k (be_digits 255 k w) rest n,
          be_value-be_digits 255 k w fits.1,
        )
        (cc (fits.0, unpack_fields-pack fs vs rest tail)))

-- What was packed is unpacked to the same values.
pub unpack-pack :
    (fs : Format) (vs : List ℤ) (bs : Bytes) → pack fs vs ≡ some bs → unpack fs bs ≡ some vs
unfolding unpack
unpack-pack fs vs bs h = ground (arith, length-pack fs vs bs h, unpack_fields-pack fs vs bs h)

pack-unpack_fields :
    (fs : Format) (bs : Bytes)
    → All IsByte bs
    → length bs ≡ size fs
    → pack fs (unpack_fields fs bs) ≡ some bs
unfolding unpack_fields pack
pack-unpack_fields [] [] a h = refl
pack-unpack_fields [] (b ∷ bs) a h = absurd (omega arith)
pack-unpack_fields (f ∷ fs) bs a h =
    let k : ℕ = width f in
    let n : length (take k bs) ≡ k = length-take k bs (omega arith) in
    let d = All-take IsByte k bs a in
    let lt = be_value-lt 255 (take k bs) d in
    rw (
      to_word-of_word f (be_value 255 (take k bs)) (rw n at lt),
      pack-unpack_fields fs (drop k bs) (All-drop IsByte k bs a) (omega (arith, length-drop k bs)),
      ap (λ m. be_digits 255 m (be_value 255 (take k bs))) (sym n),
      be_digits-be_value 255 (take k bs) d,
      append-take-drop k bs,
    )

-- Bytes of the right number are packed again to what they were.
pub pack-unpack :
    (fs : Format) (bs : Bytes) (vs : List ℤ)
    → All IsByte bs
    → unpack fs bs ≡ some vs
    → pack fs vs ≡ some bs
unfolding unpack
pack-unpack fs bs vs a h = ground (arith, pack-unpack_fields fs bs a)

-- An unsigned field takes every number below its modulus.
pub to_word_unsigned :
    (k : ℕ) (z : ℤ)
    → pos 0 ≤ℤ z
    → pos_part z < 256 ^ k + neg_part z
    → to_word (unsigned k) z ≡ some (pos_part z)
unfolding to_word
to_word_unsigned k (pos n) lo hi = ground arith
to_word_unsigned k (negsuc n) lo hi = absurd (omega arith)

-- A signed field takes the numbers of two's complement.
pub to_word_signed :
    (k : ℕ) (z : ℤ)
    → 2 * pos_part z < 256 ^ k + 2 * neg_part z
    → 2 * neg_part z ≤ 256 ^ k + 2 * pos_part z
    → (w : ℕ) × (to_word (signed k) z ≡ some w)
unfolding to_word
to_word_signed k (pos n) hi lo = (n, ground arith)
to_word_signed k (negsuc n) hi lo = (256 ^ k - suc n, ground arith)

pub pack_step :
    (f : Field) (fs : Format) (v : ℤ) (vs : List ℤ) {w : ℕ} {rest : Bytes}
    → to_word f v ≡ some w
    → pack fs vs ≡ some rest
    → pack (f ∷ fs) (v ∷ vs) ≡ some (be_digits 255 (width f) w ++ rest)
unfolding pack
pack_step f fs v vs word tail = rw (word, tail)

pub pack_nil : pack [] [] ≡ some []
unfolding pack
pack_nil = refl
