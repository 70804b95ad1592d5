-- ===== src/Telemetry/Codec/PacketId.antt =====
-- codec.py: the text that `format_packet_id` gives to a packet key.
use cislunar_ground_platform.Base.{
  ℕ, ◌^◌, ◌<◌, ◌≡◌, sym, ap, ◌∙◌, ◌++◌, Bytes, length, take, drop, take-append, drop-append, arith,
}
use cislunar_ground_platform.Base.Int.{pos}
use cislunar_ground_platform.Std.Format.{format_int}
use cislunar_ground_platform.Std.Format.Injective.{format_int-injective, length-format_int}
use cislunar_ground_platform.Telemetry.Codec.{packet_id_text}

-- Two prefixes of the same length before any rests are equal when the whole texts are.
append-injective :
    (k : ℕ) (xs ys us vs : Bytes)
    → length xs ≡ k
    → length us ≡ k
    → xs ++ ys ≡ us ++ vs
    → (xs ≡ us) × (ys ≡ vs)
append-injective k xs ys us vs m n h = (
  sym (take-append k xs ys m) ∙ ap (take k) h ∙ take-append k us vs n,
  sym (drop-append k xs ys m) ∙ ap (drop k) h ∙ drop-append k us vs n,
)

-- Keys in the ranges of the fields have different texts unless they are equal.
pub packet_id_text-injective :
    (p b s p' b' s' : ℕ)
    → p < 100
    → b < 2 ^ 32
    → s < 2 ^ 32
    → p' < 100
    → b' < 2 ^ 32
    → s' < 2 ^ 32
    → packet_id_text (pos p) (pos b) (pos s) ≡ packet_id_text (pos p') (pos b') (pos s')
    → (p ≡ p') × (b ≡ b') × (s ≡ s')
unfolding packet_id_text
packet_id_text-injective p b s p' b' s' hp hb hs hp' hb' hs' h =
    let (i, h₁) =
      append-injective 2 (format_int 9 2 (pos p)) _ (format_int 9 2 (pos p')) _
        (length-format_int 9 2 p hp) (length-format_int 9 2 p' hp') (ap (drop 5) h) in
    let (j, h₂) =
      append-injective 8 (format_int 15 8 (pos b)) _ (format_int 15 8 (pos b')) _
        (length-format_int 15 8 b hb) (length-format_int 15 8 b' hb') (ap (drop 2) h₁) in
    (
      format_int-injective 9 2 p p' (omega arith) hp hp' i,
      format_int-injective 15 8 b b' (omega arith) hb hb' j,
      format_int-injective 15 8 s s' (omega arith) hs hs' (ap (drop 2) h₂),
    )
