-- ===== src/Std/Uuid/RoundTrip.antt =====
-- The number of a UUID is read back from its canonical text.
use cislunar_ground_platform.Base.{
  ℕ, ◌+◌, ◌*◌, ◌^◌, ◌<◌, ◌≤◌, List, [], ◌∷◌, ◌++◌, Bytes, map, take, drop, All, append-take-drop,
  ◌≡◌, refl, sym, ap, ◌∙◌, arith,
}
use cislunar_ground_platform.Base.Digits.{
  horner, horner-be_value, be_digits, be_value-be_digits, be_digits-All, IsDigit,
}
use cislunar_ground_platform.Std.Uuid.{uuid_of, next_value, hex_char, groups, uuid_text}

uuid_of-append :
    (xs : Bytes) (v : ℕ) (ys : Bytes) → uuid_of v (xs ++ ys) ≡ uuid_of (uuid_of v xs) ys
unfolding uuid_of
uuid_of-append [] v ys = refl
uuid_of-append (x ∷ xs) v ys = uuid_of-append xs (next_value v x) ys

-- The dashes between the groups do not count.
uuid_of-groups : (ks : List ℕ) (v : ℕ) (cs : Bytes) → uuid_of v (groups ks cs) ≡ uuid_of v cs
unfolding groups uuid_of
uuid_of-groups [] v cs = refl
uuid_of-groups (k ∷ ks) v cs =
    uuid_of-append (take k cs) v (b'-' ∷ groups ks (drop k cs))
    ∙ uuid_of-groups ks (uuid_of v (take k cs)) (drop k cs)
    ∙ sym (uuid_of-append (take k cs) v (drop k cs))
    ∙ ap (uuid_of v) (append-take-drop k cs)

next_value-hex_char : (v d : ℕ) → d ≤ 15 → next_value v (hex_char d) ≡ v * 16 + d
next_value-hex_char v d h = ground arith

uuid_of-hex :
    (ds : List ℕ) (v : ℕ) → All (IsDigit 15) ds → uuid_of v (map hex_char ds) ≡ horner 15 v ds
unfolding uuid_of horner
uuid_of-hex [] v h = refl
uuid_of-hex (d ∷ ds) v h =
    ap (λ w. uuid_of w (map hex_char ds)) (next_value-hex_char v d h.0)
    ∙ uuid_of-hex ds (v * 16 + d) h.1

pub uuid_of-uuid_text : (n : ℕ) → n < 16 ^ 32 → uuid_of 0 (uuid_text n) ≡ n
unfolding uuid_text
uuid_of-uuid_text n h =
    uuid_of-groups (8 ∷ 4 ∷ 4 ∷ 4 ∷ []) 0 (map hex_char (be_digits 15 32 n))
    ∙ uuid_of-hex (be_digits 15 32 n) 0 (be_digits-All 15 32 n)
    ∙ horner-be_value 15 (be_digits 15 32 n)
    ∙ be_value-be_digits 15 32 n h
