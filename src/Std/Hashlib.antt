-- ===== src/Std/Hashlib.antt =====
-- `hashlib.sha256(data).hexdigest()`: SHA-256 on words below 2 ^ 32, and its 64 hexadecimal digits.
use cislunar_ground_platform.Base.{
  ℕ, zero, suc, ◌+◌, ◌-◌, ◌*◌, ◌/◌, ◌%◌, ◌^◌, ◌≡◌, refl, List, [], ◌∷◌, ◌++◌, Bytes, bit_and,
  bit_xor, ltb, if◌then◌else◌, length, take, drop, map,
}
use cislunar_ground_platform.Base.Digits.{be_digits, be_value}

abbrev round_constants : List ℕ
round_constants =
    0x428a2f98 ∷ 0x71374491 ∷ 0xb5c0fbcf ∷ 0xe9b5dba5 ∷ 0x3956c25b ∷ 0x59f111f1 ∷ 0x923f82a4
    ∷ 0xab1c5ed5 ∷ 0xd807aa98 ∷ 0x12835b01 ∷ 0x243185be ∷ 0x550c7dc3 ∷ 0x72be5d74 ∷ 0x80deb1fe
    ∷ 0x9bdc06a7 ∷ 0xc19bf174 ∷ 0xe49b69c1 ∷ 0xefbe4786 ∷ 0x0fc19dc6 ∷ 0x240ca1cc ∷ 0x2de92c6f
    ∷ 0x4a7484aa ∷ 0x5cb0a9dc ∷ 0x76f988da ∷ 0x983e5152 ∷ 0xa831c66d ∷ 0xb00327c8 ∷ 0xbf597fc7
    ∷ 0xc6e00bf3 ∷ 0xd5a79147 ∷ 0x06ca6351 ∷ 0x14292967 ∷ 0x27b70a85 ∷ 0x2e1b2138 ∷ 0x4d2c6dfc
    ∷ 0x53380d13 ∷ 0x650a7354 ∷ 0x766a0abb ∷ 0x81c2c92e ∷ 0x92722c85 ∷ 0xa2bfe8a1 ∷ 0xa81a664b
    ∷ 0xc24b8b70 ∷ 0xc76c51a3 ∷ 0xd192e819 ∷ 0xd6990624 ∷ 0xf40e3585 ∷ 0x106aa070 ∷ 0x19a4c116
    ∷ 0x1e376c08 ∷ 0x2748774c ∷ 0x34b0bcb5 ∷ 0x391c0cb3 ∷ 0x4ed8aa4a ∷ 0x5b9cca4f ∷ 0x682e6ff3
    ∷ 0x748f82ee ∷ 0x78a5636f ∷ 0x84c87814 ∷ 0x8cc70208 ∷ 0x90befffa ∷ 0xa4506ceb ∷ 0xbef9a3f7
    ∷ 0xc67178f2 ∷ []

abbrev initial_hash : List ℕ
initial_hash =
    0x6a09e667 ∷ 0xbb67ae85 ∷ 0x3c6ef372 ∷ 0xa54ff53a ∷ 0x510e527f ∷ 0x9b05688c ∷ 0x1f83d9ab
    ∷ 0x5be0cd19 ∷ []

rotr : ℕ → ℕ → ℕ
rotr k x = x / 2 ^ k + x % 2 ^ k * 2 ^ (32 - k)

xor3 : ℕ → ℕ → ℕ → ℕ
xor3 a b c = bit_xor a (bit_xor b c)

add32 : ℕ → ℕ → ℕ
add32 a b = (a + b) % 2 ^ 32

word_at : ℕ → List ℕ → ℕ
word_at i [] = 0
word_at zero (w ∷ ws) = w
word_at (suc i) (w ∷ ws) = word_at i ws

-- The next word of the message schedule, from the sixteen before it.
schedule : List ℕ → ℕ
unfolding rotr xor3 add32 word_at
schedule w =
    let x = word_at 1 w in
    let y = word_at 14 w in
    let s0 = xor3 (rotr 7 x) (rotr 18 x) (x / 2 ^ 3) in
    let s1 = xor3 (rotr 17 y) (rotr 19 y) (y / 2 ^ 10) in
    add32 (add32 (word_at 0 w) s0) (add32 (word_at 9 w) s1)

compress_round : ℕ → ℕ → List ℕ → List ℕ
unfolding rotr xor3 add32 word_at
compress_round k w s =
    let a = word_at 0 s in
    let b = word_at 1 s in
    let c = word_at 2 s in
    let e = word_at 4 s in
    let choice = bit_xor (bit_and e (word_at 5 s)) (bit_and (2 ^ 32 - 1 - e) (word_at 6 s)) in
    let s1 = xor3 (rotr 6 e) (rotr 11 e) (rotr 25 e) in
    let t1 = add32 (add32 (word_at 7 s) s1) (add32 choice (add32 k w)) in
    let s0 = xor3 (rotr 2 a) (rotr 13 a) (rotr 22 a) in
    let t2 = add32 s0 (xor3 (bit_and a b) (bit_and a c) (bit_and b c)) in
    add32 t1 t2 ∷ a ∷ b ∷ c ∷ add32 (word_at 3 s) t1 ∷ take 3 (drop 4 s)

rounds : List ℕ → List ℕ → List ℕ → List ℕ
unfolding schedule compress_round
rounds [] w s = s
rounds (k ∷ ks) w s = rounds ks (drop 1 w ++ (schedule w ∷ [])) (compress_round k (word_at 0 w) s)

add_words : List ℕ → List ℕ → List ℕ
add_words [] ys = []
add_words (x ∷ xs) [] = []
add_words (x ∷ xs) (y ∷ ys) = add32 x y ∷ add_words xs ys

words_of : ℕ → Bytes → List ℕ
words_of zero bs = []
words_of (suc k) bs = be_value 255 (take 4 bs) ∷ words_of k (drop 4 bs)

blocks : ℕ → Bytes → List ℕ → List ℕ
unfolding rounds add_words words_of add32 be_value
blocks zero bs h = h
blocks (suc n) bs h =
    blocks n (drop 64 bs) (add_words h (rounds round_constants (words_of 16 bs) h))

zeros : ℕ → Bytes
zeros zero = []
zeros (suc k) = 0 ∷ zeros k

padded : Bytes → Bytes
unfolding zeros be_digits
padded bs =
    let n = length bs in bs ++ (0x80 ∷ zeros ((119 - n % 64) % 64) ++ be_digits 255 8 (8 * n))

hex_digits : ℕ → Bytes
unfolding be_digits
hex_digits w = map (λ d. if ltb d 10 then d + 48 else d + 87) (be_digits 15 8 w)

concat_hex : List ℕ → Bytes
unfolding hex_digits
concat_hex [] = []
concat_hex (w ∷ ws) = hex_digits w ++ concat_hex ws

pub sha256_hexdigest : Bytes → Bytes
unfolding blocks padded concat_hex
sha256_hexdigest bs = concat_hex (blocks ((length bs + 72) / 64) (padded bs) initial_hash)

-- The first eight digits of the digest of "abc" are "ba7816bf".
sha256_abc :
    take 8 (sha256_hexdigest (0x61 ∷ 0x62 ∷ 0x63 ∷ []))
    ≡ 0x62 ∷ 0x61 ∷ 0x37 ∷ 0x38 ∷ 0x31 ∷ 0x36 ∷ 0x62 ∷ 0x66 ∷ []
unfolding sha256_hexdigest
sha256_abc = refl
