-- ===== src/Core/Rng.antt =====
-- packages/core/src/rng.ts: the seed of a match, hashed to four words, and the sfc32 generator. A state
-- is a `Uint32Array` of four words.
use europa_neo.Prelude.{
  ◌-◌, ℤ, pos, negsuc, at, ℕ, zero, suc, ◌+◌, ◌*◌, ◌/◌, ◌%◌, ◌^◌, ltb, if◌then◌else◌, bit_or,
  bit_xor, List, [], ◌∷◌, ◌++◌, length, u32,
}

-- `Math.imul(a, b) >>> 0`.
abbrev pub imul : ℕ → ℕ → ℕ
imul a b = u32 (a * b)

abbrev shift_left : ℕ → ℕ → ℕ
shift_left h k = u32 (h * 2 ^ k)

abbrev shift_right : ℕ → ℕ → ℕ
shift_right h k = h / 2 ^ k

-- The loop of `xmur3` over the code units.
unfoldable pub xmur3_mix : List ℕ → ℕ → ℕ
xmur3_mix [] h = h
xmur3_mix (c ∷ cs) h =
    let m = imul (bit_xor h c) 0xcc9e2d51 in
    xmur3_mix cs (bit_or (shift_left m 13) (shift_right m 19))

-- The state that the closure of `xmur3` starts with.
unfoldable pub xmur3 : List ℕ → ℕ
xmur3 s = xmur3_mix s (u32 (bit_xor 0x6c078965 (length s)))

-- One call of the closure: its next state, which is also the word it returns.
unfoldable pub xmur3_next : ℕ → ℕ
xmur3_next h =
    let a = imul (bit_xor h (shift_right h 16)) 0x85ebca6b in
    let b = imul (bit_xor a (shift_right a 13)) 0xc2b2ae35 in u32 (bit_xor b (shift_right b 16))

-- `String(n)` of a natural number below 10 ^ (fuel + 1).
unfoldable pub digits : ℕ → ℕ → List ℕ
digits zero n = (b'0' + n % 10) ∷ []
digits (suc fuel) n =
    let rest = digits fuel (n / 10) in
    if ltb n 10 then (b'0' + n) ∷ [] else rest ++ (b'0' + n % 10) ∷ []

-- A seed of 32 bits has at most ten digits.
unfoldable pub hash_seed : ℕ → List ℕ
hash_seed seed =
    let a = xmur3_next (xmur3 (digits 9 seed)) in
    let b = xmur3_next a in let c = xmur3_next b in a ∷ b ∷ c ∷ xmur3_next c ∷ []

-- `n | 0` of a word: its signed reading.
unfoldable pub to_int32 : ℕ → ℤ
to_int32 n = if ltb n (2 ^ 31) then pos n else negsuc (2 ^ 32 - 1 - n)

-- One call of the generator on a state: the state that it leaves, and the number that it returns.
-- Modulo 2 ^ 32 the signed intermediate results are the words below.
unfoldable pub rng_next : List ℕ → List ℕ × ℤ
rng_next state =
    let a = at state 0 in
    let b = at state 1 in
    let c = at state 2 in
    let d = u32 (at state 3 + 1) in
    let t = u32 (u32 (a + b) + d) in
    let rotated = bit_or (shift_left c 21) (shift_right c 11) in
    (
      u32 (bit_xor b (shift_right b 9)) ∷ u32 (c + shift_left c 3) ∷ u32 (rotated + t) ∷ d ∷ [],
      to_int32 t,
    )
