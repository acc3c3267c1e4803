-- ===== src/Util/Hash.antt =====
-- pkg/util/md5.go: the hashes that it computes itself. A string is its bytes; `runes` stands for the
-- conversion of UTF-8 to code points that a loop over a string makes.
use net_flux.Base.{
  ℕ, zero, suc, ◌+◌, ◌*◌, ◌/◌, ◌%◌, ◌^◌, ◌<◌, ◌≤◌, ◌≡◌, refl, sym, ap, ◌∙◌, List, [], ◌∷◌, ◌++◌,
  length, take, drop, get_or, length-drop, drop-drop, take-append-drop, arith,
}
use native.Mathlib.Nat.{suc-add}

abbrev pub offset64 : ℕ
offset64 = 14695981039346656037

abbrev pub prime64 : ℕ
prime64 = 1099511628211

-- The exclusive or of numbers of some bits.
unfoldable pub xor : ℕ → ℕ → ℕ → ℕ
xor zero a b = 0
xor (suc bits) a b = (a % 2 + b % 2) % 2 + 2 * xor bits (a / 2) (b / 2)

-- `hash = (hash ^ uint64(c)) * prime64`
unfoldable pub mix : ℕ → ℕ → ℕ
mix hash c = xor 64 hash c * prime64 % 2 ^ 64

-- The body of the loop over the blocks; `offset` is within the string.
unfoldable pub mix_block : List ℕ → ℕ → ℕ → ℕ
mix_block str offset hash =
    let h0 = mix hash (get_or str offset 0) in
    let h1 = mix h0 (get_or str (offset + 1) 0) in
    let h2 = mix h1 (get_or str (offset + 2) 0) in
    let h3 = mix h2 (get_or str (offset + 3) 0) in
    let h4 = mix h3 (get_or str (offset + 4) 0) in
    let h5 = mix h4 (get_or str (offset + 5) 0) in
    let h6 = mix h5 (get_or str (offset + 6) 0) in mix h6 (get_or str (offset + 7) 0)

-- The loop, with the rounds that are left: the offset and the hash after it.
unfoldable pub mix_blocks : ℕ → List ℕ → ℕ → ℕ → ℕ × ℕ
mix_blocks zero str offset hash = (offset, hash)
mix_blocks (suc rounds) str offset hash =
    mix_blocks rounds str (offset + 8) (mix_block str offset hash)

-- The loop over code points, or over the bytes of a string.
unfoldable pub mix_each : List ℕ → ℕ → ℕ
mix_each [] hash = hash
mix_each (c ∷ cs) hash = mix_each cs (mix hash c)

unfoldable pub hash : (List ℕ → List ℕ) → List ℕ → ℕ
hash runes str =
    let (offset, h) = mix_blocks (length str / 8) str 0 offset64 in
    mix_each (runes (drop offset str)) h

-- The loop of `SimpleHash`
unfoldable pub sum_bytes : List ℕ → ℕ → ℕ
sum_bytes [] sum = sum
sum_bytes (b ∷ bs) sum = sum_bytes bs ((sum + b) % 2 ^ 64)

unfoldable pub simple_hash : List ℕ → ℕ
simple_hash buf = sum_bytes buf 0

-- The bytes that are below 128.
abbrev pub IsAscii : List ℕ → Type 0
IsAscii [] = Unit {0}
IsAscii (b ∷ bs) = (b < 128) × IsAscii bs

-- UTF-8: each byte below 128 is a code point of its own.
abbrev pub KeepsAscii : (List ℕ → List ℕ) → Type 0
KeepsAscii runes = (str : List ℕ) → IsAscii str → runes str ≡ str

mix_each-append : (xs ys : List ℕ) (h : ℕ) → mix_each (xs ++ ys) h ≡ mix_each ys (mix_each xs h)
unfolding mix_each
mix_each-append [] ys h = refl
mix_each-append (x ∷ xs) ys h = mix_each-append xs ys (mix h x)

take_empty : (n : ℕ) → take {A = ℕ} n [] ≡ []
take_empty zero = refl
take_empty (suc n) = refl

get_or-drop : (str : List ℕ) (n i : ℕ) → get_or str (n + i) 0 ≡ get_or (drop n str) i 0
get_or-drop str zero i = ap (λ j. get_or str j 0) (omega arith)
get_or-drop [] (suc n) i = refl
get_or-drop (x ∷ str) (suc n) i = rw suc-add (get_or-drop str n i)

take-add : (m n : ℕ) (xs : List ℕ) → take (m + n) xs ≡ take m xs ++ take n (drop m xs)
take-add zero n xs = ap (λ k. take k xs) (omega arith)
take-add (suc m) n [] = rw suc-add (sym (take_empty n))
take-add (suc m) n (x ∷ xs) = rw suc-add (ap (◌∷◌ x) (take-add m n xs))

-- A block is eight steps of the plain loop.
mix_block-take :
    (str : List ℕ) (h : ℕ) → 8 ≤ length str → mix_block str 0 h ≡ mix_each (take 8 str) h
unfolding mix_block mix_each
mix_block-take (a ∷ b ∷ c ∷ d ∷ e ∷ f ∷ g ∷ i ∷ str) h enough = refl
mix_block-take [] h enough = absurd (omega arith)
mix_block-take (a ∷ []) h enough = absurd (omega arith)
mix_block-take (a ∷ b ∷ []) h enough = absurd (omega arith)
mix_block-take (a ∷ b ∷ c ∷ []) h enough = absurd (omega arith)
mix_block-take (a ∷ b ∷ c ∷ d ∷ []) h enough = absurd (omega arith)
mix_block-take (a ∷ b ∷ c ∷ d ∷ e ∷ []) h enough = absurd (omega arith)
mix_block-take (a ∷ b ∷ c ∷ d ∷ e ∷ f ∷ []) h enough = absurd (omega arith)
mix_block-take (a ∷ b ∷ c ∷ d ∷ e ∷ f ∷ g ∷ []) h enough = absurd (omega arith)

mix_block-drop : (str : List ℕ) (n h : ℕ) → mix_block str n h ≡ mix_block (drop n str) 0 h
unfolding mix_block
mix_block-drop str n h =
    let at = get_or-drop str n in
    let first = ap (λ j. get_or str j 0) {x = n} {y = n + 0} (omega arith) ∙ at 0 in
    rw (first, at 1, at 2, at 3, at 4, at 5, at 6, at 7) refl

mix_blocks-offset :
    (rounds : ℕ) (str : List ℕ) (n h : ℕ) → (mix_blocks rounds str n h).0 ≡ n + 8 * rounds
unfolding mix_blocks
mix_blocks-offset zero str n h = omega arith
mix_blocks-offset (suc rounds) str n h =
    omega (arith, mix_blocks-offset rounds str (n + 8) (mix_block str n h))

mix_blocks-each :
    (rounds : ℕ) (str : List ℕ) (n h : ℕ)
    → n + 8 * rounds ≤ length str
    → (mix_blocks rounds str n h).1 ≡ mix_each (take (8 * rounds) (drop n str)) h
unfolding mix_blocks mix_each
mix_blocks-each zero str n h enough = refl
mix_blocks-each (suc rounds) str n h enough =
    let xs = drop n str in
    let block =
      mix_block-drop str n h ∙ mix_block-take xs h (omega (arith, length-drop n str, enough)) in
    let rest = mix_blocks-each rounds str (n + 8) (mix_block str n h) (omega arith) in
    let split =
      ap (λ k. take k xs) {x = 8 * suc rounds} {y = 8 + 8 * rounds} (omega arith)
      ∙ take-add 8 (8 * rounds) xs in
    let moved = drop-drop n 8 str in
    rest
    ∙ rw (block, sym moved) (sym (mix_each-append (take 8 xs) (take (8 * rounds) (drop 8 xs)) h))
    ∙ ap (λ ys. mix_each ys h) (sym split)

-- Where the code points of ASCII bytes are those bytes, and the bytes of a string behind its last whole
-- block of eight are ASCII: its `Hash` is the plain loop over all its bytes, whatever the others are.
pub hash-mix_each :
    (runes : List ℕ → List ℕ) (str : List ℕ)
    → KeepsAscii runes
    → IsAscii (drop (8 * (length str / 8)) str)
    → hash runes str ≡ mix_each str offset64
unfolding hash
hash-mix_each runes str keeps ascii =
    let rounds = length str / 8 in
    let first = mix_blocks-each rounds str 0 offset64 (omega arith) in
    let last = mix_blocks-offset rounds str 0 offset64 in
    let behind = ap (λ n. runes (drop n str)) (last ∙ omega arith) ∙ keeps _ ascii in
    rw (behind, first)
      (sym (mix_each-append (take (8 * rounds) str) (drop (8 * rounds) str) offset64)
        ∙ ap (λ xs. mix_each xs offset64) (take-append-drop (8 * rounds) str))
