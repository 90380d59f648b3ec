-- ===== src/Crypto/Alphabet.antt =====
-- `randomBase32` and `newId` of lib/crypto.ts: the length and the letters of what they draw.
use Prim.Native.Nat.{min}
use z_shield.Prelude.{
  ℕ, zero, suc, ◌+◌, ◌-◌, ◌<◌, ◌%◌, ◌≡◌, refl, true, Bool, List, [], ◌∷◌, arith, ltb, leb, ◌==◌,
  length, if◌then◌else◌, ◌||◌, ◌&&◌, All, Bool-cases, inl, inr,
}
use z_shield.Table.{count_where, All-append}
use z_shield.Text.{Text, text_eq}
use z_shield.Text.Slices.{length-append}
use z_shield.Crypto.{Bytes, alphabet, get_or, draw, random_base32}

-- The bytes that one round accepts, and those of all rounds.
abbrev pub accepted : Bytes → ℕ
accepted [] = 0
accepted (byte ∷ bytes) = let rest = accepted bytes in if ltb byte 248 then suc rest else rest

abbrev pub accepted_all : List Bytes → ℕ
accepted_all [] = 0
accepted_all (round ∷ rounds) = accepted round + accepted_all rounds

length-draw :
    (wanted : ℕ) (bytes : Bytes) → length (draw wanted bytes) ≡ min wanted (accepted bytes)
unfolding draw
length-draw zero bytes = omega arith
length-draw (suc wanted) [] = omega arith
length-draw (suc wanted) (byte ∷ bytes) =
    ground (arith, length-draw wanted bytes, length-draw (suc wanted) bytes)

-- The text has the letters that were asked for as soon as the rounds hold as many accepted bytes,
-- and never more.
pub length-random_base32 :
    (wanted : ℕ) (rounds : List Bytes)
    → length (random_base32 wanted rounds) ≡ min wanted (accepted_all rounds)
unfolding random_base32
length-random_base32 wanted [] = omega arith
length-random_base32 wanted (round ∷ rounds) =
    let rest = wanted - length (draw wanted round) in
    omega (
      arith,
      length-draw wanted round,
      length-random_base32 rest rounds,
      length-append (draw wanted round) (random_base32 rest rounds),
    )

-- A digit or a lower case letter: the class [0-9a-z].
abbrev pub is_lower_alnum : ℕ → Bool
is_lower_alnum c = (leb 48 c && leb c 57) || (leb 97 c && leb c 122)

abbrev IsLetter : ℕ → Type 0
IsLetter c = is_lower_alnum c ≡ true

get_or-All : (P : ℕ → Type 0) (d : ℕ) (xs : Text) (i : ℕ) → P d → All P xs → P (get_or d xs i)
get_or-All P d [] i h k = h
get_or-All P d (x ∷ xs) zero h k = k.0
get_or-All P d (x ∷ xs) (suc i) h k = get_or-All P d xs i h k.1

draw-IsLetter : (wanted : ℕ) (bytes : Bytes) → All IsLetter (draw wanted bytes)
unfolding draw
draw-IsLetter zero bytes = tt
draw-IsLetter (suc wanted) [] = tt
draw-IsLetter (suc wanted) (byte ∷ bytes) = elim (Bool-cases (ltb byte 248)) [
  | inl e ↦ rw e (
    get_or-All IsLetter b'0' alphabet (byte % 32) refl (ground arith),
    draw-IsLetter wanted bytes,
  )
  | inr e ↦ rw e (draw-IsLetter (suc wanted) bytes)
]

pub random_base32-IsLetter :
    (wanted : ℕ) (rounds : List Bytes) → All IsLetter (random_base32 wanted rounds)
unfolding random_base32
random_base32-IsLetter wanted [] = tt
random_base32-IsLetter wanted (round ∷ rounds) =
    All-append IsLetter (draw wanted round) _ (draw-IsLetter wanted round)
      (random_base32-IsLetter (wanted - length (draw wanted round)) rounds)

abbrev below : ℕ → List ℕ
below zero = []
below (suc n) = n ∷ below n

-- The number of random bytes from which the letter at place `i` of the alphabet is drawn.
pub ways : ℕ → ℕ
unfolding count_where draw text_eq
ways i = count_where (λ b. text_eq (draw 1 (b ∷ [])) (get_or b'0' alphabet i ∷ [])) (below 256)

expected : ℕ → ℕ
expected i = if ltb i 24 then 8 else 7

-- The letters at which the count is not the expected one.
odd_ones : List ℕ → List ℕ
odd_ones [] = []
odd_ones (i ∷ is) = let rest = odd_ones is in if ways i == expected i then rest else i ∷ rest

odd_ones-below : (n i : ℕ) → i < n → Path (List ℕ) (odd_ones (below n)) [] → ways i ≡ expected i
unfolding odd_ones
odd_ones-below zero i h e = absurd (omega arith)
odd_ones-below (suc n) i h e = elim (Bool-cases (i == n)) [
  | inl same ↦ ground arith
  | inr other ↦ odd_ones-below n i (ground arith) (ground arith)
]

no_odd_ones : Path (List ℕ) (odd_ones (below 32)) []
unfolding odd_ones ways expected
no_odd_ones = refl

-- The rejection of the bytes from 248 up makes the draw uneven: each of the first 24 letters is
-- drawn from eight of the 256 bytes, each of the last 8 letters from seven.
pub ways_uneven : (i : ℕ) → i < 32 → ways i ≡ (if ltb i 24 then 8 else 7)
ways_uneven i h = unfold expected in odd_ones-below 32 i h no_odd_ones
