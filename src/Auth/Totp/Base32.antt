-- ===== src/Auth/Totp/Base32.antt =====
-- A secret of the second factor is decoded again to the bytes that were drawn.
use z_shield.Prelude.{
  ℕ, zero, suc, ◌+◌, ◌-◌, ◌*◌, ◌/◌, ◌%◌, ◌^◌, ◌<◌, ◌≤◌, ◌≡◌, refl, ap, ◌∙◌, Bool, true, false, not,
  ◌&&◌, Bool-cases, inl, inr, Option, none, some, [], ◌∷◌, arith, All, ltb, leb, ◌==◌,
}
use z_shield.Table.{All-append}
use z_shield.Text.{Text, to_upper, upper_code}
use z_shield.Crypto.{Bytes}
use z_shield.Auth.Totp.{
  letter, shift_in, emit, encode_from, generate_totp_secret, is_space, strip_spaces, strip_equals,
  equals_then, index_of, decode_from, base32_decode,
}

abbrev pub AreBytes : Bytes → Type 0
AreBytes bytes = All (λ b. b < 256) bytes

-- Every letter is found at its index, and is not changed on the way there.
abbrev good_letter : ℕ → Bool
good_letter i =
    let c = letter i in
    elim (index_of c) [ none ↦ false | some j ↦ j == i ]
    && (not (is_space c) && (not (c == b'=') && upper_code c == c))

abbrev each_below : ℕ → (ℕ → Bool) → Bool
each_below zero test = true
each_below (suc n) test = test n && each_below n test

each_below_lem :
    (n : ℕ) (test : ℕ → Bool) (i : ℕ) → each_below n test ≡ true → i < n → test i ≡ true
each_below_lem zero test i h k = absurd (omega arith)
each_below_lem (suc n) test i h k = ground (arith, each_below_lem n test i)

letters_good : each_below 32 good_letter ≡ true
unfolding upper_code letter index_of
letters_good = refl

good : (i : ℕ) → i < 32 → good_letter i ≡ true
good i h = each_below_lem 32 good_letter i letters_good h

index_of-letter : (i : ℕ) → i < 32 → index_of (letter i) ≡ some i
index_of-letter i h = from_test (index_of (letter i)) i (ground (arith, good i h))
  where
    from_test :
        (o : Option ℕ) (i : ℕ) → elim o [ none ↦ false | some j ↦ j == i ] ≡ true → o ≡ some i
    from_test none i h = cc
    from_test (some j) i h = ground arith

-- one letter, without a whole byte and with one
decode_short :
    (value bits i : ℕ) (s : Text)
    → i < 32
    → bits < 3
    → decode_from value bits (letter i ∷ s) ≡ decode_from (shift_in value 5 i) (bits + 5) s
unfolding decode_from
decode_short value bits i s h k = rw (index_of-letter i h, decode_from) (ground arith)

decode_full :
    (value bits i : ℕ) (s : Text) {bytes : Bytes}
    → i < 32
    → 3 ≤ bits
    → decode_from (shift_in value 5 i) (bits + 5 - 8) s ≡ some bytes
    → decode_from value bits (letter i ∷ s)
      ≡ some ((shift_in value 5 i / 2 ^ (bits + 5 - 8) % 256) ∷ bytes)
unfolding decode_from
decode_full value bits i s h k e = rw (index_of-letter i h, decode_from) (ground (arith, e))

-- The byte of which the decoder has the first bits in `vd`, and the encoder the last `e` in `ve`.
abbrev split_byte : ℕ → ℕ → ℕ → ℕ
split_byte e vd ve = vd % 2 ^ (8 - e) * 2 ^ e + ve % 2 ^ e

-- The decoder is behind the encoder by at most one byte: by the number of bits that the encoder has
-- left, from 0 to 4, what the decoder still makes of the rest of the encoding.
record Synchronised (bytes : Bytes) : Type 0 where
  even : (vd ve : ℕ) → decode_from vd 0 (encode_from ve 0 bytes) ≡ some bytes
  one : (vd ve : ℕ) → decode_from vd 7 (encode_from ve 1 bytes) ≡ some (split_byte 1 vd ve ∷ bytes)
  two : (vd ve : ℕ) → decode_from vd 6 (encode_from ve 2 bytes) ≡ some (split_byte 2 vd ve ∷ bytes)
  three :
      (vd ve : ℕ) → decode_from vd 5 (encode_from ve 3 bytes) ≡ some (split_byte 3 vd ve ∷ bytes)
  four : (vd ve : ℕ) → decode_from vd 4 (encode_from ve 4 bytes) ≡ some (split_byte 4 vd ve ∷ bytes)

cons_eq :
    {a b : ℕ} {s t : Bytes} → a ≡ b → s ≡ t → Path (Option Bytes) (some (a ∷ s)) (some (b ∷ t))
cons_eq p q = cc

step : (b : ℕ) (bytes : Bytes) → b < 256 → Synchronised bytes → Synchronised (b ∷ bytes)
unfolding encode_from emit
step b bytes h t = record {
  even = λ vd ve.
      let v = shift_in ve 8 b in
      let i = v / 2 ^ 3 % 32 in
      decode_short vd 0 i (encode_from v 3 bytes) (omega arith) (omega arith)
      ∙ t.three (shift_in vd 5 i) v
      ∙ cons_eq (omega arith) refl;
  one = λ vd ve.
      let v = shift_in ve 8 b in
      let i = v / 2 ^ 4 % 32 in
      decode_full vd 7 i (encode_from v 4 bytes) (omega arith) (omega arith)
        (t.four (shift_in vd 5 i) v)
      ∙ cons_eq (omega arith) (ap (λ c. c ∷ bytes) (omega arith));
  two = λ vd ve.
      let v = shift_in ve 8 b in
      let i = v / 2 ^ 5 % 32 in
      let j = v / 2 ^ 0 % 32 in
      let rest = encode_from v 0 bytes in
      decode_full vd 6 i (letter j ∷ rest) (omega arith) (omega arith) (
        decode_full (shift_in vd 5 i) 3 j rest (omega arith) (omega arith)
          (t.even (shift_in (shift_in vd 5 i) 5 j) v))
      ∙ cons_eq (omega arith) (ap (λ c. c ∷ bytes) (omega arith));
  three = λ vd ve.
      let v = shift_in ve 8 b in
      let i = v / 2 ^ 6 % 32 in
      let j = v / 2 ^ 1 % 32 in
      let rest = encode_from v 1 bytes in
      decode_full vd 5 i (letter j ∷ rest) (omega arith) (omega arith) (
        decode_short (shift_in vd 5 i) 2 j rest (omega arith) (omega arith)
        ∙ t.one (shift_in (shift_in vd 5 i) 5 j) v)
      ∙ cons_eq (omega arith) (ap (λ c. c ∷ bytes) (omega arith));
  four = λ vd ve.
      let v = shift_in ve 8 b in
      let i = v / 2 ^ 7 % 32 in
      let j = v / 2 ^ 2 % 32 in
      let rest = encode_from v 2 bytes in
      decode_full vd 4 i (letter j ∷ rest) (omega arith) (omega arith) (
        decode_short (shift_in vd 5 i) 1 j rest (omega arith) (omega arith)
        ∙ t.two (shift_in (shift_in vd 5 i) 5 j) v)
      ∙ cons_eq (omega arith) (ap (λ c. c ∷ bytes) (omega arith));
}

synchronised : (bytes : Bytes) → AreBytes bytes → Synchronised bytes
unfolding encode_from decode_from
synchronised [] h = record {
  even = λ vd ve. refl;
  one = λ vd ve.
      decode_full vd 7 (ve * 2 ^ 4 % 32) [] (omega arith) (omega arith) refl
      ∙ cons_eq (omega arith) refl;
  two = λ vd ve.
      decode_full vd 6 (ve * 2 ^ 3 % 32) [] (omega arith) (omega arith) refl
      ∙ cons_eq (omega arith) refl;
  three = λ vd ve.
      decode_full vd 5 (ve * 2 ^ 2 % 32) [] (omega arith) (omega arith) refl
      ∙ cons_eq (omega arith) refl;
  four = λ vd ve.
      decode_full vd 4 (ve * 2 ^ 1 % 32) [] (omega arith) (omega arith) refl
      ∙ cons_eq (omega arith) refl;
}
synchronised (b ∷ bytes) h = step b bytes h.0 (synchronised bytes h.1)

-- A code unit that `base32Decode` leaves as it is.
abbrev IsPlain : ℕ → Type 0
IsPlain c = (is_space c ≡ false) × ((c == b'=') ≡ false) × (upper_code c ≡ c)

letter-IsPlain : (i : ℕ) → i < 32 → IsPlain (letter i)
letter-IsPlain i h = let t = good i h in (ground arith, ground arith, ground arith)

emit-IsPlain : (rounds value bits : ℕ) → All IsPlain (emit rounds value bits).0
unfolding emit
emit-IsPlain zero value bits = tt
emit-IsPlain (suc rounds) value bits = elim (Bool-cases (leb 5 bits)) [
  | inl e ↦ rw e (letter-IsPlain _ (omega arith), emit-IsPlain rounds value (bits - 5))
  | inr e ↦ rw e tt
]

encode-IsPlain : (value bits : ℕ) (bytes : Bytes) → All IsPlain (encode_from value bits bytes)
unfolding encode_from
encode-IsPlain value bits [] = elim (Bool-cases (ltb 0 bits)) [
  | inl e ↦ rw e (letter-IsPlain _ (omega arith), tt)
  | inr e ↦ rw e tt
]
encode-IsPlain value bits (b ∷ bytes) =
    let out = emit 2 (shift_in value 8 b) (bits + 8) in
    All-append IsPlain out.0 (encode_from (shift_in value 8 b) out.1 bytes)
      (emit-IsPlain 2 (shift_in value 8 b) (bits + 8))
      (encode-IsPlain (shift_in value 8 b) out.1 bytes)

to_upper-IsPlain : (s : Text) → All IsPlain s → to_upper s ≡ s
unfolding to_upper
to_upper-IsPlain [] h = refl
to_upper-IsPlain (c ∷ s) h = ground (arith, to_upper-IsPlain s h.1)

strip_equals-IsPlain : (s : Text) → All IsPlain s → strip_equals s ≡ s
unfolding strip_equals
strip_equals-IsPlain [] h = refl
strip_equals-IsPlain (c ∷ []) h = ground arith
strip_equals-IsPlain (c ∷ d ∷ s) h = ap (equals_then c) (strip_equals-IsPlain (d ∷ s) h.1)

strip_spaces-IsPlain : (s : Text) → All IsPlain s → strip_spaces s ≡ s
unfolding strip_spaces
strip_spaces-IsPlain [] h = refl
strip_spaces-IsPlain (c ∷ s) h = ground (arith, strip_spaces-IsPlain s h.1)

-- The secret that is generated from any bytes is decoded to these bytes, although the value of the
-- encoder runs over its 32 bits.
pub decode-generate :
    (bytes : Bytes) → AreBytes bytes → base32_decode (generate_totp_secret bytes) ≡ some bytes
unfolding base32_decode generate_totp_secret
decode-generate bytes h =
    let plain = encode-IsPlain 0 0 bytes in
    let s = encode_from 0 0 bytes in
    ap (decode_from 0 0) (
      ap (λ t. strip_spaces (strip_equals t)) (to_upper-IsPlain s plain)
      ∙ ap strip_spaces (strip_equals-IsPlain s plain)
      ∙ strip_spaces-IsPlain s plain)
    ∙ (synchronised bytes h).even 0 0
