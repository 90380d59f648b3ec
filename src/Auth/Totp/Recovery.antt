-- ===== src/Auth/Totp/Recovery.antt =====
-- Each recovery code is accepted, once.
use z_shield.Prelude.{
  ℕ, zero, suc, ◌≡◌, ◌≢◌, refl, ap, true, false, none, some, List, [], ◌∷◌, ◌++◌, arith, All,
  length, map, Bool-cases, Option-cases, inl, inr,
}
use z_shield.Table.Keys.{Unique}
use z_shield.Table.{All-append}
use z_shield.Text.{Text, text_eq, to_upper, upper_code, take, drop}
use z_shield.Text.Lines.{text_eq_iff, text_eq_refl}
use z_shield.Crypto.{Bytes, Node, hash_token}
use z_shield.Auth.Totp.{
  trim_start, trim_end, remove_first, consume_recovery_code, recovery_code, generate_recovery_codes,
  upper_hex, is_space, space_then,
}

-- the hash of a code as it is presented, without its spaces
abbrev pub presented_hash : Node → Text → Text
presented_hash node presented = hash_token node (to_upper (trim_end (trim_start presented)))

remove_first-none :
    (candidate : Text) (hashes : List Text)
    → All (λ h. h ≢ candidate) hashes
    → remove_first candidate hashes ≡ none
unfolding remove_first
remove_first-none candidate [] a = refl
remove_first-none candidate (x ∷ hashes) a =
    ground (arith, text_eq_iff x candidate, remove_first-none candidate hashes a.1)

remove_first-gone :
    (candidate : Text) (hashes remaining : List Text)
    → Unique (λ h. h) hashes
    → remove_first candidate hashes ≡ some remaining
    → (remove_first candidate remaining ≡ none) × (length hashes ≡ suc (length remaining))
unfolding remove_first
remove_first-gone candidate [] remaining u h = absurd (ground arith)
remove_first-gone candidate (x ∷ hashes) remaining u h = elim (Bool-cases (text_eq x candidate)) [
  | inl here ↦
      let same : x ≡ candidate = (text_eq_iff x candidate).0 here in
      let rest : hashes ≡ remaining = ground arith in
      rw (← rest) (remove_first-none candidate hashes (rw (← same) u.0), refl)
  | inr other ↦ elim (Option-cases (remove_first candidate hashes)) [
    | inl e ↦ absurd (ground arith)
    | inr (left, e) ↦
        let ih = remove_first-gone candidate hashes left u.1 e in
        let rest : x ∷ left ≡ remaining = ground arith in
        rw (← rest) (rw (other, ih.0), ap suc ih.1)
  ]
]

-- A recovery code that was accepted is removed, one hash and no other, and is not accepted again, if
-- the hashes are distinct.
pub consume_recovery_code-once :
    (node : Node) (presented : Text) (hashes remaining : List Text)
    → Unique (λ h. h) hashes
    → consume_recovery_code node presented hashes ≡ (true, remaining)
    → (consume_recovery_code node presented remaining ≡ (false, remaining))
      × (length hashes ≡ suc (length remaining))
unfolding consume_recovery_code
consume_recovery_code-once node presented hashes remaining u h =
    elim (Option-cases (remove_first (presented_hash node presented) hashes)) [
      | inl e ↦ absurd (ground arith)
      | inr (left, e) ↦
          let same : left ≡ remaining = ground arith in
          let (gone, count) = remove_first-gone (presented_hash node presented) hashes left u e in
          rw (← same) (rw gone, count)
    ]

-- a code unit that neither `trim` nor `toUpperCase` changes
abbrev IsKept : ℕ → Type 0
IsKept c = (is_space c ≡ false) × (upper_code c ≡ c)

upper_hex-IsKept : (bytes : Bytes) → All IsKept (upper_hex bytes)
unfolding upper_code
upper_hex-IsKept [] = tt
upper_hex-IsKept (b ∷ bytes) =
    ((ground arith, ground arith), ((ground arith, ground arith), upper_hex-IsKept bytes))

take-All : (n : ℕ) (s : Text) → All IsKept s → All IsKept (take n s)
unfolding take
take-All zero s h = tt
take-All (suc n) [] h = tt
take-All (suc n) (c ∷ s) h = (h.0, take-All n s h.1)

drop-All : (n : ℕ) (s : Text) → All IsKept s → All IsKept (drop n s)
unfolding drop
drop-All zero s h = h
drop-All (suc n) [] h = tt
drop-All (suc n) (c ∷ s) h = drop-All n s h.1

recovery_code-IsKept : (node : Node) (bytes : Bytes) → All IsKept (recovery_code node bytes)
unfolding recovery_code upper_code
recovery_code-IsKept node bytes =
    All-append IsKept (take 5 (upper_hex bytes)) _
      (take-All 5 (upper_hex bytes) (upper_hex-IsKept bytes))
      ((refl, refl), drop-All 5 (upper_hex bytes) (upper_hex-IsKept bytes))

trim_start-IsKept : (s : Text) → All IsKept s → trim_start s ≡ s
trim_start-IsKept [] h = refl
trim_start-IsKept (c ∷ s) h = ground arith

trim_end-IsKept : (s : Text) → All IsKept s → trim_end s ≡ s
trim_end-IsKept [] h = refl
trim_end-IsKept (c ∷ []) h = ground arith
trim_end-IsKept (c ∷ d ∷ s) h = ap (space_then c) (trim_end-IsKept (d ∷ s) h.1)

to_upper-IsKept : (s : Text) → All IsKept s → to_upper s ≡ s
unfolding to_upper
to_upper-IsKept [] h = refl
to_upper-IsKept (c ∷ s) h = ground (arith, to_upper-IsKept s h.1)

remove_first-found :
    (candidate : Text) (before after : List Text)
    → (remaining : List Text) × (remove_first candidate (before ++ (candidate ∷ after))
        ≡ some remaining)
unfolding remove_first
remove_first-found candidate [] after = (after, rw text_eq_refl)
remove_first-found candidate (x ∷ before) after =
    let (remaining, e) = remove_first-found candidate before after in
    elim (Bool-cases (text_eq x candidate)) [
      | inl here ↦ (before ++ (candidate ∷ after), rw here)
      | inr other ↦ (x ∷ remaining, rw (other, e))
    ]

map-append : {A B : Type 0} (f : A → B) (xs ys : List A) → map f (xs ++ ys) ≡ map f xs ++ map f ys
map-append f [] ys = refl
map-append f (x ∷ xs) ys = ap (◌∷◌ (f x)) (map-append f xs ys)

-- Each of the recovery codes that are generated is accepted with the hashes that are stored.
pub generate-consume :
    (node : Node) (before after : List Bytes) (bytes : Bytes)
    → (consume_recovery_code node
        (recovery_code node bytes)
        (generate_recovery_codes node (before ++ (bytes ∷ after))).1).0
      ≡ true
unfolding consume_recovery_code generate_recovery_codes
generate-consume node before after bytes =
    let code = recovery_code node bytes in
    let kept = recovery_code-IsKept node bytes in
    let hash = λ (b : Bytes). hash_token node (recovery_code node b) in
    let (remaining, e) = remove_first-found (hash bytes) (map hash before) (map hash after) in
    rw (
      trim_start-IsKept code kept,
      trim_end-IsKept code kept,
      to_upper-IsKept code kept,
      map-append hash before (bytes ∷ after),
      e,
    )
