-- ===== src/Auth/Totp/Replay.antt =====
-- Which codes of the second factor are accepted, for which last used step.
use mathlib.Core.Option
use z_shield.Prelude.{
  ℕ, zero, suc, ◌+◌, ◌-◌, ◌<◌, ◌≤◌, ◌≡◌, ◌≢◌, refl, sym, ap, ◌∙◌, true, false, Option, none, some,
  [], ◌∷◌, arith, ltb, Bool-cases, Option-cases, inl, inr,
}
use z_shield.Text.{Text, text_eq}
use z_shield.Text.Lines.{text_eq_iff}
use z_shield.Crypto.{Bytes}
use z_shield.Auth.Totp.{
  valid, is_code, is_used, is_digit, every, strip_spaces, current_step, totp_code, try_steps,
  verify_totp, base32_decode,
}
use z_shield.Auth.Totp.Code.{totp_code-is_code}

module _ (hmac_sha1 : Bytes → Bytes → Bytes) (secret : Text) where
  -- What is true of a step that is accepted.
  pub record Accepted (low high : ℕ) (last : Option ℕ) (provided : Text) (step : ℕ) : Type 0 where
    pub not_before : low ≤ step
    pub not_after : step < high
    pub unused : is_used last step ≡ false
    pub right : totp_code hmac_sha1 secret step ≡ some provided

  widen :
      {low high low' high' : ℕ} {last : Option ℕ} {provided : Text} {step : ℕ}
      → low' ≤ low
      → high ≤ high'
      → Accepted low high last provided step
      → Accepted low' high' last provided step
  widen h k a = record {
    not_before = omega arith;
    not_after = omega arith;
    unused = a.unused;
    right = a.right;
  }

  try_steps-valid :
      (rounds from window : ℕ) (last : Option ℕ) (provided : Text) (step : ℕ)
      → try_steps hmac_sha1 secret rounds from window last provided ≡ some (valid step)
      → Accepted (from - window) (from + rounds - window) last provided step
  unfolding try_steps
  try_steps-valid zero from window last provided step h = absurd (ground arith)
  try_steps-valid (suc rounds) from window last provided step h =
      let ih = try_steps-valid rounds (suc from) window last provided step in
      let code = totp_code hmac_sha1 secret (from - window) in
      elim (Bool-cases (ltb from window)) [
        | inl skip ↦ widen (omega arith) (omega arith) (ih (rw skip at h))
        | inr inside ↦ elim (Option-cases code) [
          | inl e ↦ absurd (ground arith)
          | inr (expected, e) ↦ elim (Bool-cases (text_eq expected provided)) [
            | inr other ↦
                let rest : try_steps hmac_sha1 secret rounds (suc from) window last provided
                    ≡ some (valid step) =
                  ground arith in
                widen (omega arith) (omega arith) (ih rest)
            | inl same ↦ elim (Bool-cases (is_used last (from - window))) [
              | inl used ↦ absurd (ground arith)
              | inr fresh ↦
                  let here : from - window ≡ step = ground arith in
                  record {
                    not_before = omega arith;
                    not_after = ground arith;
                    unused = ap (is_used last) (sym here) ∙ fresh;
                    right =
                        ap (totp_code hmac_sha1 secret) (sym here)
                        ∙ e
                        ∙ ap some ((text_eq_iff expected provided).0 same);
                  }
            ]
          ]
        ]
      ]

  -- A code is accepted only for a step of the window around the current one, later than the last
  -- used step that the caller gives, if any, and only if, without its spaces, it is the code of
  -- this step under the secret.
  pub verify_totp-valid :
      (code : Text) (last : Option ℕ) (now window step : ℕ)
      → verify_totp hmac_sha1 secret code last now window ≡ some (valid step)
      → Accepted
          (current_step now - window)
          (current_step now + window + 1)
          last
          (strip_spaces code)
          step
  unfolding verify_totp
  verify_totp-valid code last now window step h = elim (Bool-cases (is_code (strip_spaces code))) [
    | inl form ↦ widen (omega arith) (omega arith) (
        try_steps-valid (window + 1 + window) (current_step now) window last (strip_spaces code)
          step (rw form at h))
    | inr bad ↦ absurd (ground arith)
  ]

  is_used-le : (last : Option ℕ) (s t : ℕ) → is_used last s ≡ false → s ≤ t → is_used last t ≡ false
  is_used-le none s t h k = refl
  is_used-le (some l) s t h k = ground arith

  totp_code-some :
      (key : Bytes) (step : ℕ)
      → base32_decode secret ≡ some key
      → (code : Text) × (totp_code hmac_sha1 secret step ≡ some code)
  unfolding totp_code
  totp_code-some key step decoded = (_, ap (Option.map _) decoded)

  try_steps-finds :
      (rounds from window : ℕ) (last : Option ℕ) (key : Bytes) (step : ℕ) (code : Text)
      → base32_decode secret ≡ some key
      → totp_code hmac_sha1 secret step ≡ some code
      → is_used last (from - window) ≡ false
      → from ≤ step + window
      → step + window < from + rounds
      → (s : ℕ) × (try_steps hmac_sha1 secret rounds from window last code ≡ some (valid s))
        × (s ≤ step)
  unfolding try_steps
  try_steps-finds zero from window last key step code decoded own fresh low high =
      absurd (omega arith)
  try_steps-finds (suc rounds) from window last key step code decoded own fresh low high =
      let later = is_used-le last (from - window) (suc from - window) fresh (omega arith) in
      let ih = try_steps-finds rounds (suc from) window last key step code decoded own later in
      elim (Bool-cases (ltb from window)) [
        | inl skip ↦ rw skip (ih (ground arith) (omega arith))
        | inr inside ↦
            let (c, e) = totp_code-some key (from - window) decoded in
            elim (Bool-cases (text_eq c code)) [
              | inl same ↦ (from - window, rw (inside, e, same, fresh), omega arith)
              | inr other ↦
                  let back : from ≡ step + window → from - window ≡ step = λ here. omega arith in
                  let past : from ≢ step + window = λ here. absurd (
                    ground
                      (arith, text_eq_iff c code, ap (totp_code hmac_sha1 secret) (back here))) in
                  let (s, run, before) = ih (ground arith) (omega arith) in
                  (s, rw (inside, e, other) run, before)
            ]
      ]

  is_code-strip_spaces : (s : Text) → every is_digit s ≡ true → strip_spaces s ≡ s
  unfolding strip_spaces
  is_code-strip_spaces [] h = refl
  is_code-strip_spaces (c ∷ s) h = ground (arith, is_code-strip_spaces s)

  -- The code of any step of the window is accepted, for this step or an earlier one, if no step of
  -- the window was used and the secret is one that can be decoded.
  pub verify_totp-own :
      (key : Bytes) (step : ℕ) (code : Text) (last : Option ℕ) (now window : ℕ)
      → base32_decode secret ≡ some key
      → totp_code hmac_sha1 secret step ≡ some code
      → is_used last (current_step now - window) ≡ false
      → current_step now ≤ step + window
      → step ≤ current_step now + window
      → (s : ℕ) × (verify_totp hmac_sha1 secret code last now window ≡ some (valid s)) × (s ≤ step)
  unfolding verify_totp
  verify_totp-own key step code last now window decoded own fresh low high =
      let form = totp_code-is_code hmac_sha1 secret step code own in
      let plain = is_code-strip_spaces code (ground arith) in
      rw (plain, form)
        (try_steps-finds (window + 1 + window) (current_step now) window last key step code decoded
          own fresh low (omega arith))
