-- ===== src/Tests/Totp.antt =====
-- A second factor and its recovery codes.
use z_shield.Prelude.{
  ℕ, suc, ◌+◌, ◌^◌, ◌<◌, ◌≤◌, ◌≡◌, ◌≢◌, refl, true, false, some, List, [], ◌∷◌, ◌++◌, arith, length,
}
use z_shield.Text.{Text, codes, text_eq, to_upper, upper_code, decimal, drop}
use z_shield.Crypto.{Bytes, hash_token}
use z_shield.Auth.Totp.{
  generate_totp_secret, base32_decode, strip_spaces, strip_equals, decode_from, index_of, letter,
  emit, totp_code, six_digits, truncated, offset_of, verify_totp, try_steps, valid, replayed,
  consume_recovery_code,
}
use z_shield.Auth.Totp.Base32.{decode-generate}
use z_shield.Auth.Totp.Code.{truncated_bounds}
use z_shield.Auth.Totp.Replay.{Accepted, verify_totp-valid, verify_totp-own}
use z_shield.Auth.Totp.Recovery.{consume_recovery_code-once}
use z_shield.Tests.Runtime.{toy, fit}

abbrev bytes : Bytes
bytes = 222 ∷ 173 ∷ 190 ∷ 239 ∷ 7 ∷ 200 ∷ []

abbrev secret : Text
secret = generate_totp_secret bytes

decode-generate_example : base32_decode secret ≡ some bytes
decode-generate_example = decode-generate bytes (omega arith)

-- A keyed digest of twenty bytes.
abbrev digest : Bytes → Bytes → Bytes
digest key message = fit 20 (drop 4 message ++ key)

secret_text : secret ≡ codes "32W353YHZA"
unfolding generate_totp_secret emit letter
secret_text = refl

abbrev code : Text
code = six_digits (truncated (digest bytes (0 ∷ 0 ∷ 0 ∷ 0 ∷ 0 ∷ 0 ∷ 0 ∷ 40 ∷ [])))

own_code : totp_code digest secret 40 ≡ some code
unfolding totp_code base32_decode generate_totp_secret emit letter decode_from index_of to_upper
    strip_spaces strip_equals drop
own_code = refl

truncated_bounds_example :
    (offset_of (digest bytes bytes) + 3 < 20) × (truncated (digest bytes bytes) < 2 ^ 31)
unfolding drop
truncated_bounds_example = truncated_bounds (digest bytes bytes) refl (omega arith)

accepted_now : verify_totp digest secret code (some 38) 1_200_000 1 ≡ some (valid 40)
unfolding totp_code base32_decode generate_totp_secret emit letter decode_from index_of to_upper
    strip_spaces strip_equals verify_totp try_steps six_digits truncated decimal text_eq drop
accepted_now = refl

replayed_now : verify_totp digest secret code (some 40) 1_200_000 1 ≡ some replayed
unfolding totp_code base32_decode generate_totp_secret emit letter decode_from index_of to_upper
    strip_spaces strip_equals verify_totp try_steps six_digits truncated decimal text_eq drop
replayed_now = refl

verify_totp-valid_example : Accepted digest secret 39 42 (some 38) (strip_spaces code) 40
verify_totp-valid_example =
    verify_totp-valid digest secret code (some 38) 1_200_000 1 40 accepted_now

verify_totp-own_example :
    (s : ℕ) × (verify_totp digest secret code (some 38) 1_200_000 1 ≡ some (valid s)) × (s ≤ 40)
verify_totp-own_example =
    verify_totp-own digest secret bytes 40 code (some 38) 1_200_000 1 decode-generate_example
      own_code refl (omega arith) (omega arith)

abbrev hashes : List Text
hashes = codes "01020-304FA" ∷ codes "09080-70605" ∷ []

codes_differ : codes "09080-70605" ≢ codes "01020-304FA"
codes_differ e = ground arith

-- in lower case, with spaces round it
consumed_once :
    consume_recovery_code toy (codes " 01020-304fa ") hashes ≡ (true, codes "09080-70605" ∷ [])
unfolding consume_recovery_code hash_token to_upper upper_code text_eq
consumed_once = refl

consume_recovery_code-once_example :
    (consume_recovery_code toy (codes " 01020-304fa ") (codes "09080-70605" ∷ [])
      ≡ (false, codes "09080-70605" ∷ []))
    × (length hashes ≡ suc 1)
consume_recovery_code-once_example =
    consume_recovery_code-once toy (codes " 01020-304fa ") hashes (codes "09080-70605" ∷ [])
      ((codes_differ, tt), (tt, tt)) consumed_once
