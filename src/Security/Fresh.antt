-- ===== src/Security/Fresh.antt =====
-- What a verified request has shown.
use home_assistant_chat_comp.Prelude.{
  ℕ, ℤ, ◌+◌, ◌≤◌, String, ◌≡◌, true, some, arith, pos_part, neg_part, eq_iff, eq_refl, Option-cases,
  inl, inr,
}
use home_assistant_chat_comp.Text.{is_ascii}
use home_assistant_chat_comp.Protocol.{federation_clock_skew_seconds}
use home_assistant_chat_comp.Security.{
  Crypto, Signed, verified, is_nonce_text, sign_federation_request, compare_signature,
  verify_federation_signature,
}

-- the timestamp lies within the allowed skew of the clock, on either side
abbrev pub IsFresh : ℕ → ℤ → Type 0
IsFresh now t =
    (now + neg_part t ≤ pos_part t + federation_clock_skew_seconds)
    × (pos_part t ≤ now + neg_part t + federation_clock_skew_seconds)

module _ (crypto : Crypto) (secret : String) (r : Signed) (now : ℕ) where
  -- A verified request has a timestamp that is a number within 300 seconds of the clock, a nonce of
  -- the right shape, and the signature that the shared secret gives to exactly this method, path,
  -- timestamp, nonce and body.
  pub verify_sound :
      (t : ℤ)
      → verify_federation_signature crypto secret r now ≡ verified t
      → (crypto.int r.timestamp ≡ some t)
        × IsFresh now t
        × (is_nonce_text r.nonce ≡ true)
        × (sign_federation_request crypto secret r.method r.path r.timestamp r.nonce r.body
            ≡ some r.signature)
  unfolding verify_federation_signature compare_signature
  verify_sound t h =
      elim (Option-cases
        (sign_federation_request crypto secret r.method r.path r.timestamp r.nonce r.body)) [
          | inl unsigned ↦ ground arith
          | inr (s, e) ↦ ground (arith, eq_iff s r.signature)
        ]

  -- A request with a timestamp that is a number within 300 seconds of the clock, a nonce of the
  -- right shape and the signature of its parts under the secret is verified, if the signature is
  -- ASCII.
  pub verify_complete :
      (t : ℤ)
      → crypto.int r.timestamp ≡ some t
      → IsFresh now t
      → is_nonce_text r.nonce ≡ true
      → is_ascii r.signature ≡ true
      → sign_federation_request crypto secret r.method r.path r.timestamp r.nonce r.body
        ≡ some r.signature
      → verify_federation_signature crypto secret r now ≡ verified t
  unfolding verify_federation_signature compare_signature
  verify_complete t parsed fresh nonce ascii signed = ground (arith, eq_refl r.signature)
