-- ===== src/Library/Signature.antt =====
-- `verify_signature` of examples/integrators/python_verifier_library.py against `_verify_signature` of
-- tools/verify_attestation.py.
use noethrion.Base.{
  ◌≡◌, refl, Bool, true, false, none, some, ◌==◌, if◌then◌else◌, length, Bool-cases, inl, inr,
  arith,
}
use noethrion.Python.Result.{
  Exn, Result, ok, raise, invalid_signature, value_error, json_decode_error, unicode_decode_error,
  unicode_encode_error, is_value_error, ◌>>=◌,
}
use noethrion.Python.Bytes.{Bytes}
use noethrion.Python.Text.{codes}
use noethrion.Python.Utf8.{encode_utf8}
use noethrion.Python.Json.{Fields, as_str}
use noethrion.Crypto.{Crypto}
use noethrion.Tool.Signature as Tool
use noethrion.Tool.Signature.{
  SignatureMessage, not_hex, not_64_bytes, item, fromhex_of, hex_or_none, verify_raw,
}
use noethrion.Library.{
  VerificationResult, is_malformed, signed_parts, verdict, check_parts, verify_signature,
}

-- The tool's answer and the library's: one verdict where both answer. What the library calls
-- malformed the tool may raise; where the library raises, the tool raises the same.
abbrev pub Agrees : Result (Bool × SignatureMessage) → Result VerificationResult → Type 0
Agrees (ok (fine, m)) (ok r) = r.verified ≡ fine
Agrees (raise e) (ok r) = (is_malformed e ≡ true) × (r.verified ≡ false)
Agrees (raise e) (raise e') = e ≡ e'
Agrees (ok _) (raise _) = ⊥

value_error-is_malformed : (e : Exn) → is_value_error e ≡ true → is_malformed e ≡ true
value_error-is_malformed value_error h = refl
value_error-is_malformed json_decode_error h = refl
value_error-is_malformed unicode_decode_error h = refl
value_error-is_malformed unicode_encode_error h = refl
value_error-is_malformed _ h = ground arith

verdict-Agrees : (r : Result (Unit {0})) → Agrees (Tool.verdict r) (verdict r)
unfolding Tool.verdict verdict
verdict-Agrees (ok u) = refl
verdict-Agrees (raise invalid_signature) = refl
verdict-Agrees (raise _) = refl

module _ (C : Crypto) (key : C.Key) where
  -- A step that raises raises in the tool, and is malformed or raised in the library.
  raise-Agrees : (e : Exn) → Agrees (raise e) (check_parts C key (raise e))
  unfolding check_parts
  raise-Agrees e = elim (Bool-cases (is_malformed e)) [
    | inl bad ↦ rw bad (bad, refl)
    | inr other ↦ rw other refl
  ]

  bind-Agrees :
      {A : Type 0} (m : Result A) (f : A → Result (Bool × SignatureMessage))
      (g : A → Result (Bytes × Bytes))
      → ((a : A) → Agrees (f a) (check_parts C key (g a)))
      → Agrees (m >>= f) (check_parts C key (m >>= g))
  bind-Agrees (ok a) f g h = h a
  bind-Agrees (raise e) f g h = raise-Agrees e

  sized-Agrees :
      (payload sig_bytes : Bytes)
      → Agrees
          (if length sig_bytes == 64
            then verify_raw C key payload sig_bytes
            else ok (false, not_64_bytes (length sig_bytes)))
          (check_parts C key (ok (payload, sig_bytes)))
  unfolding check_parts verify_raw
  sized-Agrees payload sig_bytes = elim (Bool-cases (length sig_bytes == 64)) [
    | inl whole ↦ rw whole (verdict-Agrees _)
    | inr other ↦ rw other refl
  ]

  decoded-Agrees :
      (payload : Bytes) (r : Result Bytes)
      → Agrees
          (do
            decoded ← hex_or_none r
            elim decoded [
              | none ↦ ok (false, not_hex)
              | some sig_bytes ↦
                  if length sig_bytes == 64
                  then verify_raw C key payload sig_bytes
                  else ok (false, not_64_bytes (length sig_bytes))
            ])
          (check_parts C key (do sig_bytes ← r; ok (payload, sig_bytes)))
  unfolding hex_or_none
  decoded-Agrees payload (ok sig_bytes) = sized-Agrees payload sig_bytes
  decoded-Agrees payload (raise e) = elim (Bool-cases (is_value_error e)) [
    | inl bad ↦ unfold check_parts in rw (bad, value_error-is_malformed e bad) refl
    | inr other ↦ rw other (raise-Agrees e)
  ]

  -- The signature checks of the library and of the tool agree on every attestation and key: one
  -- verdict where both answer; where the tool raises and the library answers, the exception is one
  -- that the library catches as malformed, and its answer is not verified; and where the library
  -- raises, the tool raises the same.
  pub verify_signature-Agrees :
      (att : Fields) → Agrees (Tool.verify_signature C att key) (verify_signature C key att)
  unfolding Tool.verify_signature verify_signature signed_parts
  verify_signature-Agrees att = bind-Agrees (item (codes "payload_b64_canonical") att) _ _ λ raw.
      bind-Agrees (as_str raw) _ _ λ text. bind-Agrees (encode_utf8 text) _ _ λ payload.
        bind-Agrees (item (codes "signature_rs_hex") att) _ _
          λ sig_hex. decoded-Agrees payload (fromhex_of sig_hex)
