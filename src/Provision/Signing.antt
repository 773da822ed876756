-- ===== src/Provision/Signing.antt =====
-- An attestation of `sign-test` (tools/provision_atecc.py) under `verify-signature`
-- (tools/verify_attestation.py).
use noethrion.Base.{
  ℕ, ◌^◌, ◌<◌, ◌≡◌, refl, subst, Bool, true, [], ◌∷◌, ◌++◌, arith, ◌==◌, length, length-append,
  take, drop, take-append, drop-append, All-append,
}
use noethrion.Base.Int.{ℤ}
use noethrion.Python.Result.{ok}
use noethrion.Python.Bytes.{
  Bytes, IsByte, bytes_eq, to_bytes-pos, big_endian, length-big_endian, big_endian-IsByte,
  from_bytes-big_endian,
}
use noethrion.Python.Hex.{fromhex, hex}
use noethrion.Python.Hex.RoundTrip.{fromhex-hex}
use noethrion.Python.Text.{Text, codes, lower}
use noethrion.Python.Utf8.{encode_utf8-ascii}
use noethrion.Python.Number.{int_of_text}
use noethrion.Python.Json.{Fields, obj, get, str, int, field, end, as_str}
use noethrion.Crypto.{Crypto}
use noethrion.Tool.Signature.{
  load_attestation, check_attestation, has, is_es256, item, fromhex_of, hex_or_none, verdict,
  verify_raw, verify_signature, signature_ok, json_error_exits,
}
use noethrion.Tool.Commands.{cmd_verify_signature}
use noethrion.Provision.{
  Signer, Disk, read_bytes, pub_path, cmd_generate_key, canonical_payload, cmd_sign_test,
}
use noethrion.Provision.Lifecycle.{IsEcdsa, canonical_payload-Ascii, cmd_generate_key-IsPair}

hex-append : (a b : Bytes) → hex (a ++ b) ≡ hex a ++ hex b
unfolding hex
hex-append [] b = refl
hex-append (x ∷ a) b = cc (hex-append a b)

-- The object that `sign-test` prints.
abbrev attestation_of : Text → ℤ → ℤ → Text → Bytes → Bytes → Fields
attestation_of device_id stamp energy payload sig_bytes der =
    field (codes "device_id") (str device_id) (
      field (codes "timestamp") (int stamp) (
        field (codes "wh") (int energy) (
          field (codes "payload_b64_canonical") (str payload) (
            field (codes "signature_rs_hex") (str (hex sig_bytes)) (
              field (codes "signature_der_hex") (str (hex der))
                (field (codes "algorithm") (str (codes "ES256")) end))))))

attestation_loads :
    (device_id : Text) (stamp energy : ℤ) (payload : Text) (sig_bytes der : Bytes)
    → load_attestation (ok (obj (attestation_of device_id stamp energy payload sig_bytes der)))
      ≡ ok (attestation_of device_id stamp energy payload sig_bytes der)
unfolding load_attestation check_attestation json_error_exits has is_es256 get bytes_eq
attestation_loads device_id stamp energy payload sig_bytes der = refl

-- The halves of r || s.
halves :
    (r s : ℕ)
    → (take 32 (big_endian 32 r ++ big_endian 32 s) ≡ big_endian 32 r)
      × (drop 32 (big_endian 32 r ++ big_endian 32 s) ≡ big_endian 32 s)
halves r s =
    let size = length-big_endian 32 r in
    (
      subst (λ n. take n (big_endian 32 r ++ big_endian 32 s) ≡ big_endian 32 r) size
          (take-append (big_endian 32 r) (big_endian 32 s)),
      subst (λ n. drop n (big_endian 32 r ++ big_endian 32 s) ≡ big_endian 32 s) size
          (drop-append (big_endian 32 r) (big_endian 32 s)),
    )

module _ (C : Crypto) where
  verify_raw-good :
      (key : C.Key) (payload : Bytes) (r s : ℕ)
      → r < 2 ^ 256
      → s < 2 ^ 256
      → C.verify key (C.encode_dss_signature r s) payload ≡ ok tt
      → verify_raw C key payload (big_endian 32 r ++ big_endian 32 s) ≡ ok (true, signature_ok)
  unfolding verify_raw verdict
  verify_raw-good key payload r s hr hs good =
      let (front, back) = halves r s in
      let r_read = from_bytes-big_endian 32 r (omega arith) in
      let s_read = from_bytes-big_endian 32 s (omega arith) in
      rw (front, back, r_read, s_read, good)

  verify_signature-good :
      (key : C.Key) (device_id : Text) (stamp energy : ℤ) (r s : ℕ) (der : Bytes)
      → r < 2 ^ 256
      → s < 2 ^ 256
      → C.verify key (C.encode_dss_signature r s) (canonical_payload device_id stamp energy) ≡ ok tt
      → verify_signature C
          (attestation_of device_id stamp energy
            (canonical_payload device_id stamp energy)
            (big_endian 32 r ++ big_endian 32 s)
            der)
          key
        ≡ ok (true, signature_ok)
  unfolding verify_signature item get bytes_eq as_str fromhex_of hex_or_none
  verify_signature-good key device_id stamp energy r s der hr hs good =
      let payload = canonical_payload device_id stamp energy in
      let sig_bytes = big_endian 32 r ++ big_endian 32 s in
      let ascii =
        encode_utf8-ascii payload (canonical_payload-Ascii device_id stamp energy).chars in
      let bytes = All-append IsByte _ _ (big_endian-IsByte 32 r) (big_endian-IsByte 32 s) in
      let whole : (length sig_bytes == 64) ≡ true = ground (
        arith,
        length-append (big_endian 32 r) (big_endian 32 s),
        length-big_endian 32 r,
        length-big_endian 32 s,
      ) in
      rw (ascii, fromhex-hex sig_bytes bytes, whole) (verify_raw-good key payload r s hr hs good)

module _ (C : Crypto) (S : Signer C) (laws : IsEcdsa C S) where
  -- From the key to the verdict, with `cryptography` as in IsEcdsa: after a `generate-key` that
  -- returns 0, `sign-test` with the private key file makes an attestation for every device id of 9
  -- bytes and every time and energy that `int` reads, and `verify-signature` with the public key
  -- file ends with 0 on it.
  pub cmd_sign_test-verifies :
      (out : Text) (force : Bool) (seed : ℕ) (disk : Disk) {after : Disk}
      → cmd_generate_key C S out force seed disk ≡ (ok 0, after)
      → (device_id timestamp wh : Text) (seed' : ℕ) {id : Bytes} {stamp energy : ℤ}
      → fromhex device_id ≡ ok id
      → length id ≡ 9
      → int_of_text timestamp ≡ ok stamp
      → int_of_text wh ≡ ok energy
      → (att : Fields) × (cmd_sign_test C S (read_bytes out after) device_id timestamp wh seed'
          ≡ ok att)
        × (cmd_verify_signature C (ok (obj att)) (read_bytes (pub_path out) after) ≡ ok 0)
  unfolding cmd_sign_test cmd_verify_signature
  cmd_sign_test-verifies out force seed disk {after} made device_id timestamp wh seed' {id} {stamp}
        {energy} hid size hstamp henergy =
      let pair = cmd_generate_key-IsPair C S laws out force seed disk made in
      let k = pair.key in
      let payload = canonical_payload (lower device_id) stamp energy in
      let r = laws.r_of seed' k payload in
      let s = laws.s_of seed' k payload in
      let hr = laws.r_fits seed' k payload pair.kind in
      let hs = laws.s_fits seed' k payload pair.kind in
      let sig_bytes = big_endian 32 r ++ big_endian 32 s in
      let der = S.sign seed' k payload in
      let att = attestation_of (lower device_id) stamp energy payload sig_bytes der in
      let nine : (length id == 9) ≡ true = ground (arith, size) in
      let good =
        verify_signature-good C (S.public_key k) (lower device_id) stamp energy r s der hr hs
          (laws.verifies seed' k payload) in
      (
        att,
        rw (
          pair.private_file,
          hid,
          nine,
          hstamp,
          henergy,
          laws.decodes seed' k payload,
          to_bytes-pos r 32 (omega arith),
          to_bytes-pos s 32 (omega arith),
          hex-append (big_endian 32 r) (big_endian 32 s),
        ),
        rw (
          attestation_loads (lower device_id) stamp energy payload sig_bytes der,
          pair.public_file,
          good,
        ),
      )
