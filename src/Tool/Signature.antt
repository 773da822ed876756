-- ===== src/Tool/Signature.antt =====
-- `_load_attestation`, `_load_pubkey` and `_verify_signature` of tools/verify_attestation.py.
use noethrion.Base.{
  ℕ, Bool, true, false, Option, none, some, ◌&&◌, ◌==◌, if◌then◌else◌, length, take, drop,
}
use noethrion.Python.Result.{
  Result, ok, raise, invalid_signature, key_error, type_error, attribute_error, system_exit,
  json_decode_error, is_value_error, ◌>>=◌, ◌>>◌, guard, value_error_exits,
}
use noethrion.Python.Bytes.{Bytes, bytes_eq, from_bytes}
use noethrion.Python.Hex.{fromhex}
use noethrion.Python.Text.{Text, codes}
use noethrion.Python.Utf8.{encode_utf8}
use noethrion.Python.Json.{Json, Fields, str, obj, get, as_str}
use noethrion.Crypto.{Crypto}

pub data SignatureMessage : Type 0 where
  signature_ok not_hex not_validated : SignatureMessage
  not_64_bytes : ℕ → SignatureMessage

-- `d[key]`
unfoldable pub item : Text → Fields → Result Json
item key d = elim (get key d) [ none ↦ raise key_error | some j ↦ ok j ]

-- `bytes.fromhex(x)` wants a text.
unfoldable pub fromhex_of : Json → Result Bytes
fromhex_of (str s) = fromhex s
fromhex_of _ = raise type_error

unfoldable pub has : Text → Fields → Bool
has key d = elim (get key d) [ none ↦ false | some j ↦ true ]

-- `obj["algorithm"] == "ES256"`
unfoldable pub is_es256 : Option Json → Bool
is_es256 (some (str s)) = bytes_eq s (codes "ES256")
is_es256 _ = false

-- A malformed file is a SystemExit; a value that is no object has no `keys`.
unfoldable pub json_error_exits : Result Json → Result Json
json_error_exits (raise json_decode_error) = raise system_exit
json_error_exits r = r

unfoldable pub check_attestation : Json → Result Fields
unfolding has is_es256
check_attestation (obj d) = do
  guard
      (has (codes "payload_b64_canonical") d
        && has (codes "signature_rs_hex") d
        && has (codes "algorithm") d)
      system_exit
  guard (is_es256 (get (codes "algorithm") d)) system_exit
  ok d
check_attestation _ = raise attribute_error

-- `_load_attestation`, on what `open` and `json.load` give
unfoldable pub load_attestation : Result Json → Result Fields
unfolding json_error_exits check_attestation
load_attestation file = do j ← json_error_exits file; check_attestation j

-- `try: sig_bytes = bytes.fromhex(sig_hex); except ValueError`
unfoldable pub hex_or_none : Result Bytes → Result (Option Bytes)
hex_or_none (ok b) = ok (some b)
hex_or_none (raise e) = if is_value_error e then ok none else raise e

-- `except InvalidSignature`
unfoldable pub verdict : Result (Unit {0}) → Result (Bool × SignatureMessage)
verdict (ok u) = ok (true, signature_ok)
verdict (raise invalid_signature) = ok (false, not_validated)
verdict (raise e) = raise e

module _ (C : Crypto) where
  open C use {Key, load_pem_public_key, is_ec, is_p256, encode_dss_signature, verify}

  -- `_load_pubkey`, on what `open` and `read` give
  unfoldable pub load_pubkey : Result Bytes → Result Key
  load_pubkey file = do
    pem ← file
    pub_key ← value_error_exits (load_pem_public_key pem)
    guard (is_ec pub_key) system_exit
    guard (is_p256 pub_key) system_exit
    ok pub_key

  -- after the length check: r || s, re-encoded for the library
  unfoldable pub verify_raw : Key → Bytes → Bytes → Result (Bool × SignatureMessage)
  verify_raw pub_key payload sig_bytes =
      let r = from_bytes (take 32 sig_bytes) in
      let s = from_bytes (drop 32 sig_bytes) in
      verdict (verify pub_key (encode_dss_signature r s) payload)

  -- `_verify_signature`
  unfoldable pub verify_signature : Fields → Key → Result (Bool × SignatureMessage)
  verify_signature att pub_key = do
    raw_payload ← item (codes "payload_b64_canonical") att
    text ← as_str raw_payload
    payload ← encode_utf8 text
    sig_hex ← item (codes "signature_rs_hex") att
    decoded ← hex_or_none (fromhex_of sig_hex)
    elim decoded [
      | none ↦ ok (false, not_hex)
      | some sig_bytes ↦
          if length sig_bytes == 64
          then verify_raw pub_key payload sig_bytes
          else ok (false, not_64_bytes (length sig_bytes))
    ]
