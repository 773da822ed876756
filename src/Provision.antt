-- ===== src/Provision.antt =====
-- tools/provision_atecc.py: key files, the test signer and the export of the public key.
pub mod Lifecycle
pub mod Signing
pub mod Show
pub mod Main
use noethrion.Base.{
  ℕ, Bool, true, false, not, ◌&&◌, Option, none, some, [], ◌∷◌, ◌++◌, ◌==◌, if◌then◌else◌, length,
}
use noethrion.Base.Int.{ℤ, pos}
use noethrion.Python.Result.{
  Result, ok, raise, system_exit, os_error, assertion_error, ◌>>=◌, ◌>>◌, guard,
}
use noethrion.Python.Bytes.{Bytes, bytes_eq, to_bytes}
use noethrion.Python.Hex.{fromhex, hex}
use noethrion.Python.Hex.Width.{hex_064}
use noethrion.Python.Text.{Text, codes, lower, add_0x}
use noethrion.Python.Split.{ends_with}
use noethrion.Python.Number.{int_of_text}
use noethrion.Python.Print.{text_of_int, json_chars}
use noethrion.Python.Json.{Fields, str, int, field, end}
use noethrion.Crypto.{Crypto}

-- The private half of `cryptography`. Where the package draws random numbers, a seed is given.
pub record Signer (C : Crypto) : Type 1 where
  pub PrivateKey : Type 0
  -- `serialization.load_pem_private_key(data, password=None)`
  pub load_pem_private_key : Bytes → Result PrivateKey
  pub is_ec : PrivateKey → Bool
  pub is_p256 : PrivateKey → Bool
  pub public_key : PrivateKey → C.Key
  -- `private_bytes` and `public_bytes` in PEM, and `public_bytes` as an uncompressed point
  pub private_pem : PrivateKey → Bytes
  pub public_pem : C.Key → Bytes
  pub uncompressed_point : C.Key → Bytes
  -- `public_bytes` in DER, and `public_numbers`, x and y
  pub public_der : C.Key → Bytes
  pub public_numbers : C.Key → ℕ × ℕ
  -- `ec.generate_private_key(ec.SECP256R1())`
  pub generate_private_key : ℕ → PrivateKey
  -- `key.sign(payload, ec.ECDSA(hashes.SHA256()))`
  pub sign : ℕ → PrivateKey → Bytes → Bytes
  pub decode_dss_signature : Bytes → Result (ℕ × ℕ)

-- The files, by path, without a slash at the end of a path.
pub record Disk : Type 0 where
  pub content : Text → Option Bytes
  pub mode : Text → ℕ
  pub writable : Text → Bool

unfoldable pub read_bytes : Text → Disk → Result Bytes
read_bytes path disk = elim (disk.content path) [ none ↦ raise os_error | some b ↦ ok b ]

unfoldable pub exists : Text → Disk → Bool
exists path disk = elim (disk.content path) [ none ↦ false | some b ↦ true ]

unfoldable pub write_bytes : Text → Bytes → Disk → Result Disk
write_bytes path b disk =
    if disk.writable path
    then ok (record disk { content = λ p. if bytes_eq p path then some b else disk.content p })
    else raise os_error

unfoldable pub chmod : Text → ℕ → Disk → Disk
chmod path m disk = record disk { mode = λ p. if bytes_eq p path then m else disk.mode p }

-- `out` with `.pub` behind it
abbrev pub pub_path : Text → Text
pub_path out = out ++ codes ".pub"

-- What `show-pubkey` prints behind the curve's name; the first three have `0x` in front.
pub record Shown : Type 0 where
  pub x : Text
  pub y : Text
  pub raw_xy : Text
  pub der : Text

module _ (C : Crypto) (S : Signer C) where
  open S use {
    PrivateKey, load_pem_private_key, is_ec, is_p256, public_key, private_pem, public_pem,
    uncompressed_point, public_der, public_numbers, generate_private_key, sign,
    decode_dss_signature,
  }

  -- `_load_private_key`, on what `open` and `read` give
  unfoldable pub load_private_key : Result Bytes → Result PrivateKey
  load_private_key file = do
    pem ← file
    key ← load_pem_private_key pem
    guard (is_ec key) system_exit
    guard (is_p256 key) system_exit
    ok key

  unfoldable pub write_public_key : C.Key → Text → Disk → Result Disk
  write_public_key pub_key path disk = write_bytes path (public_pem pub_key) disk

  -- `_uncompressed_xy_hex`: 0x04, x, y without the first byte
  unfoldable pub uncompressed_xy_hex : C.Key → Result Text
  uncompressed_xy_hex pub_key =
      let raw = uncompressed_point pub_key in
      elim raw [
        | [] ↦ raise assertion_error
        | b ∷ xy ↦ if length (b ∷ xy) == 65 && b == 4 then ok (hex xy) else raise assertion_error
      ]

  -- The key files behind the guard.
  unfoldable pub write_pair : Text → PrivateKey → Disk → Result ℕ × Disk
  unfolding write_public_key
  write_pair out private_key disk = elim (write_bytes out (private_pem private_key) disk) [
    | raise e ↦ (raise e, disk)
    | ok written ↦
        let closed = chmod out 0o600 written in
        elim (write_public_key (public_key private_key) (pub_path out) closed) [
          | raise e ↦ (raise e, closed)
          | ok both ↦ (ok 0, both)
        ]
  ]

  -- `cmd_generate_key`, with the files it leaves behind
  unfoldable pub cmd_generate_key : Text → Bool → ℕ → Disk → Result ℕ × Disk
  unfolding write_pair exists
  cmd_generate_key out force seed disk =
      if exists out disk && not force
      then (ok 1, disk)
      else write_pair out (generate_private_key seed) disk

  -- The public key that `show-pubkey` and `export-onchain` read from `--key`.
  unfoldable pub key_argument : Text → Disk → Result C.Key
  unfolding load_private_key
  key_argument key disk = do
    pub_key ←
        (if ends_with (codes ".pub") key
          then (do pem ← read_bytes key disk; C.load_pem_public_key pem)
          else (do
            private_key ← load_private_key (read_bytes key disk)
            ok (public_key private_key)))
    guard (C.is_ec pub_key) system_exit
    ok pub_key

  -- `cmd_export_onchain`: the line that it prints
  unfoldable pub cmd_export_onchain : Text → Disk → Result Text
  unfolding key_argument uncompressed_xy_hex
  cmd_export_onchain key disk = do
    pub_key ← key_argument key disk
    raw_xy ← uncompressed_xy_hex pub_key
    ok (add_0x raw_xy)

  -- `cmd_show_pubkey`: the values that it prints
  unfoldable pub cmd_show_pubkey : Text → Disk → Result Shown
  unfolding key_argument uncompressed_xy_hex
  cmd_show_pubkey key disk = do
    pub_key ← key_argument key disk
    raw_xy ← uncompressed_xy_hex pub_key
    ok (record {
      x = hex_064 (public_numbers pub_key).0;
      y = hex_064 (public_numbers pub_key).1;
      raw_xy = raw_xy;
      der = hex (public_der pub_key);
    })

-- `json.dumps` of the three values, with sorted keys and no blanks
unfoldable pub canonical_payload : Text → ℤ → ℤ → Text
canonical_payload device_id timestamp wh =
    codes "{\"device_id\":\""
    ++ json_chars device_id
    ++ codes "\",\"timestamp\":"
    ++ text_of_int timestamp
    ++ codes ",\"wh\":"
    ++ text_of_int wh
    ++ codes "}"

module _ (C : Crypto) (S : Signer C) where
  -- `cmd_sign_test`: the object that it prints. The payload is ASCII, so that it is its own encoding.
  unfoldable pub cmd_sign_test : Result Bytes → Text → Text → Text → ℕ → Result Fields
  unfolding load_private_key canonical_payload
  cmd_sign_test key_file device_id timestamp wh seed = do
    private_key ← load_private_key C S key_file
    device_id_bytes ← fromhex device_id
    guard (length device_id_bytes == 9) system_exit
    stamp ← int_of_text timestamp
    energy ← int_of_text wh
    let payload = canonical_payload (lower device_id) stamp energy
    let signature_der = S.sign seed private_key payload
    (r, s) ← S.decode_dss_signature signature_der
    r_bytes ← to_bytes (pos r) 32
    s_bytes ← to_bytes (pos s) 32
    ok (
        field (codes "device_id") (str (lower device_id)) (
          field (codes "timestamp") (int stamp) (
            field (codes "wh") (int energy) (
              field (codes "payload_b64_canonical") (str payload) (
                field (codes "signature_rs_hex") (str (hex r_bytes ++ hex s_bytes)) (
                  field (codes "signature_der_hex") (str (hex signature_der))
                    (field (codes "algorithm") (str (codes "ES256")) end)))))))
