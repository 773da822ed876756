-- ===== src/Tests/Keys.antt =====
-- A signer whose private keys are the public ones, and a device that is provisioned with it.
use noethrion.Base.{ℕ, ◌%◌, ◌^◌, ◌≡◌, refl, ap, true, false, none, List, [], ◌∷◌, ◌++◌, ◌⊎◌, arith}
use noethrion.Base.Int.{pos}
use noethrion.Python.Result.{Result, ok, raise, value_error}
use noethrion.Python.Bytes.{Bytes, from_bytes, big_endian, bytes_eq, bytes_eq_refl}
use noethrion.Python.Hex.{fromhex}
use noethrion.Python.Text.{Text, codes}
use noethrion.Python.Number.{int_of_text}
use noethrion.Python.Json.{Fields, obj}
use noethrion.Tool.Commands.{cmd_verify_signature}
use noethrion.Provision
use noethrion.Provision.{Signer, Disk, Shown, read_bytes, pub_path, cmd_generate_key, cmd_sign_test}
use noethrion.Provision.Lifecycle.{IsEcdsa, IsPair, cmd_generate_key-IsPair}
use noethrion.Provision.Signing.{cmd_sign_test-verifies}
use noethrion.Provision.Show.{IsPoint, Forms, cmd_generate_key-Forms}
use noethrion.Provision.Main.{main, Writes}
use noethrion.Provision.Main.Frame.{main-Writes}
use noethrion.Python.Split.{ends_with}
use noethrion.Tests.Values.{crypto}

abbrev two_numbers : Bytes → Result (ℕ × ℕ)
two_numbers (r ∷ s ∷ []) = ok (r, s)
two_numbers _ = raise value_error

abbrev signer : Signer crypto
signer = record {
  PrivateKey = ℕ;
  load_pem_private_key = λ pem. ok (from_bytes pem);
  is_ec = λ key. true;
  is_p256 = λ key. true;
  public_key = λ key. key;
  private_pem = λ key. key ∷ [];
  public_pem = λ key. key ∷ [];
  uncompressed_point = λ key. 4 ∷ big_endian 32 (key % 2 ^ 256) ++ big_endian 32 (key % 2 ^ 256);
  public_der = λ key. key ∷ [];
  public_numbers = λ key. (key % 2 ^ 256, key % 2 ^ 256);
  generate_private_key = λ seed. seed;
  sign = λ seed key payload. key % 2 ^ 256 ∷ key % 2 ^ 256 ∷ [];
  decode_dss_signature = two_numbers;
}

from_bytes_one : (k : ℕ) → ok (from_bytes (k ∷ [])) ≡ ok k
unfolding from_bytes
from_bytes_one k = ap ok (omega arith)

signer-IsEcdsa : IsEcdsa crypto signer
signer-IsEcdsa = record {
  private_read = from_bytes_one;
  public_read = from_bytes_one;
  generated = λ seed. (refl, refl);
  public_kind = λ k ec p256. (refl, refl);
  r_of = λ seed k payload. k % 2 ^ 256;
  s_of = λ seed k payload. k % 2 ^ 256;
  decodes = λ seed k payload. refl;
  r_fits = λ seed k payload p256. omega arith;
  s_fits = λ seed k payload p256. omega arith;
  verifies = λ seed k payload. rw (bytes_eq_refl (k % 2 ^ 256 ∷ k % 2 ^ 256 ∷ []));
}

abbrev empty_disk : Disk
empty_disk = record { content = λ p. none; mode = λ p. 0o644; writable = λ p. true }

abbrev device_key : Text
device_key = codes "device.pem"

abbrev provisioned : Disk
provisioned = (cmd_generate_key crypto signer device_key false 5 empty_disk).1

key_made : cmd_generate_key crypto signer device_key false 5 empty_disk ≡ (ok 0, provisioned)
unfolding cmd_generate_key Provision.write_pair Provision.exists Provision.write_bytes
    Provision.write_public_key Provision.chmod
key_made = refl

cmd_generate_key-IsPair_example :
    IsPair crypto signer signer-IsEcdsa device_key false empty_disk provisioned
cmd_generate_key-IsPair_example =
    cmd_generate_key-IsPair crypto signer signer-IsEcdsa device_key false 5 empty_disk key_made

abbrev device_id : Text
device_id = codes "0123456789ABCDEF01"

device_bytes :
    fromhex device_id ≡ ok (0x01 ∷ 0x23 ∷ 0x45 ∷ 0x67 ∷ 0x89 ∷ 0xab ∷ 0xcd ∷ 0xef ∷ 0x01 ∷ [])
unfolding fromhex
device_bytes = refl

time_read : int_of_text (codes "1700000000") ≡ ok (pos 1700000000)
unfolding int_of_text
time_read = refl

energy_read : int_of_text (codes "1_250") ≡ ok (pos 1250)
unfolding int_of_text
energy_read = refl

cmd_sign_test-verifies_example :
    (att : Fields) × (cmd_sign_test crypto signer
        (read_bytes device_key provisioned)
        device_id
        (codes "1700000000")
        (codes "1_250")
        7
      ≡ ok att)
    × (cmd_verify_signature crypto (ok (obj att)) (read_bytes (pub_path device_key) provisioned)
        ≡ ok 0)
cmd_sign_test-verifies_example =
    cmd_sign_test-verifies crypto signer signer-IsEcdsa device_key false 5 empty_disk key_made
      device_id (codes "1700000000") (codes "1_250") 7 device_bytes refl time_read energy_read

signer-IsPoint : IsPoint crypto signer
signer-IsPoint = record {
  point = λ k h. refl;
  x_fits = λ k h. omega arith;
  y_fits = λ k h. omega arith;
}

private_name : ends_with (codes ".pub") device_key ≡ false
unfolding ends_with bytes_eq
private_name = refl

cmd_generate_key-Forms_example :
    (shown : Shown) × Forms crypto signer signer-IsEcdsa signer-IsPoint device_key provisioned shown
    × Forms crypto signer signer-IsEcdsa signer-IsPoint (pub_path device_key) provisioned shown
cmd_generate_key-Forms_example =
    cmd_generate_key-Forms crypto signer signer-IsEcdsa signer-IsPoint device_key false 5 empty_disk
      private_name key_made

abbrev generate_line : List Text
generate_line = codes "generate-key" ∷ codes "--out" ∷ device_key ∷ codes "--force" ∷ []

main-Writes_example :
    ((main crypto signer generate_line 5 provisioned).1 ≡ provisioned)
    ⊎ Writes crypto signer generate_line provisioned
        (main crypto signer generate_line 5 provisioned).1
main-Writes_example = main-Writes crypto signer generate_line 5 provisioned
