-- ===== src/Tests/Commands.antt =====
-- The command line on the published epoch's files.
use noethrion.Base.{◌≡◌, refl, [], ◌∷◌, map}
use noethrion.Python.Result.{Result, ok, raise, os_error}
use noethrion.Python.Bytes.{Bytes}
use noethrion.Python.Text.{Text, codes}
use noethrion.Python.Split
use noethrion.Python.Split.{join}
use noethrion.Python.Json.{Json, obj}
use noethrion.Merkle.{Proof}
use noethrion.Tool.Proof.Verdict.{word_text}
use noethrion.Tool.Commands
use noethrion.Tool.Commands.{proof_argument, cmd_verify_full, exit_status}
use noethrion.Tool.Commands.Passing.{Signed, Proved, cmd_verify_full-Proved}
use noethrion.Library.{verify_signature}
use noethrion.Library.Signature.{Agrees, verify_signature-Agrees}
use noethrion.Tests.Values.{digest, crypto}
use noethrion.Tests.Trees.{leaf_b, root, proof_b}
use noethrion.Tests.Epochs.{signed_payload}
use noethrion.Python.Json
use noethrion.Python.Bytes
use noethrion.Python.Text
use noethrion.Python.Hex
use noethrion.Merkle
use noethrion.Tests.Values
use noethrion.Leaf.Encoding
use noethrion.Python.Result
use noethrion.Python.Utf8
use noethrion.Tool.Proof
use noethrion.Tool.Signature

abbrev pub no_files : Text → Result Json
no_files path = raise os_error

abbrev pub comma_proof : Text
comma_proof = join b',' (map word_text proof_b)

pub full_passes :
    (read : Text → Result Json)
    → exit_status (
        cmd_verify_full digest digest crypto
          (ok (obj signed_payload))
          (ok (5 ∷ []))
          read
          (word_text leaf_b)
          comma_proof
          (word_text root)
          (codes "keccak256"))
      ≡ 0
unfolding exit_status cmd_verify_full Commands.cmd_verify_merkle Commands.cmd_verify_signature
    proof_argument Commands.array_or_exit Commands.stripped Split.split_on Split.ends_with Json.get
    Json.as_str Json.to_list Json.from_list Bytes.bytes_eq Bytes.bytes_lt Bytes.big_endian
    Bytes.from_bytes Bytes.to_bytes Text.is_empty Text.strip Text.starts_0x Text.lower Text.is_space
    Text.is_upper Text.lower_char Text.lstrip Text.removeprefix_0x Hex.hex Hex.cons_byte Hex.fromhex
    Hex.hex_digit Hex.hex_value Hex.is_ascii_space Merkle.hash_pair Values.digest Encoding.encoding
    Result.traverse Utf8.encode_char Utf8.encode_utf8 Proof.fold_proof Proof.hash_of Proof.to_word
    Proof.verify_merkle_proof_impl Signature.check_attestation Signature.fromhex_of Signature.has
    Signature.hex_or_none Signature.is_es256 Signature.item Signature.json_error_exits
    Signature.load_attestation Signature.load_pubkey Signature.verdict Signature.verify_raw
    Signature.verify_signature
full_passes read = refl

cmd_verify_full-Proved_example :
    Signed crypto (ok (obj signed_payload)) (ok (5 ∷ []))
    × Proved digest digest no_files
        (word_text leaf_b)
        comma_proof
        (word_text root)
        (codes "keccak256")
cmd_verify_full-Proved_example =
    cmd_verify_full-Proved digest digest crypto (ok (obj signed_payload)) (ok (5 ∷ [])) no_files
      (word_text leaf_b) comma_proof (word_text root) (codes "keccak256") (full_passes no_files)

verify_signature-Agrees_example :
    Agrees
      (Signature.verify_signature crypto signed_payload 5)
      (verify_signature crypto 5 signed_payload)
verify_signature-Agrees_example = verify_signature-Agrees crypto 5 signed_payload
