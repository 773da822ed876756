-- ===== src/Tests/Full.antt =====
-- One claim under the library's `verify` and the tool's `verify-full`.
use noethrion.Base.{◌≡◌, refl, true, [], ◌∷◌}
use noethrion.Base.Int.{pos}
use noethrion.Python.Result.{ok}
use noethrion.Python.Text.{codes}
use noethrion.Python.Json.{obj}
use noethrion.Python.Json
use noethrion.Python.Bytes
use noethrion.Python.Text
use noethrion.Python.Hex
use noethrion.Python.Utf8
use noethrion.Merkle
use noethrion.Leaf
use noethrion.Leaf.Encoding
use noethrion.Leaf.Encoding.{address_text, encoding}
use noethrion.Tool.Signature
use noethrion.Tool.Signature.{load_attestation}
use noethrion.Tool.Proof.Verdict.{word_text}
use noethrion.Tool.Commands.{cmd_verify_full, exit_status}
use noethrion.Library
use noethrion.Library.{VerificationResult, inclusion_ok, init, verify}
use noethrion.Library.Full.{verify-cmd_verify_full}
use noethrion.Tests.Values
use noethrion.Tests.Values.{digest, digest-IsDigest, bob, bob-IsClaim, crypto}
use noethrion.Tests.Trees.{root, root-IsWord, proof_b, proof_words}
use noethrion.Tests.Epochs.{signed_payload}
use noethrion.Tests.Commands.{no_files, comma_proof}

attestation_loads : load_attestation (ok (obj signed_payload)) ≡ ok signed_payload
unfolding load_attestation Signature.check_attestation Signature.has Signature.is_es256
    Signature.json_error_exits Json.get Bytes.bytes_eq
attestation_loads = refl

key_made : init crypto (5 ∷ []) ≡ ok 5
unfolding init Bytes.from_bytes
key_made = refl

abbrev accepted : VerificationResult
accepted = record { verified = true; reason = inclusion_ok }

accepts :
    verify crypto digest 5 signed_payload root proof_b
      (pos bob.chain_id)
      (address_text bob.attester)
      (address_text bob.beneficiary)
      (pos bob.amount)
      (pos bob.epoch)
    ≡ ok accepted
unfolding verify Library.verify_signature Library.check_parts Library.signed_parts Library.verdict
    Library.verify_merkle Library.check_proof Library.hash_pair Leaf.compute_leaf Leaf.addr_to_32
    Json.get Json.as_str Bytes.bytes_eq Bytes.bytes_lt Bytes.big_endian Bytes.from_bytes
    Bytes.to_bytes Text.lower Text.lower_char Text.is_upper Text.removeprefix_0x Hex.hex
    Hex.cons_byte Hex.fromhex Hex.hex_digit Hex.hex_value Hex.is_ascii_space Utf8.encode_char
    Utf8.encode_utf8 Signature.item Signature.fromhex_of Merkle.hash_pair Values.digest
    Encoding.encoding
accepts = refl

verify-cmd_verify_full_example :
    exit_status (
      cmd_verify_full digest digest crypto
        (ok (obj signed_payload))
        (ok (5 ∷ []))
        no_files
        (word_text (digest (encoding bob)))
        comma_proof
        (word_text root)
        (codes "keccak256"))
    ≡ 0
verify-cmd_verify_full_example =
    verify-cmd_verify_full digest digest crypto digest-IsDigest no_files (ok (obj signed_payload))
      (5 ∷ []) signed_payload attestation_loads key_made root proof_b bob root-IsWord proof_words
      bob-IsClaim accepts refl
