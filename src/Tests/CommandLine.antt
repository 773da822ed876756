-- ===== src/Tests/CommandLine.antt =====
-- Whole command lines of tools/verify_attestation.py.
use noethrion.Base.{◌≡◌, ◌≤◌, ◌⊎◌, ◌↔◌, refl, ap, ◌∙◌, false, some, List, [], ◌∷◌}
use noethrion.Python.Result.{ok}
use noethrion.Python.Bytes.{Bytes}
use noethrion.Python.Bytes
use noethrion.Python.Text.{Text, codes}
use noethrion.Python.Json.{obj}
use noethrion.Python.Argparse
use noethrion.Python.Argparse.{Settings, exits, runs, parse_command}
use noethrion.Leaf.Encoding.{address_text, encoding}
use noethrion.Leaf.Casing.{IsWritten, address_text-IsWritten}
use noethrion.Merkle.{Proof, build_tree}
use noethrion.Tool.Proof.Verdict.{word_text}
use noethrion.Tool.Main
use noethrion.Tool.Main.{build_parser, Files, main, status}
use noethrion.Tool.Main.Invoked.{Invoked, main-Invoked}
use noethrion.Tool.Main.Certified.{Certified, main_zero-Certified}
use noethrion.Tool.Main.Status.{main-IsStatus}
use noethrion.Tool.Main.Lines.{leaf_line, main-leaf_line, main-parsed}
use noethrion.Tool.Main.Tree.{AllAccepted, status-silent, build_tree-AllAccepted}
use noethrion.Tests.Values.{digest, digest-IsDigest, alice, alice-IsClaim, crypto}
use noethrion.Tests.Trees.{leaf_a, leaf_b, leaf_c, root, leaf_words}
use noethrion.Tests.Epochs.{signed_payload}
use noethrion.Tests.Commands.{comma_proof, full_passes}

-- Every path holds the attestation, and every key file the key 5.
abbrev pub files : Files
files = record { read_json = λ path. ok (obj signed_payload); read_pem = λ path. ok (5 ∷ []) }

-- Abbreviated flags, a value behind `=`, and a flag given twice.
abbrev full_line : List Text
full_line =
    codes "verify-full"
    ∷ codes "--att"
    ∷ codes "attestation.json"
    ∷ codes "--pubkey=device.pem.pub"
    ∷ codes "--leaf"
    ∷ codes "0x00"
    ∷ codes "--leaf"
    ∷ word_text leaf_b
    ∷ codes "--root"
    ∷ word_text root
    ∷ codes "--proof"
    ∷ comma_proof
    ∷ []

abbrev full_args : Settings
full_args =
    (codes "--attestation", Argparse.text_value (codes "attestation.json"))
    ∷ (codes "--pubkey", Argparse.text_value (codes "device.pem.pub"))
    ∷ (codes "--leaf", Argparse.text_value (word_text leaf_b))
    ∷ (codes "--root", Argparse.text_value (word_text root))
    ∷ (codes "--proof", Argparse.text_value comma_proof)
    ∷ (codes "--hash", Argparse.text_value (codes "keccak256"))
    ∷ []

full_parsed : parse_command build_parser false full_line ≡ runs (codes "verify-full", full_args)
unfolding parse_command Argparse.parse_args Argparse.tokens Argparse.consume Argparse.finish
    Argparse.complete Argparse.value_of Argparse.lookup Argparse.meet Argparse.accept
    Argparse.member Argparse.classify Argparse.dashed Argparse.long_option Argparse.only_one
    Argparse.abbreviated Argparse.starts_with Argparse.find_flag Argparse.split_eq Argparse.find_sub
    Argparse.with_name Bytes.bytes_eq
full_parsed = refl

full_status : status (main digest digest crypto files full_line) ≡ 0
unfolding Main.func Argparse.text_of Argparse.lookup Bytes.bytes_eq
full_status =
    ap status (main-parsed digest digest crypto files full_line full_parsed)
    ∙ status-silent _
    ∙ full_passes files.read_json

main_zero-Certified_example :
    (main digest digest crypto files full_line ≡ exits 0)
    ⊎ ((name : Text) × (args : Settings) × (parse_command build_parser false full_line
          ≡ runs (name, args))
        × Certified digest digest crypto files name args)
main_zero-Certified_example = main_zero-Certified digest digest crypto files full_line full_status

abbrev alice_line : List Text
alice_line =
    leaf_line alice.chain_id (address_text alice.attester) (address_text alice.beneficiary)
      alice.amount alice.epoch

attester-IsWritten : IsWritten (address_text alice.attester) alice.attester
attester-IsWritten = address_text-IsWritten alice.attester alice-IsClaim.attester_bytes

beneficiary-IsWritten : IsWritten (address_text alice.beneficiary) alice.beneficiary
beneficiary-IsWritten = address_text-IsWritten alice.beneficiary alice-IsClaim.beneficiary_bytes

main-leaf_line_example :
    main digest digest crypto files alice_line
    ≡ runs (ok (0, some (word_text (digest (encoding alice)))))
main-leaf_line_example =
    main-leaf_line digest digest crypto files alice alice-IsClaim (address_text alice.attester)
      (address_text alice.beneficiary) attester-IsWritten beneficiary-IsWritten

alice_runs :
    main digest digest crypto files alice_line
    ≡ runs (ok (0, some (word_text (digest (encoding alice)))))
alice_runs =
    main-leaf_line digest digest crypto files alice alice-IsClaim (address_text alice.attester)
      (address_text alice.beneficiary) attester-IsWritten beneficiary-IsWritten

main-Invoked_example :
    (name : Text) × (args : Settings) × (parse_command build_parser false alice_line
      ≡ runs (name, args))
    × Invoked digest digest crypto files name args
        (ok (0, some (word_text (digest (encoding alice)))))
main-Invoked_example = main-Invoked digest digest crypto files alice_line alice_runs

main-IsStatus_example :
    ((status (main digest digest crypto files full_line) ≡ 2)
      ↔ (main digest digest crypto files full_line ≡ exits 2))
    × ((status (main digest digest crypto files full_line) ≤ 2)
        ⊎ (status (main digest digest crypto files full_line) ≡ 130))
main-IsStatus_example = main-IsStatus digest digest crypto files full_line

build_tree-AllAccepted_example :
    (top : Bytes) × (proofs : List Proof) × (build_tree digest (leaf_a ∷ leaf_b ∷ leaf_c ∷ [])
      ≡ ok (top, proofs))
    × AllAccepted digest digest crypto files top (leaf_a ∷ leaf_b ∷ leaf_c ∷ []) proofs
build_tree-AllAccepted_example =
    build_tree-AllAccepted digest digest crypto files digest-IsDigest leaf_a (leaf_b ∷ leaf_c ∷ [])
      leaf_words
