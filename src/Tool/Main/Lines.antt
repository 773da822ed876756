-- ===== src/Tool/Main/Lines.antt =====
-- Whole command lines of tools/verify_attestation.py, from their texts to the exit status.
use noethrion.Base.{ℕ, ◌^◌, ◌<◌, ◌≡◌, refl, ap, ◌∙◌, false, none, some, List, [], ◌∷◌, arith}
use noethrion.Base.Int.{pos}
use noethrion.Python.Result.{ok, ◌>>=◌}
use noethrion.Python.Bytes.{Bytes, bytes_eq}
use noethrion.Python.Text.{Text, codes}
use noethrion.Python.Print.{decimal, text_of_int}
use noethrion.Python.Number.{is_digit}
use noethrion.Python.Decimal.{IsDigits, decimal-IsDigits, int_of_text-text_of_int}
use noethrion.Python.Argparse
use noethrion.Python.Argparse.{
  text, number, text_value, number_value, required_option, default_option, runs, Settings, classify,
  accept, meet, complete, parse_command, with_name, find_sub, find_flag, lookup, text_of, number_of,
}
use noethrion.Python.Argparse.Written.{
  Piece, parse_args-written, Undashed, Undashed-IsPiece, number-accepted,
}
use noethrion.Crypto.{Crypto}
use noethrion.Leaf.Encoding.{Claim, IsClaim, encoding}
use noethrion.Leaf.Casing.{IsWritten, compute_leaf_impl-IsWritten}
use noethrion.Tool.Proof.Verdict.{word_text}
use noethrion.Tool.Commands.{cmd_verify_merkle, cmd_compute_leaf}
use noethrion.Tool.Main.{merkle_options, leaf_options, build_parser, Files, func, main}

abbrev text_piece : Text → Text → Piece
text_piece flag s = record { option = required_option flag text; given = s; value = text_value s }

abbrev number_piece : Text → ℕ → Piece
number_piece flag n = record {
  option = required_option flag number;
  given = text_of_int (pos n);
  value = number_value (pos n);
}

text_of_int-Undashed : (n : ℕ) → Undashed (text_of_int (pos n))
unfolding text_of_int is_digit
text_of_int-Undashed n = go (decimal n) (decimal-IsDigits n)
  where
    go : (s : Text) → IsDigits s → Undashed s
    go [] h = tt
    go (c ∷ s) h = ground (arith, h.0)

-- `verify-merkle` with all three texts.
abbrev pub merkle_line : Text → Text → Text → List Text
merkle_line leaf root proof =
    codes "verify-merkle"
    ∷ codes "--leaf"
    ∷ leaf
    ∷ codes "--root"
    ∷ root
    ∷ codes "--proof"
    ∷ proof
    ∷ []

-- `compute-leaf` as node/_leaf_equiv_test.py writes it.
abbrev pub leaf_line : ℕ → Text → Text → ℕ → ℕ → List Text
leaf_line chain_id attester beneficiary amount epoch =
    codes "compute-leaf"
    ∷ codes "--chain-id"
    ∷ text_of_int (pos chain_id)
    ∷ codes "--attester"
    ∷ attester
    ∷ codes "--beneficiary"
    ∷ beneficiary
    ∷ codes "--amount"
    ∷ text_of_int (pos amount)
    ∷ codes "--epoch"
    ∷ text_of_int (pos epoch)
    ∷ []

abbrev proof_piece : Text → Piece
proof_piece proof = record {
  option = default_option (codes "--proof") text (text_value []);
  given = proof;
  value = text_value proof;
}

abbrev merkle_pieces : Text → Text → Text → List Piece
merkle_pieces leaf root proof =
    text_piece (codes "--leaf") leaf ∷ text_piece (codes "--root") root ∷ proof_piece proof ∷ []

abbrev merkle_args : Text → Text → Text → Settings
merkle_args leaf root proof =
    (codes "--leaf", text_value leaf)
    ∷ (codes "--root", text_value root)
    ∷ (codes "--proof", text_value proof)
    ∷ (codes "--hash", text_value (codes "keccak256"))
    ∷ []

merkle_line-parsed :
    (leaf root proof : Text)
    → Undashed leaf
    → Undashed root
    → Undashed proof
    → parse_command build_parser false (merkle_line leaf root proof)
      ≡ runs (codes "verify-merkle", merkle_args leaf root proof)
unfolding parse_command classify Argparse.dashed Argparse.long_option Argparse.split_eq find_flag
    bytes_eq meet accept complete Argparse.value_of lookup find_sub with_name
merkle_line-parsed leaf root proof hl hr hp = ap (with_name false (codes "verify-merkle")) (
    parse_args-written merkle_options (merkle_pieces leaf root proof)
      (
        Undashed-IsPiece merkle_options (text_piece (codes "--leaf") leaf) refl refl refl hl refl,
        (
          Undashed-IsPiece merkle_options (text_piece (codes "--root") root) refl refl refl hr refl,
          (Undashed-IsPiece merkle_options (proof_piece proof) refl refl refl hp refl, tt),
        ),
      )
      refl)

abbrev leaf_pieces : Claim → Text → Text → List Piece
leaf_pieces c attester beneficiary =
    number_piece (codes "--chain-id") c.chain_id
    ∷ text_piece (codes "--attester") attester
    ∷ text_piece (codes "--beneficiary") beneficiary
    ∷ number_piece (codes "--amount") c.amount
    ∷ number_piece (codes "--epoch") c.epoch
    ∷ []

abbrev leaf_args : Claim → Text → Text → Settings
leaf_args c attester beneficiary =
    (codes "--chain-id", number_value (pos c.chain_id))
    ∷ (codes "--attester", text_value attester)
    ∷ (codes "--beneficiary", text_value beneficiary)
    ∷ (codes "--amount", number_value (pos c.amount))
    ∷ (codes "--epoch", number_value (pos c.epoch))
    ∷ []

few_digits : (n : ℕ) → n < 2 ^ 256 → n < 10 ^ 4300
few_digits n h = omega arith

number_accepted :
    (n : ℕ) → n < 2 ^ 256 → accept number (text_of_int (pos n)) ≡ some (number_value (pos n))
number_accepted n h =
    number-accepted (text_of_int (pos n)) (int_of_text-text_of_int n (few_digits n h))

IsWritten-Undashed : (t : Text) (a : Bytes) → IsWritten t a → Undashed t
IsWritten-Undashed t a h = rw h.prefixed refl

leaf_line-parsed :
    (c : Claim)
    → IsClaim c
    → (attester beneficiary : Text) → IsWritten attester c.attester
    → IsWritten beneficiary c.beneficiary
    → parse_command build_parser false (leaf_line c.chain_id attester beneficiary c.amount c.epoch)
      ≡ runs (codes "compute-leaf", leaf_args c attester beneficiary)
unfolding parse_command classify Argparse.dashed Argparse.long_option Argparse.split_eq find_flag
    bytes_eq meet complete Argparse.value_of lookup find_sub with_name accept
leaf_line-parsed c v attester beneficiary ha hb = ap (with_name false (codes "compute-leaf")) (
    parse_args-written leaf_options (leaf_pieces c attester beneficiary)
      (
        Undashed-IsPiece leaf_options (number_piece (codes "--chain-id") c.chain_id) refl refl refl
            (text_of_int-Undashed c.chain_id) (number_accepted c.chain_id v.chain_fits),
        (
          Undashed-IsPiece leaf_options (text_piece (codes "--attester") attester) refl refl refl
              (IsWritten-Undashed attester c.attester ha) refl,
          (
            Undashed-IsPiece leaf_options (text_piece (codes "--beneficiary") beneficiary) refl refl
                refl (IsWritten-Undashed beneficiary c.beneficiary hb) refl,
            (
              Undashed-IsPiece leaf_options (number_piece (codes "--amount") c.amount) refl refl
                  refl (text_of_int-Undashed c.amount)
                  (number_accepted c.amount (omega (arith, v.amount_fits))),
              (
                Undashed-IsPiece leaf_options (number_piece (codes "--epoch") c.epoch) refl refl
                    refl (text_of_int-Undashed c.epoch)
                    (number_accepted c.epoch (omega (arith, v.epoch_fits))),
                tt,
              ),
            ),
          ),
        ),
      )
      refl)

module _ (sha256 keccak256 : Bytes → Bytes) (C : Crypto) (files : Files) where
  pub main-parsed :
      (argv : List Text) {name : Text} {args : Settings}
      → parse_command build_parser false argv ≡ runs (name, args)
      → main sha256 keccak256 C files argv ≡ runs (func sha256 keccak256 C files name args)
  unfolding main
  main-parsed argv h = rw (h, main)

  -- The leaf of a claim, from the command line to the line that is printed: with the numbers in decimal
  -- and the addresses in hexadecimal, in any mix of cases, behind their flags, for every claim whose
  -- fields fit the contract's types, `compute-leaf` returns 0 and prints `0x` and the digest of the
  -- contract's encoding of the claim.
  pub main-leaf_line :
      (c : Claim)
      → IsClaim c
      → (attester beneficiary : Text) → IsWritten attester c.attester
      → IsWritten beneficiary c.beneficiary
      → main sha256 keccak256 C files (leaf_line c.chain_id attester beneficiary c.amount c.epoch)
        ≡ runs (ok (0, some (word_text (keccak256 (encoding c)))))
  unfolding func bytes_eq lookup text_of number_of cmd_compute_leaf
  main-leaf_line c v attester beneficiary ha hb =
      let (w, w', leaf) = compute_leaf_impl-IsWritten keccak256 c v attester beneficiary ha hb in
      main-parsed (leaf_line c.chain_id attester beneficiary c.amount c.epoch)
        (leaf_line-parsed c v attester beneficiary ha hb)
      ∙ ap runs (rw leaf refl)

  pub main-merkle_line :
      (leaf root proof : Text)
      → Undashed leaf
      → Undashed root
      → Undashed proof
      → main sha256 keccak256 C files (merkle_line leaf root proof)
        ≡ runs (
            cmd_verify_merkle sha256 keccak256 files.read_json leaf proof root (codes "keccak256")
            >>= λ code. ok (code, none))
  unfolding func bytes_eq lookup text_of
  main-merkle_line leaf root proof hl hr hp =
      main-parsed (merkle_line leaf root proof) (merkle_line-parsed leaf root proof hl hr hp)
