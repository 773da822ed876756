-- ===== src/Tool/Commands.antt =====
-- The subcommands of tools/verify_attestation.py, on parsed arguments. `read` gives what `open` and
-- `json.load` give for a path; the other files are given as what reading them gives.
pub mod Argument
pub mod Passing
use noethrion.Base.{ℕ, true, false, List, [], ◌∷◌, ◌==◌, if◌then◌else◌}
use noethrion.Base.Int.{ℤ}
use noethrion.Python.Result.{Result, ok, raise, system_exit, keyboard_interrupt, ◌>>=◌}
use noethrion.Python.Bytes.{Bytes}
use noethrion.Python.Hex.{hex}
use noethrion.Python.Text.{Text, codes, strip, is_empty, add_0x}
use noethrion.Python.Split.{split_on, ends_with}
use noethrion.Python.Json.{Json, str, arr, to_list}
use noethrion.Crypto.{Crypto}
use noethrion.Leaf.Tool.{compute_leaf_impl}
use noethrion.Tool.Proof.{verify_merkle_proof_impl}
use noethrion.Tool.Signature.{load_attestation, load_pubkey, verify_signature}

-- `[p.strip() for p in parts if p.strip()]`
unfoldable pub stripped : List Text → List Json
stripped [] = []
stripped (p ∷ parts) =
    let rest = stripped parts in if is_empty (strip p) then rest else str (strip p) ∷ rest

-- `data`, which must be an array
unfoldable pub array_or_exit : Json → Result (List Json)
array_or_exit (arr js) = ok (to_list js)
array_or_exit _ = raise system_exit

-- What `--proof` says.
unfoldable pub proof_argument : (Text → Result Json) → Text → Result (List Json)
unfolding array_or_exit stripped
proof_argument read proof =
    if is_empty proof
    then ok []
    else if ends_with (codes ".json") proof
    then (do data_read ← read proof; array_or_exit data_read)
    else ok (stripped (split_on b',' [] proof))

module _ (C : Crypto) where
  unfoldable pub cmd_verify_signature : Result Json → Result Bytes → Result ℕ
  cmd_verify_signature attestation pubkey = do
    att ← load_attestation attestation
    pub_key ← load_pubkey C pubkey
    (fine, msg) ← verify_signature C att pub_key
    ok (if fine then 0 else 1)

module _ (sha256 keccak256 : Bytes → Bytes) where
  unfoldable pub cmd_verify_merkle : (Text → Result Json) → Text → Text → Text → Text → Result ℕ
  cmd_verify_merkle read leaf proof root hash = do
    siblings ← proof_argument read proof
    (fine, msg) ← verify_merkle_proof_impl sha256 keccak256 leaf siblings root hash
    ok (if fine then 0 else 1)

  unfoldable pub cmd_verify_full :
      Crypto
      → Result Json
      → Result Bytes
      → (Text → Result Json)
      → Text
      → Text
      → Text
      → Text
      → Result ℕ
  cmd_verify_full C attestation pubkey read leaf proof root hash = do
    sig_rc ← cmd_verify_signature C attestation pubkey
    elim (sig_rc == 0) [ true ↦ cmd_verify_merkle read leaf proof root hash | false ↦ ok sig_rc ]

  -- The exit code and the line printed.
  unfoldable pub cmd_compute_leaf : ℤ → Text → Text → ℤ → ℤ → Result (ℕ × Text)
  cmd_compute_leaf chain_id attester beneficiary amount epoch = do
    (leaf, w, w') ← compute_leaf_impl keccak256 chain_id attester beneficiary amount epoch
    ok (0, add_0x (hex leaf))

-- `sys.exit(main())`: a SystemExit with a text, and any other exception, is status 1.
unfoldable pub exit_status : Result ℕ → ℕ
exit_status (ok n) = n
exit_status (raise keyboard_interrupt) = 130
exit_status (raise _) = 1
