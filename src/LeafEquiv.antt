-- ===== src/LeafEquiv.antt =====
-- node/_leaf_equiv_test.py: the leaf that the command line prints and the leaf that the node computes.
pub mod Identical
use noethrion.Base.{
  ℕ, zero, suc, Bool, true, false, ◌&&◌, ◌||◌, Option, none, some, [], ◌∷◌, ◌++◌, leb,
  if◌then◌else◌, drop, take,
}
use noethrion.Python.Result.{Result, ok, ◌>>=◌}
use noethrion.Python.Bytes.{Bytes, bytes_eq}
use noethrion.Python.Text.{Text, lower, starts_0x}
use noethrion.Python.Json.{str}
use noethrion.Python.Argparse.{Outcome, runs}
use noethrion.Crypto.{Crypto}
use noethrion.Tool.Main.{Files, main}
use noethrion.Tool.Main.Lines.{leaf_line}
use noethrion.Node.{Web3}
use noethrion.Node.Leaves.{compute_leaf}

-- `[a-fA-F0-9]`
unfoldable pub is_hex_char : ℕ → Bool
is_hex_char c =
    (leb b'a' c && leb c b'f') || (leb b'A' c && leb c b'F') || (leb b'0' c && leb c b'9')

-- `n` of them in front
unfoldable pub hex_run : ℕ → Text → Bool
unfolding is_hex_char
hex_run zero s = true
hex_run (suc n) [] = false
hex_run (suc n) (c ∷ s) = is_hex_char c && hex_run n s

-- `re.search(r"0x[a-fA-F0-9]{64}", s)` and `m.group(0)`
unfoldable pub search_word : Text → Option Text
unfolding hex_run starts_0x
search_word [] = none
search_word (c ∷ s) =
    let later = search_word s in
    if starts_0x (c ∷ s) && hex_run 64 (drop 2 (c ∷ s)) then some (take 66 (c ∷ s)) else later

-- What the subprocess prints on stdout.
unfoldable pub stdout : Outcome (Result (ℕ × Option Text)) → Text
stdout (runs (ok (code, some line))) = line ++ 10 ∷ []
stdout _ = []

-- `cli_leaf and cli_leaf == node_leaf`, as an exit code
unfoldable pub compare : Option Text → Text → ℕ
compare none node_leaf = 1
compare (some cli_leaf) node_leaf = if bytes_eq (lower cli_leaf) (lower node_leaf) then 0 else 1

module _ (W : Web3) (sha256 : Bytes → Bytes) (C : Crypto) (files : Files) where
  -- The script, on any test vector: its exit code. `stderr` is what the subprocess prints there.
  unfoldable pub leaf_equiv_test : ℕ → Text → Text → ℕ → ℕ → Text → Result ℕ
  unfolding search_word stdout compare
  leaf_equiv_test chain_id attester beneficiary amount epoch stderr = do
    let cli = main sha256 W.keccak C files (leaf_line chain_id attester beneficiary amount epoch)
    let m = search_word (stdout cli ++ stderr)
    node_leaf ← compute_leaf W sha256 chain_id attester (str beneficiary) amount epoch
    ok (compare m node_leaf)
