-- ===== src/LeafEquiv/Identical.antt =====
-- The verdict of node/_leaf_equiv_test.py.
use noethrion.Base.{
  ℕ, ◌/◌, ◌%◌, ◌<◌, ◌≡◌, refl, ap, subst, ◌∙◌, true, some, [], ◌∷◌, ◌++◌, arith, length, take,
  take-append, All, append_assoc,
}
use noethrion.Python.Result.{ok}
use noethrion.Python.Bytes.{Bytes, IsByte, bytes_eq_refl}
use noethrion.Python.Hex.{hex, hex_digit, length-hex}
use noethrion.Python.Text.{Text, starts_0x}
use noethrion.Crypto.{Crypto}
use noethrion.Leaf.Encoding.{Claim, IsClaim, encoding}
use noethrion.Leaf.Casing.{IsWritten}
use noethrion.Merkle.Replay.{IsWord, IsDigest}
use noethrion.Tool.Proof.Verdict.{word_text}
use noethrion.Tool.Main.{Files}
use noethrion.Tool.Main.Lines.{main-leaf_line}
use noethrion.Node.{Web3}
use noethrion.Publish.Accepted.{IsEncoder, lower-word_text, compute_leaf-claim}
use noethrion.LeafEquiv.{is_hex_char, hex_run, search_word, stdout, compare, leaf_equiv_test}

hex_digit-is_hex_char : (v : ℕ) → v < 16 → is_hex_char (hex_digit v) ≡ true
unfolding is_hex_char hex_digit
hex_digit-is_hex_char v h = ground arith

hex_run-hex : (w : Bytes) (s : Text) → All IsByte w → hex_run (length (hex w)) (hex w ++ s) ≡ true
unfolding hex_run hex
hex_run-hex [] s h = refl
hex_run-hex (b ∷ w) s (hb, hw) =
    rw (hex_digit-is_hex_char (b / 16) (omega arith), hex_digit-is_hex_char (b % 16) (omega arith))
      (hex_run-hex w s hw)

-- The word in front of a text is what the search finds.
search_word-word_text :
    (w : Bytes) (s : Text) → IsWord w → search_word (word_text w ++ s) ≡ some (word_text w)
unfolding search_word starts_0x
search_word-word_text w s h =
    let size : length (hex w) ≡ 64 = omega (arith, length-hex w, h.0) in
    let run : hex_run 64 (hex w ++ s) ≡ true =
      subst (λ n. hex_run n (hex w ++ s) ≡ true) size (hex_run-hex w s h.1) in
    let front : take 64 (hex w ++ s) ≡ hex w =
      subst (λ n. take n (hex w ++ s) ≡ hex w) size (take-append (hex w) s) in
    rw (run, search_word) (ap (λ t. some (b'0' ∷ b'x' ∷ t)) front)

compare-same : (w : Bytes) → IsWord w → compare (some (word_text w)) (word_text w) ≡ 0
unfolding compare
compare-same w h = rw (lower-word_text w h, bytes_eq_refl (word_text w))

module _ (W : Web3) (sha256 : Bytes → Bytes) (C : Crypto) (files : Files) (encoder : IsEncoder W)
    (d : IsDigest W.keccak) where
  -- The two leaf computations agree, on every vector and not only on the script's: with web3 and
  -- eth_abi as in IsEncoder and a digest of 32 bytes, the script ends with 0 for every claim whose
  -- fields fit the contract's types, with the addresses in any mix of cases, whatever the subprocess
  -- writes on stderr.
  pub leaf_equiv_test-identical :
      (c : Claim)
      → IsClaim c
      → (attester beneficiary stderr : Text) → IsWritten attester c.attester
      → IsWritten beneficiary c.beneficiary
      → leaf_equiv_test W sha256 C files c.chain_id attester beneficiary c.amount c.epoch stderr
        ≡ ok 0
  unfolding leaf_equiv_test stdout
  leaf_equiv_test-identical c v attester beneficiary stderr ha hb =
      let leaf = W.keccak (encoding c) in
      let word = d.word (encoding c) in
      rw
        (
          main-leaf_line sha256 W.keccak C files c v attester beneficiary ha hb,
          compute_leaf-claim W sha256 encoder d c v attester beneficiary ha hb,
        )
        (ap (λ t. ok (compare (search_word t) (word_text leaf)))
            (append_assoc (word_text leaf) (10 ∷ []) stderr)
          ∙ ap (λ m. ok (compare m (word_text leaf)))
              (search_word-word_text leaf (10 ∷ stderr) word)
          ∙ ap ok (compare-same leaf word))
