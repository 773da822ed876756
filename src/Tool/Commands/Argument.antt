-- ===== src/Tool/Commands/Argument.antt =====
-- `--proof` of tools/verify_attestation.py: what is written there is read back.
use noethrion.Base.{
  ℕ, ◌/◌, ◌%◌, ◌<◌, ◌≡◌, refl, ap, false, [], ◌∷◌, map, arith, ◌==◌, All, All-append,
}
use noethrion.Python.Result.{Result, ok}
use noethrion.Python.Bytes.{Bytes, IsByte}
use noethrion.Python.Hex.{hex, hex_digit}
use noethrion.Python.Text.{Text, codes, is_space, is_empty}
use noethrion.Python.Split.{join, Lacks, split_on-join, strip-id, ends_with-Lacks}
use noethrion.Python.Json.{Json}
use noethrion.Merkle.{Proof}
use noethrion.Merkle.Replay.{IsWord}
use noethrion.Tool.Proof.Verdict.{word_text, word_json}
use noethrion.Tool.Commands.{stripped, proof_argument}

-- Of the characters of a word's text none is a blank, a comma or a dot.
abbrev pub IsPlain : ℕ → Type 0
IsPlain c = (is_space c ≡ false) × ((c == b',') ≡ false) × ((c == b'.') ≡ false)

hex_digit-IsPlain : (v : ℕ) → v < 16 → IsPlain (hex_digit v)
unfolding hex_digit is_space
hex_digit-IsPlain v h = (ground arith, ground arith, ground arith)

hex-IsPlain : (w : Bytes) → All IsByte w → All IsPlain (hex w)
unfolding hex
hex-IsPlain [] h = tt
hex-IsPlain (b ∷ w) (hb, hw) = (
  hex_digit-IsPlain (b / 16) (omega arith),
  (hex_digit-IsPlain (b % 16) (omega arith), hex-IsPlain w hw),
)

pub word_text-IsPlain : (w : Bytes) → IsWord w → All IsPlain (word_text w)
unfolding is_space
word_text-IsPlain w h = ((refl, refl, refl), ((refl, refl, refl), hex-IsPlain w h.1))

pub plain_parts :
    (s : Text) → All IsPlain s → All (λ c. is_space c ≡ false) s × Lacks b',' s × Lacks b'.' s
plain_parts [] h = (tt, tt, tt)
plain_parts (c ∷ s) h = let (p, q, r) = plain_parts s h.1 in ((h.0.0, p), (h.0.1, q), (h.0.2, r))

join-Lacks :
    (w : Bytes) (p : Proof) → All IsWord (w ∷ p) → Lacks b'.' (join b',' (map word_text (w ∷ p)))
join-Lacks w [] h = (plain_parts (word_text w) (word_text-IsPlain w h.0)).2
join-Lacks w (v ∷ p) h =
    All-append (λ c. (c == b'.') ≡ false) (word_text w) (b',' ∷ join b',' (map word_text (v ∷ p)))
      (plain_parts (word_text w) (word_text-IsPlain w h.0)).2 (refl, join-Lacks v p h.1)

parts-Lacks : (p : Proof) → All IsWord p → All (Lacks b',') (map word_text p)
parts-Lacks [] h = tt
parts-Lacks (w ∷ p) h = ((plain_parts (word_text w) (word_text-IsPlain w h.0)).1, parts-Lacks p h.1)

stripped-word_text : (p : Proof) → All IsWord p → stripped (map word_text p) ≡ map word_json p
unfolding stripped is_empty
stripped-word_text [] h = refl
stripped-word_text (w ∷ p) h =
    rw (strip-id (word_text w) (plain_parts (word_text w) (word_text-IsPlain w h.0)).0)
      (ap (λ l. word_json w ∷ l) (stripped-word_text p h.1))

is_empty-join : (w : Bytes) (p : Proof) → is_empty (join b',' (map word_text (w ∷ p))) ≡ false
unfolding is_empty
is_empty-join w [] = refl
is_empty-join w (v ∷ p) = refl

-- The siblings of a proof, of 32 bytes each, as hexadecimal texts with commas between them, are
-- read back from `--proof` as they were; the empty text is the empty proof.
pub proof_argument-join :
    (read : Text → Result Json) (p : Proof)
    → All IsWord p
    → proof_argument read (join b',' (map word_text p)) ≡ ok (map word_json p)
unfolding proof_argument is_empty
proof_argument-join read [] h = refl
proof_argument-join read (w ∷ p) h =
    rw
      (
        is_empty-join w p,
        ends_with-Lacks b'.' (codes "json") (join b',' (map word_text (w ∷ p))) (join-Lacks w p h),
        split_on-join b',' (word_text w) (map word_text p) (parts-Lacks (w ∷ p) h),
      )
      (ap ok (stripped-word_text (w ∷ p) h))
