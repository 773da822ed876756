-- ===== src/Python/Utf8.antt =====
-- `s.encode("utf-8")`. A surrogate, which a JSON escape can bring in, cannot be encoded.
use noethrion.Base.{
  ℕ, ◌+◌, ◌/◌, ◌%◌, ◌<◌, ◌≡◌, refl, [], ◌∷◌, ◌++◌, ◌&&◌, leb, ltb, if◌then◌else◌, All, lt→ltb,
}
use noethrion.Python.Result.{Result, ok, raise, unicode_encode_error, ◌>>=◌}
use noethrion.Python.Bytes.{Bytes}
use noethrion.Python.Text.{Text}

unfoldable pub encode_char : ℕ → Result Bytes
encode_char c =
    if ltb c 0x80
    then ok (c ∷ [])
    else if ltb c 0x800
    then ok ((0xc0 + c / 0x40) ∷ (0x80 + c % 0x40) ∷ [])
    else if leb 0xd800 c && leb c 0xdfff
    then raise unicode_encode_error
    else if ltb c 0x10000
    then ok ((0xe0 + c / 0x1000) ∷ (0x80 + c / 0x40 % 0x40) ∷ (0x80 + c % 0x40) ∷ [])
    else ok (
        (0xf0 + c / 0x40000)
        ∷ (0x80 + c / 0x1000 % 0x40)
        ∷ (0x80 + c / 0x40 % 0x40)
        ∷ (0x80 + c % 0x40)
        ∷ [])

unfoldable pub encode_utf8 : Text → Result Bytes
unfolding encode_char
encode_utf8 [] = ok []
encode_utf8 (c ∷ s) = do b ← encode_char c; bs ← encode_utf8 s; ok (b ++ bs)

-- ASCII text is its own encoding.
pub encode_utf8-ascii : (s : Text) → All (λ c. c < 128) s → encode_utf8 s ≡ ok s
unfolding encode_utf8
encode_utf8-ascii [] h = refl
encode_utf8-ascii (c ∷ s) (hc, hs) = rw (lt→ltb c 128 hc, encode_utf8-ascii s hs)
