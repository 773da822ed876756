-- ===== src/Render.antt =====
-- tools/render_social_assets.py: the three images as lists of drawing calls, and where they go.
pub mod AllOrNothing
use noethrion.Base.{ℕ, ◌/◌, Bool, ◌&&◌, List, [], ◌∷◌, ◌++◌, if◌then◌else◌}
use noethrion.Python.Result.{Result, ok, raise, system_exit, os_error, ◌>>=◌, ◌>>◌}
use noethrion.Python.Text.{Text, codes, is_empty}
use noethrion.Python.Argparse.{
  text, text_value, Opt, default_option, Outcome, exits, runs, parse_args, text_of,
}

abbrev pub Color : Type 0
Color = ℕ × ℕ × ℕ

abbrev pub noir : Color
noir = (10, 10, 10)

abbrev pub eta_green : Color
eta_green = (20, 241, 149)

abbrev pub cream : Color
cream = (245, 241, 232)

abbrev pub cream_dim : Color
cream_dim = (196, 191, 178)

abbrev pub neutral_dim : Color
neutral_dim = (107, 104, 98)

abbrev pub font_serif_italic : Text
font_serif_italic = codes "/System/Library/Fonts/Supplemental/Georgia Italic.ttf"

abbrev pub font_sans : Text
font_sans = codes "/System/Library/Fonts/Helvetica.ttc"

abbrev pub font_mono : Text
font_mono = codes "/System/Library/Fonts/Supplemental/Courier New.ttf"

pub record Font : Type 0 where
  pub path : Text
  pub size : ℕ

-- The calls of `ImageDraw` that the script makes.
pub data Shape : Type 0 where
  -- the box, and the fill
  ellipse : ℕ → ℕ → ℕ → ℕ → Color → Shape
  -- the two ends, the fill and the width
  line : ℕ → ℕ → ℕ → ℕ → Color → ℕ → Shape
  -- the position, the text, its font, the fill and the anchor
  text_at : ℕ → ℕ → Text → Font → Color → Text → Shape

-- `Image.new("RGB", (width, height), color=background)`, and what is drawn on it.
pub record Image : Type 0 where
  pub width : ℕ
  pub height : ℕ
  pub background : Color
  pub shapes : List Shape

-- The social card of `render_og_image`, with the fonts it has loaded.
abbrev pub og_card : Font → Font → Font → Font → Font → Image
og_card f_mono14 f_eta f_word f_tag f_eq = record {
  width = 1200;
  height = 630;
  background = noir;
  shapes =
      ellipse 74 74 86 86 eta_green
      ∷ text_at 100 78 (codes "// PROTOCOL · v0.1 · MAY 2026") f_mono14 neutral_dim (codes "la")
      ∷ text_at 240 450 (codes "η") f_eta eta_green (codes "mb")
      ∷ line 135 480 345 480 cream 2
      ∷ text_at 470 290 (codes "noethrion") f_word cream (codes "ls")
      ∷ text_at 470 350 (codes "Open standard for verifiable energy.") f_tag cream_dim (codes "ls")
      ∷ text_at 470 420 (codes "1 NOET = 1 kWh · cryptographically signed") f_eq eta_green
          (codes "ls")
      ∷ text_at 100 595 (codes "η = E_useful / E_total") f_mono14 neutral_dim (codes "ls")
      ∷ text_at 1100 595 (codes "noethrion.com") f_mono14 neutral_dim (codes "rs")
      ∷ [];
}

-- The square mark of `render_avatar`.
abbrev pub avatar_mark : Font → Image
avatar_mark f_eta = record {
  width = 400;
  height = 400;
  background = noir;
  shapes =
      text_at (400 / 2) 280 (codes "η") f_eta eta_green (codes "mb")
      ∷ line 125 300 275 300 cream 3
      ∷ [];
}

-- The computer: which fonts there are, and which directories and files can be written.
pub record Computer : Type 0 where
  pub has_font : Text → Bool
  pub can_make : Text → Bool
  pub writable : Text → Bool

-- `root / part`, for a root without a slash at its end
abbrev pub under : Text → Text → Text
under root part = if is_empty root then part else root ++ b'/' ∷ part

-- The images written, the last in front.
abbrev pub Gallery : Type 0
Gallery = List (Text × Image)

-- The parser's only option; `repository` is the parent of tools/.
abbrev pub options : Text → List Opt
options repository = default_option (codes "--out-dir") text (text_value repository) ∷ []

module _ (computer : Computer) where
  -- `_load`
  unfoldable pub load : Text → ℕ → Result Font
  load path size =
      if computer.has_font path then ok (record { path = path; size = size }) else raise system_exit

  -- `render_og_image`, up to `save`
  unfoldable pub og_image : Result Image
  unfolding load
  og_image = do
    f_mono14 ← load font_mono 14
    f_eta ← load font_serif_italic 380
    f_word ← load font_sans 78
    f_tag ← load font_sans 26
    f_eq ← load font_mono 18
    ok (og_card f_mono14 f_eta f_word f_tag f_eq)

  -- `render_avatar`, up to `save`; its label is printed only
  unfoldable pub avatar : Result Image
  unfolding load
  avatar = do f_eta ← load font_serif_italic 280; ok (avatar_mark f_eta)

  -- `img.save(out, format="PNG", optimize=True)`
  unfoldable pub save : Text → Result Image → Gallery → Result (Unit {0}) × Gallery
  save out (raise e) written = (raise e, written)
  save out (ok img) written =
      if computer.writable out then (ok tt, (out, img) ∷ written) else (raise os_error, written)

  -- The next step, if there was no exception.
  unfoldable pub and_then :
      Result (Unit {0}) × Gallery
      → (Gallery → Result (Unit {0}) × Gallery)
      → Result (Unit {0}) × Gallery
  and_then (ok u, written) next = next written
  and_then (raise e, written) next = (raise e, written)

  -- `main` behind the argument
  unfoldable pub render_all : Text → Gallery → Result (Unit {0}) × Gallery
  unfolding og_image avatar save and_then
  render_all root written =
      if computer.can_make (under root (codes "docs"))
        && computer.can_make (under root (codes "assets/social"))
      then and_then (save (under root (codes "docs/og-image.png")) og_image written) (λ w.
        and_then (save (under root (codes "assets/social/twitter_avatar_400.png")) avatar w)
          (λ w'. save (under root (codes "assets/social/farcaster_avatar_400.png")) avatar w'))
      else (raise os_error, written)

  -- `main`, with what it returns
  unfoldable pub main : Text → List Text → Gallery → Outcome (Result ℕ) × Gallery
  unfolding render_all
  main repository argv written = elim (parse_args (options repository) argv) [
    | exits status ↦ (exits status, written)
    | runs args ↦ elim (text_of (codes "--out-dir") args) [
      | raise e ↦ (runs (raise e), written)
      | ok root ↦ let done = render_all root written in (runs (done.0 >> ok 0), done.1)
    ]
  ]
