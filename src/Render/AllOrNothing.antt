-- ===== src/Render/AllOrNothing.antt =====
-- What tools/render_social_assets.py leaves behind.
use noethrion.Base.{ℕ, ◌+◌, ◌==◌, ◌≤◌, ◌≡◌, Bool, true, false, ◌&&◌, List, [], ◌∷◌, All}
use noethrion.Python.Result.{Result}
use noethrion.Python.Text.{Text, codes}
use noethrion.Python.Argparse
use noethrion.Render.{
  Shape, ellipse, line, text_at, Font, Image, og_card, avatar_mark, Computer, Gallery,
  font_serif_italic, font_sans, font_mono, under,
}

-- The shape's box, ends or position lie on a canvas of this size. A text has also a line of its font's
-- size between its position and the canvas's lower edge where the anchor is its ascender (`a`), and
-- between its position and the upper edge where the anchor is its baseline or its bottom.
abbrev Inside : ℕ → ℕ → Shape → Type 0
Inside w h (ellipse x y x' y' fill) = (x ≤ x') × (x' ≤ w) × (y ≤ y') × (y' ≤ h)
Inside w h (line x y x' y' fill width) = (x ≤ w) × (x' ≤ w) × (y ≤ h) × (y' ≤ h)
Inside w h (text_at x y t font fill (horizontal ∷ vertical ∷ [])) =
    (x ≤ w) × (y ≤ h) × elim (vertical == b'a') [ true ↦ y + font.size ≤ h | false ↦ font.size ≤ y ]
Inside w h (text_at x y t font fill anchor) = ⊥

-- An image of this size, whose shapes are placed on its canvas.
pub record IsCard (w h : ℕ) (img : Image) : Type 0 where
  pub width : img.width ≡ w
  pub height : img.height ≡ h
  pub inside : All (Inside w h) img.shapes

abbrev font : Text → ℕ → Font
font path size = record { path = path; size = size }

abbrev card_of : Image
card_of =
    og_card (font font_mono 14) (font font_serif_italic 380) (font font_sans 78) (font font_sans 26)
      (font font_mono 18)

abbrev mark_of : Image
mark_of = avatar_mark (font font_serif_italic 280)

module _ (computer : Computer) where
  -- The fonts that the script asks for.
  abbrev pub has_fonts : Bool
  has_fonts =
      computer.has_font font_mono
      && computer.has_font font_serif_italic
      && computer.has_font font_sans

  abbrev pub IsReady : Text → Type 0
  IsReady root =
      (computer.can_make (under root (codes "docs")) ≡ true)
      × (computer.can_make (under root (codes "assets/social")) ≡ true)
      × ((path : Text) → computer.writable path ≡ true)

  -- The three images, at their paths.
  pub record Rendered (root : Text) (before after : Gallery) : Type 0 where
    pub card : Image
    pub mark : Image
    pub is_card : IsCard 1200 630 card
    pub is_mark : IsCard 400 400 mark
    pub files :
        after
        ≡ (under root (codes "assets/social/farcaster_avatar_400.png"), mark)
          ∷ (under root (codes "assets/social/twitter_avatar_400.png"), mark)
          ∷ (under root (codes "docs/og-image.png"), card)
          ∷ before

  abbrev pub out_dir_line : Text → List Text
  out_dir_line root = codes "--out-dir" ∷ root ∷ []
