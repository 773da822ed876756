-- ===== src/Tests/Cards.antt =====
-- The social cards on two computers.
use noethrion.Base.{◌≡◌, refl, true, not, []}
use noethrion.Python.Bytes.{bytes_eq}
use noethrion.Python.Text.{codes}
use noethrion.Render
use noethrion.Render.{Computer, render_all, font_sans}

abbrev mac : Computer
mac = record { has_font = λ path. true; can_make = λ path. true; writable = λ path. true }

-- Without Helvetica.
abbrev other : Computer
other = record mac { has_font = λ path. not (bytes_eq path font_sans) }

nothing_written : (render_all other (codes "out") []).1 ≡ []
unfolding render_all Render.og_image Render.load Render.save Render.and_then bytes_eq
nothing_written = refl
