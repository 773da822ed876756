-- ===== src/Python/Json.antt =====
-- The values that `json.load` returns, and what the code does with them.
use noethrion.Base.{◌≡◌, refl, Bool, Option, none, some, List, [], ◌∷◌, if◌then◌else◌}
use noethrion.Base.Int.{ℤ}
use noethrion.Python.Result.{Result, ok, raise, attribute_error}
use noethrion.Python.Bytes.{bytes_eq}
use noethrion.Python.Text.{Text}

-- A float as `int()` sees it: what is left of the decimal point, or no number at all.
pub data Float : Type 0 where
  finite : ℤ → Float
  infinite : Float
  nan : Float

mutual
  pub data Json : Type 0 where
    null : Json
    boolean : Bool → Json
    int : ℤ → Json
    float : Float → Json
    str : Text → Json
    arr : Items → Json
    obj : Fields → Json

  pub data Items : Type 0 where
    nil : Items
    cons : Json → Items → Items

  -- The entries of a `dict`, whose keys are distinct.
  pub data Fields : Type 0 where
    end : Fields
    field : Text → Json → Fields → Fields

unfoldable pub to_list : Items → List Json
to_list nil = []
to_list (cons j js) = j ∷ to_list js

unfoldable pub from_list : List Json → Items
from_list [] = nil
from_list (j ∷ js) = cons j (from_list js)

pub to_list-from_list : (js : List Json) → to_list (from_list js) ≡ js
unfolding to_list from_list
to_list-from_list [] = refl
to_list-from_list (j ∷ js) = λ i. j ∷ to_list-from_list js i

-- `d.get(key)`
unfoldable pub get : Text → Fields → Option Json
get key end = none
get key (field k j d) = if bytes_eq k key then some j else get key d

-- A method of `str`, called on any value.
unfoldable pub as_str : Json → Result Text
as_str (str s) = ok s
as_str _ = raise attribute_error
