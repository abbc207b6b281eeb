-- ===== src/Json.antt =====
-- What `json.loads` gives, as the readers of core/llm.py and pipeline/jd_deconstructor.py see it. A
-- number is a code of which only 0 is told from the others; literals are coded by their hundredths.
use provenancerank.Prelude.{
  ℕ, ◌≡◌, refl, ap, Bool, true, false, not, ◌==◌, Option, none, some, List, [], ◌∷◌, if◌then◌else◌,
}
use provenancerank.Text.{Text, text_eqb}

mutual
  pub data Json : Type 0 where
    null : Json
    boolean : Bool → Json
    number : ℕ → Json
    string : Text → Json
    array : Items → Json
    object : Fields → Json

  pub data Items : Type 0 where
    nil : Items
    item : Json → Items → Items

  pub data Fields : Type 0 where
    end : Fields
    field : Text → Json → Fields → Fields

-- The elements of an array, and the array of a list
unfoldable pub elements : Items → List Json
elements nil = []
elements (item j rest) = j ∷ elements rest

unfoldable pub items_of : List Json → Items
items_of [] = nil
items_of (j ∷ js) = item j (items_of js)

pub elements-items_of : (js : List Json) → elements (items_of js) ≡ js
unfolding elements items_of
elements-items_of [] = refl
elements-items_of (j ∷ js) = ap (λ rest. j ∷ rest) (elements-items_of js)

-- `data.get(key)`
unfoldable pub get_field : Text → Fields → Option Json
unfolding text_eqb
get_field key end = none
get_field key (field k j rest) =
    let later = get_field key rest in if text_eqb k key then some j else later

-- `data.get(key, default)`
unfoldable pub get_or : Json → Text → Fields → Json
unfolding get_field
get_or default key fields = elim (get_field key fields) [ none ↦ default | some j ↦ j ]

-- `if data`
unfoldable pub is_truthy : Json → Bool
is_truthy null = false
is_truthy (boolean b) = b
is_truthy (number n) = not (n == 0)
is_truthy (string []) = false
is_truthy (string (c ∷ s)) = true
is_truthy (array nil) = false
is_truthy (array (item j rest)) = true
is_truthy (object end) = false
is_truthy (object (field k j rest)) = true
