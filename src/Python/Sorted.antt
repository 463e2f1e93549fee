-- ===== src/Python/Sorted.antt =====
-- `sorted` of texts and of a dict's items: by code points, which are the keys' order as all differ.
use cloud_glider.Prelude.{String, code, Bool, true, false, [], ◌∷◌, ltb, if◌then◌else◌}
use cloud_glider.Python.Dict.{Dict}

-- `s <= t`.
unfoldable pub text_leb : (s t : String) → Bool
text_leb String.[] t = true
text_leb (String.◌∷◌ c s) String.[] = false
text_leb (String.◌∷◌ c s) (String.◌∷◌ d t) =
    let rest = text_leb s t in
    if ltb (code c) (code d) then true else if ltb (code d) (code c) then false else rest

module _ {ℓ} {V : Type ℓ} where
  unfoldable pub insert_item : String → V → Dict V → Dict V
  unfolding text_leb
  insert_item k v [] = (k, v) ∷ []
  insert_item k v ((j, w) ∷ d) =
      if text_leb k j then (k, v) ∷ (j, w) ∷ d else (j, w) ∷ insert_item k v d

  -- `sorted(d.items())`.
  unfoldable pub sorted_items : Dict V → Dict V
  unfolding insert_item
  sorted_items [] = []
  sorted_items ((k, v) ∷ d) = insert_item k v (sorted_items d)
