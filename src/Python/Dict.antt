-- ===== src/Python/Dict.antt =====
-- A Python dict with text keys, as an association list. Equality forgets the order, as Python's does.
use cloud_glider.Prelude.{
  String, Bool, true, false, Option, none, some, List, [], ◌∷◌, ◌++◌, ◌≡◌, refl, ◌==◌, arith,
  eq_iff, if◌then◌else◌,
}
use cloud_glider.Prelude.Lists.{all}

abbrev pub Dict {ℓ} : Type ℓ → Type ℓ
Dict V = List (String × V)

module _ {ℓ} {V : Type ℓ} where
  -- `d.get(k)`, as an option.
  unfoldable pub lookup : String → Dict V → Option V
  lookup k [] = none
  lookup k ((j, v) ∷ d) = if j == k then some v else lookup k d

  -- `d[k] = v`.
  unfoldable pub insert : String → V → Dict V → Dict V
  insert k v [] = (k, v) ∷ []
  insert k v ((j, w) ∷ d) = if j == k then (j, v) ∷ d else (j, w) ∷ insert k v d

  -- `{**d, **e}`, and `d.update(e)`.
  unfoldable pub update : Dict V → Dict V → Dict V
  unfolding insert
  update d [] = d
  update d ((k, v) ∷ e) = update (insert k v d) e

  unfoldable pub keys : Dict V → List String
  keys [] = []
  keys ((k, v) ∷ d) = k ∷ keys d

  -- `k in d`.
  abbrev pub is_some : Option V → Bool
  is_some none = false
  is_some (some v) = true

  unfoldable pub has_key : Dict V → String → Bool
  unfolding lookup
  has_key d k = is_some (lookup k d)

  abbrev same_option : (V → V → Bool) → Option V → Option V → Bool
  same_option eq none none = true
  same_option eq (some a) (some b) = eq a b
  same_option eq _ _ = false

  -- `d == e`: the same keys with equal values.
  unfoldable pub dict_eq : (V → V → Bool) → Dict V → Dict V → Bool
  unfolding lookup keys
  dict_eq eq d e = all (λ k. same_option eq (lookup k d) (lookup k e)) (keys d ++ keys e)

  pub lookup-insert :
      (k j : String) (v : V) (d : Dict V)
      → lookup j (insert k v d) ≡ (if k == j then some v else lookup j d)
  unfolding lookup insert
  lookup-insert k j v [] = refl
  lookup-insert k j v ((i, w) ∷ d) =
      ground (arith, eq_iff k j, eq_iff i k, eq_iff i j, lookup-insert k j v d)
