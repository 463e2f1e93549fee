-- ===== src/Family/Inherited/Tree.antt =====
-- The tree of node paths that `child_paths` of inherited.py spans.
use cloud_glider.Prelude.{
  ℕ, suc, ◌+◌, ◌≤◌, String, Bool, true, false, ◌≡◌, refl, arith, Char, code, ap, subst, ◌∙◌, List,
  [], ◌∷◌, ◌++◌, if◌then◌else◌, Bool-cases, inl, inr, zero, ◌*◌, ◌^◌,
}
use cloud_glider.Prelude.Lists.{length, All, All-append}
use cloud_glider.Prelude.Int.{ℤ, pos, ◌≤ℤ◌, ◌-ℤ◌, leb_ℤ}
use cloud_glider.Python.Text.{is_bit, text_length, all_codes, matches_node_path}
use cloud_glider.Family.Inherited.{snoc, child_paths, depth}

pub text_length-snoc : (s : String) (c : Char) → text_length (snoc s c) ≡ suc (text_length s)
unfolding text_length snoc
text_length-snoc String.[] c = refl
text_length-snoc (String.◌∷◌ d s) c = rw (text_length-snoc s c) refl

all_codes-snoc :
    (p : ℕ → Bool) (s : String) (c : Char)
    → p (code c) ≡ true
    → all_codes p s ≡ true
    → all_codes p (snoc s c) ≡ true
unfolding all_codes snoc
all_codes-snoc p String.[] c h k = rw h refl
all_codes-snoc p (String.◌∷◌ d s) c h k = ground (arith, all_codes-snoc p s c h)

-- A node path that may stand in the tree, at this depth: it matches the pattern, and is no deeper than
-- the limit.
pub record IsNode (limit : ℤ) (level : ℕ) (path : String) : Type 0 where
  pub pattern : matches_node_path path ≡ true
  pub long : text_length path ≡ suc level
  pub within : pos level ≤ℤ limit

-- A node of the tree that has children stays within the pattern.
pattern-snoc :
    (path : String) (c : Char)
    → is_bit (code c) ≡ true
    → text_length path ≤ 9
    → matches_node_path path ≡ true
    → matches_node_path (snoc path c) ≡ true
unfolding matches_node_path snoc text_length
pattern-snoc String.[] c b short h = cc
pattern-snoc (String.◌∷◌ d s) c b short h =
    ground (arith, text_length-snoc s c, all_codes-snoc is_bit s c b)

pub depth-level :
    (path : String) (level : ℕ) → text_length path ≡ suc level → depth path ≡ pos level
unfolding text_length ◌-ℤ◌
depth-level path level h = rw h (ground arith)

child-IsNode :
    (limit : ℤ) (level : ℕ) (path : String) (c : Char)
    → limit ≤ℤ pos 9
    → is_bit (code c) ≡ true
    → IsNode limit level path
    → leb_ℤ limit (depth path) ≡ false
    → IsNode limit (suc level) (snoc path c)
child-IsNode limit level path c nine b node below = record {
  pattern = pattern-snoc path c b (omega (arith, node.long, under)) node.pattern;
  long = text_length-snoc path c ∙ ap suc node.long;
  within = under;
}
  where
    under : pos (suc level) ≤ℤ limit
    under =
        ground (arith, subst (λ k. leb_ℤ limit k ≡ false) (depth-level path level node.long) below)

module _ (limit : ℤ) (fanout : Bool) where
  child_paths-All :
      (level : ℕ) (path : String)
      → limit ≤ℤ pos 9
      → IsNode limit level path
      → All (IsNode limit (suc level)) (child_paths path limit fanout)
  unfolding child_paths
  child_paths-All level path nine node = elim (Bool-cases (leb_ℤ limit (depth path))) [
    | inl e ↦ rw e tt
    | inr e ↦ rw e (both fanout e)
  ]
    where
      both :
          (b : Bool)
          → leb_ℤ limit (depth path) ≡ false
          → All
              (IsNode limit (suc level))
              (if b then snoc path "0" ∷ snoc path "1" ∷ [] else snoc path "0" ∷ [])
      both true e = (
        child-IsNode limit level path "0" nine refl node e,
        (child-IsNode limit level path "1" nine refl node e, tt),
      )
      both false e = (child-IsNode limit level path "0" nine refl node e, tt)

  -- The children of each of the nodes.
  unfoldable pub children_of : List String → List String
  children_of [] = []
  children_of (path ∷ paths) = child_paths path limit fanout ++ children_of paths

  -- The nodes that are so many generations after the given one.
  unfoldable pub descendants : String → ℕ → List String
  descendants path zero = path ∷ []
  descendants path (suc n) = children_of (descendants path n)

  children_of-All :
      (level : ℕ) (paths : List String)
      → limit ≤ℤ pos 9
      → All (IsNode limit level) paths
      → All (IsNode limit (suc level)) (children_of paths)
  unfolding children_of
  children_of-All level [] nine h = tt
  children_of-All level (path ∷ paths) nine h =
      All-append (IsNode limit (suc level)) (child_paths path limit fanout) (children_of paths)
        (child_paths-All level path nine h.0) (children_of-All level paths nine h.1)

  length-append : (xs ys : List String) → length (xs ++ ys) ≡ length xs + length ys
  length-append [] ys = omega arith
  length-append (x ∷ xs) ys = omega (arith, length-append xs ys)

  length-child_paths : (path : String) → length (child_paths path limit fanout) ≤ 2
  unfolding child_paths
  length-child_paths path = ground arith

  length-children_of : (paths : List String) → length (children_of paths) ≤ 2 * length paths
  unfolding children_of
  length-children_of [] = omega arith
  length-children_of (path ∷ paths) = omega (
    arith,
    length-append (child_paths path limit fanout) (children_of paths),
    length-child_paths path,
    length-children_of paths,
  )

  length-descendants : (path : String) (n : ℕ) → length (descendants path n) ≤ 2 ^ n
  unfolding descendants
  length-descendants path zero = omega arith
  length-descendants path (suc n) =
      omega (arith, length-children_of (descendants path n), length-descendants path n)

  -- If the depth limit is 9 or less and a node stands in the tree, then each node that is `n`
  -- generations after it matches the pattern of node paths, is `n` characters longer, and is no deeper
  -- than the limit; there are at most 2 ^ n of them.
  pub descendants-IsNode :
      (level : ℕ) (path : String) (n : ℕ)
      → limit ≤ℤ pos 9
      → IsNode limit level path
      → All (IsNode limit (n + level)) (descendants path n) × (length (descendants path n) ≤ 2 ^ n)
  unfolding descendants
  descendants-IsNode level path n nine node = (each n, length-descendants path n)
    where
      before : (a : ℕ) → a ≡ 0 + a
      before a = omega arith

      after : (a b : ℕ) → suc (a + b) ≡ suc a + b
      after a b = omega arith

      each : (n : ℕ) → All (IsNode limit (n + level)) (descendants path n)
      each zero = subst (λ k. All (IsNode limit k) (descendants path 0)) (before level) (node, tt)
      each (suc n) =
          subst (λ k. All (IsNode limit k) (descendants path (suc n))) (after n level)
            (children_of-All (n + level) (descendants path n) nine (each n))
