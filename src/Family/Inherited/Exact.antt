-- ===== src/Family/Inherited/Exact.antt =====
-- The tree of node paths that `child_paths` of inherited.py spans has no path twice, and each generation
-- down to the limit is full.
use cloud_glider.Prelude.{
  ℕ, zero, suc, ◌+◌, ◌*◌, ◌^◌, code, String, true, false, Char, ◌≡◌, ◌≢◌, refl, subst, ap, arith,
  List, [], ◌∷◌, if◌then◌else◌, Bool-cases, inl, inr,
}
use cloud_glider.Prelude.Lists.{length, All, All-append}
use cloud_glider.Prelude.Int.{ℤ, pos, ◌≤ℤ◌, leb_ℤ}
use cloud_glider.Python.Text.{text_length}
use cloud_glider.Family.Inherited.{snoc, child_paths, depth}
use cloud_glider.Family.Inherited.Tree.{
  IsNode, text_length-snoc, depth-level, children_of, descendants, descendants-IsNode,
}

-- No path stands twice.
abbrev pub IsDistinct : List String → Type 0
IsDistinct [] = Unit
IsDistinct (x ∷ xs) = All (λ y. x ≢ y) xs × IsDistinct xs

text_length-inj : (s t : String) → s ≡ t → text_length s ≡ text_length t
text_length-inj s t h = rw h refl

cons-inj : (a b : Char) (s t : String) → String.◌∷◌ a s ≡ String.◌∷◌ b t → (a ≡ b) × (s ≡ t)
cons-inj a b s t h = (cc, cc)

snoc-inj : (s t : String) (c d : Char) → snoc s c ≡ snoc t d → (s ≡ t) × (c ≡ d)
unfolding snoc text_length
snoc-inj String.[] String.[] c d h = (refl, (cons-inj c d _ _ h).0)
snoc-inj String.[] (String.◌∷◌ b t) c d h =
    absurd (omega (arith, text_length-inj _ _ h, text_length-snoc t d))
snoc-inj (String.◌∷◌ a s) String.[] c d h =
    absurd (omega (arith, text_length-inj _ _ h, text_length-snoc s c))
snoc-inj (String.◌∷◌ a s) (String.◌∷◌ b t) c d h =
    let (same, rest) = cons-inj a b (snoc s c) (snoc t d) h in
    let (texts, ends) = snoc-inj s t c d rest in (rw (same, texts) refl, ends)

digits_differ : ◌≢◌ {A = Char} "0" "1"
digits_differ e = omega (arith, ap code e)

module _ (limit : ℤ) where
  -- What holds of each child of a node.
  spread :
      (P : String → Type 0) (path : String)
      → ((c : Char) → P (snoc path c))
      → All P (child_paths path limit true)
  unfolding child_paths
  spread P path h = elim (Bool-cases (leb_ℤ limit (depth path))) [
    | inl e ↦ rw e tt
    | inr e ↦ rw e (h "0", (h "1", tt))
  ]

  -- A child of one node is no child of other nodes.
  differs_from :
      (path : String) (c : Char) (paths : List String)
      → All (λ y. path ≢ y) paths
      → All (λ y. snoc path c ≢ y) (children_of limit true paths)
  unfolding children_of
  differs_from path c [] h = tt
  differs_from path c (other ∷ paths) h =
      All-append (λ y. snoc path c ≢ y) (child_paths other limit true)
        (children_of limit true paths)
        (spread (λ y. snoc path c ≢ y) other λ d e. h.0 (snoc-inj path other c d e).0)
        (differs_from path c paths h.1)

  children_of-IsDistinct :
      (paths : List String) → IsDistinct paths → IsDistinct (children_of limit true paths)
  unfolding children_of child_paths
  children_of-IsDistinct [] h = tt
  children_of-IsDistinct (path ∷ paths) h = elim (Bool-cases (leb_ℤ limit (depth path))) [
    | inl e ↦ rw e (children_of-IsDistinct paths h.1)
    | inr e ↦ rw e (
      (zero_one, differs_from path "0" paths h.0),
      (differs_from path "1" paths h.0, children_of-IsDistinct paths h.1),
    )
  ]
    where
      zero_one : snoc path "0" ≢ snoc path "1"
      zero_one e = digits_differ (snoc-inj path path "0" "1" e).1

  descendants-IsDistinct : (path : String) (n : ℕ) → IsDistinct (descendants limit true path n)
  unfolding descendants
  descendants-IsDistinct path zero = (tt, tt)
  descendants-IsDistinct path (suc n) =
      children_of-IsDistinct (descendants limit true path n) (descendants-IsDistinct path n)

  -- Above the limit each node has two children, and at the limit none.
  length-children_of :
      (level : ℕ) (paths : List String)
      → All (IsNode limit level) paths
      → length (children_of limit true paths)
        ≡ (if leb_ℤ (pos (suc level)) limit then 2 * length paths else 0)
  unfolding children_of child_paths
  length-children_of level [] h = ground arith
  length-children_of level (path ∷ paths) h = elim (Bool-cases (leb_ℤ limit (depth path))) [
    | inl e ↦ rw e (at_limit e (length-children_of level paths h.1))
    | inr e ↦ rw e (below e (length-children_of level paths h.1))
  ]
    where
      Rest : Type 0
      Rest =
          length (children_of limit true paths)
          ≡ (if leb_ℤ (pos (suc level)) limit then 2 * length paths else 0)

      at_limit :
          leb_ℤ limit (depth path) ≡ true
          → Rest
          → length (children_of limit true paths)
            ≡ (if leb_ℤ (pos (suc level)) limit then 2 * length (path ∷ paths) else 0)
      at_limit e rest =
          ground
            (arith, rest, subst (λ k. leb_ℤ limit k ≡ true) (depth-level path level h.0.long) e)

      below :
          leb_ℤ limit (depth path) ≡ false
          → Rest
          → suc (suc (length (children_of limit true paths)))
            ≡ (if leb_ℤ (pos (suc level)) limit then 2 * length (path ∷ paths) else 0)
      below e rest =
          ground
            (arith, rest, subst (λ k. leb_ℤ limit k ≡ false) (depth-level path level h.0.long) e)

  -- With two children to a node and a depth limit of 9 or less, the nodes that are `n` generations after a node
  -- of the tree all differ, and there are exactly 2 ^ n of them, or none below the limit.
  pub descendants-full :
      (level : ℕ) (path : String) (n : ℕ)
      → limit ≤ℤ pos 9
      → IsNode limit level path
      → IsDistinct (descendants limit true path n)
        × (length (descendants limit true path n)
            ≡ (if leb_ℤ (pos (n + level)) limit then 2 ^ n else 0))
  unfolding descendants
  descendants-full level path n nine node = (descendants-IsDistinct path n, count n)
    where
      double : (k : ℕ) → 2 * 2 ^ k ≡ 2 ^ suc k
      double k = omega arith

      count :
          (n : ℕ)
          → length (descendants limit true path n)
            ≡ (if leb_ℤ (pos (n + level)) limit then 2 ^ n else 0)
      count zero = ground (arith, node.within)
      count (suc n) = ground (
        arith,
        count n,
        double n,
        length-children_of (n + level) (descendants limit true path n)
            (descendants-IsNode limit true level path n nine node).0,
      )
