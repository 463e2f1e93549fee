-- ===== src/Family/Inherited/Valid.antt =====
-- What a configuration that `validate` of inherited.py accepts has: a place in its tree, and timings that
-- fit each other.
use cloud_glider.Prelude.{
  ℕ, suc, ◌≡◌, refl, ◌∙◌, ap, sym, subst, arith, String, true, not, Option, none, some,
}
use cloud_glider.Prelude.Int.{ℤ, pos, ◌≤ℤ◌, ◌-ℤ◌}
use cloud_glider.Python.Text.{text_length, matches_node_path, int_of_text}
use cloud_glider.Python.Result.{ok, raise_if, or_raise, ◌>>=◌, ◌>>◌, then_ok}
use cloud_glider.Python.Value.{Record, value_eq, str}
use cloud_glider.Family.Config.{Envelope, Ec2DaemonConfig}
use cloud_glider.Family.Inherited.{
  check_settings, check_lineage, check_ranges, check_numbers, numeric_settings, whole_item,
  validate, depth, invalid,
}
use cloud_glider.Family.Inherited.Tree.{IsNode}

module _ (c : Ec2DaemonConfig) (settings : Record) where
  settings-ranges : {s : Record} → check_settings c settings ≡ ok s → check_ranges settings ≡ ok tt
  unfolding check_settings
  settings-ranges h = ground arith

  settings-lineage :
      {s : Record} → check_settings c settings ≡ ok s → check_lineage c settings ≡ ok tt
  unfolding check_settings
  settings-lineage h = ground arith

  settings-numbers :
      {s : Record}
      → check_settings c settings ≡ ok s
      → check_numbers settings numeric_settings ≡ ok tt
  unfolding check_settings
  settings-numbers h = ground arith

  settings-limit :
      {s : Record} {limit : ℤ}
      → check_settings c settings ≡ ok s
      → whole_item settings "max_generation" ≡ ok limit
      → depth c.node_path ≤ℤ limit
  unfolding check_settings
  settings-limit h e = ground arith

  settings-same : {s : Record} → check_settings c settings ≡ ok s → s ≡ settings
  unfolding check_settings
  settings-same h = ground arith

  lineage-pattern : check_lineage c settings ≡ ok tt → matches_node_path c.node_path ≡ true
  unfolding check_lineage
  lineage-pattern h = ground arith

  lineage-generation :
      check_lineage c settings ≡ ok tt → int_of_text c.generation ≡ some (depth c.node_path)
  unfolding check_lineage
  lineage-generation h = ground arith

  ranges-limit :
      {limit : ℤ}
      → check_ranges settings ≡ ok tt
      → whole_item settings "max_generation" ≡ ok limit
      → limit ≤ℤ pos 9
  unfolding check_ranges
  ranges-limit h e = ground arith

  ranges-backoff :
      {backoff poll : ℤ}
      → check_ranges settings ≡ ok tt
      → whole_item settings "retry_backoff_max_seconds" ≡ ok backoff
      → whole_item settings "readiness_poll_seconds" ≡ ok poll
      → poll ≤ℤ backoff
  unfolding check_ranges
  ranges-backoff h e f = ground arith

  numbers-poll :
      {poll : ℤ}
      → check_numbers settings numeric_settings ≡ ok tt
      → whole_item settings "readiness_poll_seconds" ≡ ok poll
      → pos 1 ≤ℤ poll
  unfolding check_numbers
  numbers-poll h e = ground arith

  pub settings-IsTimed :
      {poll backoff : ℤ}
      → check_settings c settings ≡ ok settings
      → whole_item settings "readiness_poll_seconds" ≡ ok poll
      → whole_item settings "retry_backoff_max_seconds" ≡ ok backoff
      → (pos 1 ≤ℤ poll) × (poll ≤ℤ backoff)
  settings-IsTimed h e f =
      (numbers-poll (settings-numbers h) e, ranges-backoff (settings-ranges h) f e)

-- A node path is a letter and a digit for each generation.
node_level :
    (path : String) → matches_node_path path ≡ true → (level : ℕ) × (text_length path ≡ suc level)
unfolding matches_node_path text_length
node_level String.[] h = cc
node_level (String.◌∷◌ d s) h = (text_length s, refl)

length-depth : (path : String) (level : ℕ) → text_length path ≡ suc level → depth path ≡ pos level
unfolding text_length ◌-ℤ◌
length-depth path level h = rw h (ground arith)

module _ (digest : Record → String) where
  pub validate-settings :
      (c : Ec2DaemonConfig) {settings : Record}
      → validate digest c ≡ ok settings
      → check_settings c settings ≡ ok settings
  unfolding validate
  validate-settings c {settings} h = inside c.inherited_configuration h
    where
      checked :
          (s : Record) → check_settings c s ≡ ok settings → check_settings c settings ≡ ok settings
      checked s e = subst (λ x. check_settings c x ≡ ok settings) (sym (settings-same c s e)) e

      inside :
          (e : Option Envelope)
          → (or_raise e invalid >>= λ envelope.
              raise_if (not (value_eq (str (digest envelope.settings)) envelope.sha256)) invalid
              >> check_settings c envelope.settings)
            ≡ ok settings
          → check_settings c settings ≡ ok settings
      inside none k = cc
      inside (some envelope) k = checked envelope.settings (then_ok _ _ k).1

  -- A configuration that `validate` accepts has a place in its tree: its depth limit is 9 or less, its node
  -- path matches the pattern and is no deeper than the limit, and its generation is the depth of its path.
  pub validate-IsNode :
      (c : Ec2DaemonConfig) (settings : Record) (limit : ℤ)
      → validate digest c ≡ ok settings
      → whole_item settings "max_generation" ≡ ok limit
      → (level : ℕ) × (limit ≤ℤ pos 9)
        × IsNode limit level c.node_path
        × (int_of_text c.generation ≡ some (pos level))
  validate-IsNode c settings limit h e =
      let checked = validate-settings c h in
      let placed = settings-lineage c settings checked in
      let (level, long) = node_level c.node_path (lineage-pattern c settings placed) in
      let level_is = length-depth c.node_path level long in
      (
        level,
        ranges-limit c settings (settings-ranges c settings checked) e,
        record {
          pattern = lineage-pattern c settings placed;
          long = long;
          within = subst (λ z. z ≤ℤ limit) level_is (settings-limit c settings checked e);
        },
        lineage-generation c settings placed ∙ ap some level_is,
      )
