-- ===== src/Daemon/Lineage.antt =====
-- The number of a generation, through `_stack_specification` and the configuration of its successor.
use cloud_glider.Prelude.{ℕ, String, true, ◌≡◌, refl, ◌<◌, Option, arith}
use cloud_glider.Prelude.Int.{pos}
use cloud_glider.Python.Text.{matches_generation, format_06d, format_06d_int}
use cloud_glider.Python.Text.Decimal.{int_of_text-format_06d, format_06d-matches_generation}
use cloud_glider.Python.Result.{ok}
use cloud_glider.Python.Value.{Record}
use cloud_glider.Daemon.Config.{DaemonConfig, generation_number}
use cloud_glider.Daemon.Gateway.{Stack, Specification}
use cloud_glider.Daemon.Session.{Daemon}
use cloud_glider.Daemon.Specification.{stack_specification}

module _ {W : Type 0} (d : Daemon W) where
  open d use {config}

  stack_specification-generation :
      (own : Option Stack) (control : Record) (n : ℕ) (predecessor token : String)
      (s : Specification)
      → stack_specification d own control (pos n) predecessor token ≡ ok s
      → s.generation ≡ format_06d n
  unfolding stack_specification format_06d_int
  stack_specification-generation own control n predecessor token s h = ground arith

  -- If the successor's number has six digits or fewer, the generation that `_stack_specification` asks
  -- for is accepted by the pattern that the successor's configuration must match, and the successor's
  -- `generation_number` reads that same number from it.
  pub successor-generation_number :
      (own : Option Stack) (control : Record) (n : ℕ) (predecessor token : String)
      (s : Specification) (successor : DaemonConfig)
      → n < 1000000
      → stack_specification d own control (pos n) predecessor token ≡ ok s
      → successor.generation ≡ s.generation
      → (matches_generation successor.generation ≡ true)
        × (generation_number successor ≡ ok (pos n))
  unfolding generation_number
  successor-generation_number own control n predecessor token s successor small made same =
      let written = stack_specification-generation own control n predecessor token s made in
      (
        rw (same, written) (format_06d-matches_generation n small),
        rw (same, written, int_of_text-format_06d n) refl,
      )
