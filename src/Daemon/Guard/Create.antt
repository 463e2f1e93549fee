-- ===== src/Daemon/Guard/Create.antt =====
-- `provision_successor` creates a stack only where it may.
use cloud_glider.Prelude.{
  ◌≡◌, refl, ◌∙◌, ap, sym, subst, arith, String, Bool, true, false, Option, none, some, List, ◌∷◌,
}
use cloud_glider.Prelude.Int.{ℤ}
use cloud_glider.Python.Result.{Result, ok, err}
use cloud_glider.Python.Exec.{Exec, ◌>>=◌}
use cloud_glider.Python.Value.{Value, Record, truth, item, get}
use cloud_glider.Python.Items.{item-ok}
use cloud_glider.Daemon.Control.{validated_control}
use cloud_glider.Daemon.Gateway.{Stack, Specification}
use cloud_glider.Daemon.Session.{Event, control_read, Session, Daemon}
use cloud_glider.Daemon.Specification.{stack_specification}
use cloud_glider.Daemon.Provision.{
  fresh_enabled_control, read_control_and_hold, provision_successor,
}
use cloud_glider.Python.Hoare.{
  Ends, Triple, Triple-pure, Triple-lift, Triple-gets, Triple-raise_if, Triple-bind,
}
use cloud_glider.Daemon.Provision.{
  enabled_control, if_enabled, unless_stopped, create_checked, create_successor, continue_with,
}
use cloud_glider.Daemon.Control.Approved.{validated_control-IsApproved}
use cloud_glider.Daemon.Trace.{Extends, Extends-lift, Extends-gets, Extends-call}
use cloud_glider.Daemon.Quiet.{IsQuiet, describe_stack-IsQuiet, reuse_successor-IsQuiet}
use cloud_glider.Daemon.Guard.{JustPermitted, IsWorking, HasLease, Extends-HasLease, anyway}
use cloud_glider.Daemon.Calls.{Triple-call}

module _ {W : Type 0} (d : Daemon W) where
  open d use {config, gateway}

  abbrev pub IsPermitted : Record → Session W → Type 0
  IsPermitted control s = IsWorking d s × JustPermitted d control s.trace

  enabled_control-ok :
      (control : Record) (hold : Bool) (c : Record)
      → enabled_control d (control, hold) ≡ ok c
      → (hold ≡ false)
        × (validated_control config control ≡ ok c)
        × (truth (get "propagation_enabled" c) ≡ true)
  unfolding enabled_control
  enabled_control-ok control hold c h = go (validated_control config control) refl h
    where
      check :
          (v : Record) (r : Result Value)
          → item v "propagation_enabled" ≡ r
          → unless_stopped hold v r ≡ ok c
          → (hold ≡ false) × (v ≡ c) × (truth (get "propagation_enabled" c) ≡ true)
      check v (ok switch) found e = ground (arith, item-ok "propagation_enabled" v found)
      check v (err f) found e = cc

      go :
          (r : Result Record)
          → validated_control config control ≡ r
          → if_enabled hold r ≡ ok c
          → (hold ≡ false)
            × (validated_control config control ≡ ok c)
            × (truth (get "propagation_enabled" c) ≡ true)
      go (ok v) valid e =
          let (a, b, t) = check v (item v "propagation_enabled") refl e in (a, valid ∙ ap ok b, t)
      go (err f) valid e = cc

  pub fresh_enabled_control-IsPermitted :
      Triple (IsWorking d) (fresh_enabled_control d) IsPermitted (IsWorking d)
  unfolding fresh_enabled_control read_control_and_hold
  fresh_enabled_control-IsPermitted =
      Triple-bind
        (λ reading s.
          IsWorking d s × ((older : List Event) × (s.trace ≡ control_read (ok reading) ∷ older)))
        _ _ (Triple-call _ _ recorded)
        λ reading.
          Triple-lift _
            (λ a e s p.
              (p.0, permitted reading a s p.1 (enabled_control-ok reading.0 reading.1 a e)))
            (λ s p. p.0)
    where
      recorded :
          (s : Session W)
          → IsWorking d s
          → (r : Result (Record × Bool)) (w : W)
          → Ends
              (λ reading s.
                IsWorking d s
                × ((older : List Event) × (s.trace ≡ control_read (ok reading) ∷ older)))
              (IsWorking d)
              r
              (record s { world = w; trace = control_read r ∷ s.trace })
      recorded s p (ok reading) w = (((tt, p.0), p.1), (s.trace, refl))
      recorded s p (err e) w = ((tt, p.0), p.1)

      permitted :
          (reading : Record × Bool) (a : Record) (s : Session W)
          → ((older : List Event) × (s.trace ≡ control_read (ok reading) ∷ older))
          → (reading.1 ≡ false)
            × (validated_control config reading.0 ≡ ok a)
            × (truth (get "propagation_enabled" a) ≡ true)
          → JustPermitted d a s.trace
      permitted reading a s (older, read) (free, valid, on) =
          let own = (validated_control-IsApproved config reading.0 valid).0 in
          record {
            older = older;
            read = read ∙ (λ i. control_read (ok (sym own i, free i)) ∷ older);
            valid = subst (λ x. validated_control config x ≡ ok a) (sym own) valid;
            enabled = on;
          }

  create_checked-IsWorking :
      (control : Record) (generation : ℤ) (token : String)
      → Triple
          (IsWorking d)
          (create_checked d control generation token)
          (λ a. IsWorking d)
          (IsWorking d)
  unfolding create_checked
  create_checked-IsWorking control generation token =
      Triple-bind IsPermitted _ _ fresh_enabled_control-IsPermitted λ fresh.
        Triple-bind (λ changed. IsPermitted fresh) _ _ (Triple-lift _ (λ a e s p. p) (λ s p. p.0))
          λ changed.
            Triple-bind (λ u. IsPermitted fresh) _ _
              (Triple-raise_if changed _ (λ e s p. p) (λ s p. p.0))
              λ u.
                Triple-bind (λ own. IsPermitted fresh) _ _ (Triple-gets _ (λ s p. p))
                  λ own.
                    Triple-bind
                      (λ specification s.
                        IsPermitted fresh s
                        × (stack_specification d own fresh generation config.stack_id token
                            ≡ ok specification))
                      _ _ (Triple-lift _ (λ a e s p. (p, e)) (λ s p. p.0))
                      λ specification.
                        Triple-bind (λ id. IsWorking d) _ _
                          (Triple-call _ _ λ s p r w. anyway (IsWorking d) r _ (
                            (
                              (
                                p.0.0.1,
                                record {
                                  control = fresh;
                                  permission = p.0.1;
                                  own = own;
                                  generation = generation;
                                  token = token;
                                  computed = p.1;
                                },
                              ),
                              p.0.0.0,
                            ),
                            p.0.0.1,
                          ))
                          λ id. Triple-pure _ (λ s p. p)

  -- A quiet step in front of the rest.
  pub after_quiet :
      {A B : Type 0} {held : Bool} {Q : B → Session W → Type 0} (m : Exec (Session W) A)
      (f : A → Exec (Session W) B)
      → Extends IsQuiet m
      → ((a : A) → Triple (HasLease d held) (f a) Q (HasLease d held))
      → Triple (HasLease d held) (m >>= f) Q (HasLease d held)
  after_quiet {held} m f quiet rest =
      Triple-bind (λ a. HasLease d held) m f (Extends-HasLease d held m quiet) rest

  create_successor-IsWorking :
      (control : Record) (generation : ℤ) (token : String)
      → Triple
          (IsWorking d)
          (create_successor d control generation token)
          (λ a. IsWorking d)
          (IsWorking d)
  unfolding create_successor
  create_successor-IsWorking control generation token =
      after_quiet _ _ (Extends-call _ _ (λ r. tt)) λ u. after_quiet _ _ (Extends-lift _) λ ceiling.
        after_quiet _ _ (Extends-lift _) λ limit.
          after_quiet _ _ (Extends-call _ _ (λ r. tt))
            λ v. create_checked-IsWorking control generation token

  continue_with-IsWorking :
      (control : Record) (generation : ℤ) (token : String) (specification : Specification)
      (existing : Option Stack)
      → Triple
          (IsWorking d)
          (continue_with d control generation token specification existing)
          (λ a. IsWorking d)
          (IsWorking d)
  unfolding continue_with
  continue_with-IsWorking control generation token specification none =
      create_successor-IsWorking control generation token
  continue_with-IsWorking control generation token specification (some existing) =
      after_quiet _ _ (reuse_successor-IsQuiet d specification existing)
        λ id. Triple-pure _ (λ s p. p)

  pub provision_successor-IsWorking :
      (control : Record)
      → Triple (IsWorking d) (provision_successor d control) (λ a. IsWorking d) (IsWorking d)
  unfolding provision_successor
  provision_successor-IsWorking control = after_quiet _ _ (Extends-lift _) λ number.
      after_quiet _ _ (Extends-lift _) λ digest. after_quiet _ _ (Extends-lift _) λ sha256.
        after_quiet _ _ (Extends-gets _) λ own. after_quiet _ _ (Extends-lift _) λ specification.
          after_quiet _ _ (describe_stack-IsQuiet d _)
            λ existing. continue_with-IsWorking control _ _ specification existing
