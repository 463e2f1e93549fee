-- ===== src/Ec2/Guard/Reads.antt =====
-- What `is_current_owner` and `_fresh_enabled_control` establish of the trace when they let a method go on.
use cloud_glider.Prelude.{◌≡◌, refl, ◌∙◌, sym, subst, arith, String, Bool, true, false, List, ◌∷◌}
use cloud_glider.Python.Result.{Result, ok, err}
use cloud_glider.Python.Value.{Value, Record, truth, item, get}
use cloud_glider.Python.Items.{item-ok}
use cloud_glider.Python.Hoare.{Ends, Triple, Triple-pure, Triple-lift, Triple-raise_if, Triple-bind}
use cloud_glider.Ec2.Control.{validated_control}
use cloud_glider.Ec2.Control.Approved.{IsApproved, validated_control_sound}
use cloud_glider.Ec2.Session.{Ec2Daemon, Session, Event, control_read, current_read}
use cloud_glider.Ec2.Specification.{identity_differs}
use cloud_glider.Ec2.Ownership.{
  unless_stopped, if_enabled, read_current, require_owner, read_control_and_hold, enabled_control,
  fresh_enabled_control, unchanged_control,
}
use cloud_glider.Ec2.Guard.{PermittedBy, JustOwned, Anything, Guarded, Triple-call}

module _ {W : Type 0} (d : Ec2Daemon W) (control current : Record) where
  open d use {config, gateway}

  enabled_control-ok :
      (read : Record) (hold : Bool) (c : Record)
      → enabled_control d (read, hold) ≡ ok c
      → (hold ≡ false)
        × (c ≡ read)
        × IsApproved config gateway.place read
        × (truth (get "propagation_enabled" c) ≡ true)
  unfolding enabled_control
  enabled_control-ok read hold c h = go (validated_control config gateway.place read) refl h
    where
      check :
          (v : Record) (r : Result Value)
          → item v "propagation_enabled" ≡ r
          → unless_stopped hold v r ≡ ok c
          → (hold ≡ false) × (c ≡ v) × (truth (get "propagation_enabled" c) ≡ true)
      check v (ok switch) found e = ground (arith, item-ok "propagation_enabled" v found)
      check v (err f) found e = cc

      go :
          (r : Result Record)
          → validated_control config gateway.place read ≡ r
          → if_enabled hold r ≡ ok c
          → (hold ≡ false)
            × (c ≡ read)
            × IsApproved config gateway.place read
            × (truth (get "propagation_enabled" c) ≡ true)
      go (ok v) valid e =
          let (free, same, on) = check v (item v "propagation_enabled") refl e in
          let (own, approved) = validated_control_sound config gateway.place read v valid in
          (free, same ∙ own, approved, on)
      go (err f) valid e = cc

  -- The trace is guarded, and its last event is a read of a control record that `c` is and that
  -- permits, with `R` before it.
  record Permits (c : Record) (R : List Event → Type 0) (past : List Event) : Type 0 where
    older : List Event
    read : past ≡ control_read (ok (c, false)) ∷ older
    approved : IsApproved config gateway.place c
    enabled : truth (get "propagation_enabled" c) ≡ true
    before : R older

  module _ (R : List Event → Type 0) where
    abbrev HasRead : Record × Bool → Session W → Type 0
    HasRead reading s =
        Guarded d control current Anything s
        × ((older : List Event) × (s.trace ≡ control_read (ok reading) ∷ older) × R older)

    abbrev IsPermitted : Record → Session W → Type 0
    IsPermitted c = Guarded d control current (Permits c R)

    fresh_enabled_control-IsPermitted :
        Triple
          (Guarded d control current R)
          (fresh_enabled_control d)
          IsPermitted
          (Guarded d control current Anything)
    unfolding fresh_enabled_control read_control_and_hold
    fresh_enabled_control-IsPermitted =
        Triple-bind HasRead _ _ (Triple-call d control current _ _ recorded) λ reading.
          Triple-lift _
            (λ a e s p.
              (p.0.0, permitted reading a s p.1 (enabled_control-ok reading.0 reading.1 a e)))
            (λ s p. p.0)
      where
        recorded :
            (s : Session W)
            → Guarded d control current R s
            → (r : Result (Record × Bool)) (w : W)
            → Ends HasRead
                (Guarded d control current Anything)
                r
                (record { world = w; trace = control_read r ∷ s.trace })
        recorded s p (ok reading) w = (((tt, p.0), tt), (s.trace, refl, p.1))
        recorded s p (err e) w = ((tt, p.0), tt)

        permitted :
            (reading : Record × Bool) (a : Record) (s : Session W)
            → ((older : List Event) × (s.trace ≡ control_read (ok reading) ∷ older) × R older)
            → (reading.1 ≡ false)
              × (a ≡ reading.0)
              × IsApproved config gateway.place reading.0
              × (truth (get "propagation_enabled" a) ≡ true)
            → Permits a R s.trace
        permitted reading a s (older, read, before) (free, own, approved, on) = record {
          older = older;
          read = read ∙ (λ i. control_read (ok (sym own i, free i)) ∷ older);
          approved = subst (IsApproved config gateway.place) (sym own) approved;
          enabled = on;
          before = before;
        }

    -- The control record that was read is the one acted on.
    pub unchanged_control-PermittedBy :
        (message : String)
        → Triple
            (Guarded d control current R)
            (unchanged_control d control message)
            (λ fresh. Guarded d control current (PermittedBy d control current fresh R))
            (Guarded d control current Anything)
    unfolding unchanged_control
    unchanged_control-PermittedBy message =
        Triple-bind IsPermitted _ _ fresh_enabled_control-IsPermitted λ fresh.
          Triple-bind
            (λ changed s. IsPermitted fresh s × (identity_differs fresh control ≡ ok changed)) _ _
            (Triple-lift _ (λ changed e s p. (p, e)) (λ s p. (p.0, tt)))
            λ changed.
              Triple-bind (λ u s. IsPermitted fresh s × (identity_differs fresh control ≡ ok false))
                _ _
                (Triple-raise_if changed _
                  (λ e s p. (p.0, subst (λ x. identity_differs fresh control ≡ ok x) e p.1))
                  (λ s p. (p.0.0, tt)))
                λ u. Triple-pure fresh λ s p. (
                  p.0.0,
                  record {
                    older = p.0.1.older;
                    read = p.0.1.read;
                    approved = p.0.1.approved;
                    enabled = p.0.1.enabled;
                    unchanged = p.1;
                    before = p.0.1.before;
                  },
                )

    -- The instance owns the chain by the CURRENT that was read.
    pub require_owner-JustOwned :
        (message : String)
        → Triple
            (Guarded d control current R)
            (require_owner d message)
            (λ u. Guarded d control current (JustOwned d control current R))
            (Guarded d control current Anything)
    unfolding require_owner read_current
    require_owner-JustOwned message =
        Triple-bind
          (λ owner s.
            Guarded d control current Anything s
            × ((older : List Event) × (s.trace ≡ current_read (ok owner) ∷ older) × R older))
          _ _ (Triple-call d control current _ _ recorded)
          λ owner.
            Triple-raise_if _ _
              (λ e s p. (
                p.0.0,
                record {
                  owner = owner;
                  older = p.1.0;
                  read = p.1.1;
                  owns = ground arith;
                  before = p.1.2;
                },
              ))
              (λ s p. p.0)
      where
        recorded :
            (s : Session W)
            → Guarded d control current R s
            → (r : Result Record) (w : W)
            → Ends
                (λ owner s.
                  Guarded d control current Anything s
                  × ((older : List Event) × (s.trace ≡ current_read (ok owner) ∷ older) × R older))
                (Guarded d control current Anything)
                r
                (record { world = w; trace = current_read r ∷ s.trace })
        recorded s p (ok owner) w = (((tt, p.0), tt), (s.trace, refl, p.1))
        recorded s p (err e) w = ((tt, p.0), tt)
