-- ===== src/Family/Cycle/Guard.antt =====
-- What stands before each step of `FamilyDaemon.cycle` in the trace: the monitor's last word.
pub mod Rules
pub mod Steps
pub mod Whole
use cloud_glider.Prelude.{
  String, Bool, true, false, arith, ◌||◌, ◌==◌, ◌≡◌, refl, sym, subst, Option, none, some, List, [],
  ◌∷◌, if◌then◌else◌, ◌⊎◌, inl, inr,
}
use cloud_glider.Prelude.Lists.{any}
use cloud_glider.Python.Result.{Failure, Result, ok, err}
use cloud_glider.Python.Exec.{Exec, pure, lift, gets, modify, raise_if, ◌>>=◌, ◌>>◌}
use cloud_glider.Python.Value.{Record, value_eq, get, str}
use cloud_glider.Python.Hoare.{
  Ends, Triple, Triple-pure, Triple-lift, Triple-if, Triple-raise_if, Triple-bind, Triple-pre,
  Triple-mono,
}
use cloud_glider.Family.Inherited.{NodeSpecification}
use cloud_glider.Family.Session.{
  Event, ticked, stop_file_written, node_stopped, node_read, retired, readiness_published,
  leaf_marked, parent_ready, child_launched, propagation_published, child_accepted, parent_gone,
  violated, hold_invoked, retirement_authorized, Session, FamilyDaemon, call, observe, monitor_tick,
  now_ms,
}
use cloud_glider.Family.Cycle.{
  Outcome, stopped, retiring, spec, stop_path, stop_paths, stop_children, unless_halted,
}

-- Nothing but steps of the stop came after the monitor said stop, or after a violation.
abbrev pub stopping : List Event → Bool
stopping (ticked halted ∷ past) = halted
stopping (violated code ∷ past) = true
stopping (node_stopped path result ∷ past) = stopping past
stopping (stop_file_written result ∷ past) = stopping past
stopping past = false

-- The node of that path was stopped, and its stop succeeded.
abbrev pub was_stopped : String → List Event → Bool
was_stopped path [] = false
was_stopped path (node_stopped other (ok tt) ∷ past) = other == path || was_stopped path past
was_stopped path (event ∷ past) = was_stopped path past

abbrev pub EachStopped : List String → List Event → Type 0
EachStopped [] past = Unit
EachStopped (path ∷ paths) past = (was_stopped path past ≡ true) × EachStopped paths past

-- The monitor has just said that the daemon may go on.
pub record JustGo (past : List Event) : Type 0 where
  pub older : List Event
  pub go : past ≡ ticked false ∷ older

-- The node was just read as one that is retiring.
pub record IsRetiring (past : List Event) : Type 0 where
  pub node : Record
  pub older : List Event
  pub read : past ≡ node_read (ok node) ∷ ticked false ∷ older
  pub status : value_eq (get "status" node) (str "RETIRING") ≡ true

-- The parent was seen to be gone, and then the monitor let the daemon go on.
pub record IsOrphan (past : List Event) : Type 0 where
  pub older : List Event
  pub seen : past ≡ ticked false ∷ parent_gone (ok true) ∷ older

-- The retirement was just authorized, by an orphan.
pub record IsAuthorized (past : List Event) : Type 0 where
  pub older : List Event
  pub orphan : IsOrphan older
  pub authorized : past ≡ retirement_authorized (ok true) ∷ older

module _ {W : Type 0} (d : FamilyDaemon W) where
  open d use {config}

  pub record MayLaunch (child : NodeSpecification) (past : List Event) : Type 0 where
    pub go : JustGo past
    pub path : String
    pub asked : spec d path ≡ ok child

  -- What must stand before an event.
  abbrev pub Allowed : Event → List Event → Type 0
  Allowed (child_launched child result) past = MayLaunch child past
  Allowed (node_read result) past = JustGo past
  Allowed (readiness_published result) past = JustGo past
  Allowed (propagation_published result) past = JustGo past
  Allowed (child_accepted child instance result) past = JustGo past
  Allowed (retirement_authorized result) past = IsOrphan past
  Allowed (retired result) past = IsRetiring past ⊎ IsAuthorized past
  Allowed (node_stopped path result) past = stopping past ≡ true
  Allowed (stop_file_written result) past = stopping past ≡ true
  Allowed (hold_invoked generation code result) past = generation ≡ config.generation
  Allowed event past = Unit

  abbrev pub IsGuarded : List Event → Type 0
  IsGuarded [] = Unit
  IsGuarded (event ∷ past) = Allowed event past × IsGuarded past

  -- The trace is guarded, and each path that the daemon keeps as cancelled was stopped.
  pub record IsSound (s : Session W) : Type 0 where
    pub guarded : IsGuarded s.trace
    pub cancelled :
        (path : String)
        → any (λ p. p == path) s.cancelled_paths ≡ true
        → was_stopped path s.trace ≡ true

  pub was_stopped-event :
      (path : String) (event : Event) (past : List Event)
      → was_stopped path past ≡ true
      → was_stopped path (event ∷ past) ≡ true
  was_stopped-event path (node_stopped other (ok tt)) past h = ground arith
  was_stopped-event path event past h = h

  -- An event that is allowed.
  pub event-IsSound :
      (event : Event) (s t : Session W)
      → t.trace ≡ event ∷ s.trace
      → t.cancelled_paths ≡ s.cancelled_paths
      → Allowed event s.trace
      → IsSound s
      → IsSound t
  event-IsSound event s t e c h g = record {
    guarded = subst IsGuarded (sym e) (h, g.guarded);
    cancelled = λ path k.
        subst (λ past. was_stopped path past ≡ true) (sym e)
          (was_stopped-event path event s.trace
            (g.cancelled path (subst (λ ps. any (λ p. p == path) ps ≡ true) c k)));
  }

  -- A step that leaves no event.
  pub same-IsSound :
      (s t : Session W)
      → t.trace ≡ s.trace
      → t.cancelled_paths ≡ s.cancelled_paths
      → IsSound s
      → IsSound t
  same-IsSound s t e c g = record {
    guarded = subst IsGuarded (sym e) g.guarded;
    cancelled = λ path k.
        subst (λ past. was_stopped path past ≡ true) (sym e)
          (g.cancelled path (subst (λ ps. any (λ p. p == path) ps ≡ true) c k));
  }
