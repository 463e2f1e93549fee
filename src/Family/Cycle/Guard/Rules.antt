-- ===== src/Family/Cycle/Guard/Rules.antt =====
-- Rules about the steps of `FamilyDaemon.cycle`: what is known of the trace before and after each.
use cloud_glider.Prelude.{
  ◌∙◌, ◌==◌, ◌||◌, arith, eq_iff, String, Bool, true, false, ◌≡◌, refl, sym, subst, List, [], ◌∷◌,
  if◌then◌else◌,
}
use cloud_glider.Python.Result.{Failure, Result, ok, err}
use cloud_glider.Python.Exec.{Exec, pure, lift, gets, modify, raise_if, ◌>>=◌}
use cloud_glider.Python.Hoare.{
  Triple-gets, Triple-if, Triple-modify, Triple-mono, Ends, Triple, Triple-pure, Triple-lift,
  Triple-raise_if, Triple-bind, Triple-pre,
}
use cloud_glider.Prelude.Lists.{any}
use cloud_glider.Family.Session.{
  node_stopped, Event, ticked, retired, Session, FamilyDaemon, call, observe, monitor_tick, now_ms,
}
use cloud_glider.Family.Cycle.{
  Outcome, stopped, retiring, stop_path, stop_paths, stop_children, unless_halted,
}
use cloud_glider.Family.Cycle.Guard.{
  stopping, was_stopped, EachStopped, Allowed, IsSound, was_stopped-event, event-IsSound,
  same-IsSound,
}

module _ {W : Type 0} (d : FamilyDaemon W) where
  pub record Step {A : Type 0} (R : List Event → Type 0) (m : Exec (Session W) A)
      (Q : A → List Event → Type 0) : Type 0 where
    pub triple :
        Triple (λ s. R s.trace × IsSound d s) m (λ a s. Q a s.trace × IsSound d s) (IsSound d)

  abbrev pub Free : List Event → Type 0
  Free past = Unit

  abbrev pub Stopping : List Event → Type 0
  Stopping past = stopping past ≡ true

  -- The own node and the children's were each stopped, and nothing but steps of a stop came after the
  -- monitor's word or a violation.
  pub record HasStopped (past : List Event) : Type 0 where
    pub last : Stopping past
    pub nodes : EachStopped (d.config.node_path ∷ d.children) past

  -- What an outcome says of the trace: a stop was carried out last, or the retirement.
  abbrev pub Ended : Outcome → List Event → Type 0
  Ended stopped past = HasStopped past
  Ended retiring past = (older : List Event) × (past ≡ retired (ok tt) ∷ older)
  Ended outcome past = Unit

  pub call-Step :
      {A : Type 0} {R : List Event → Type 0} (Q : A → List Event → Type 0)
      (event : Result A → Event) (op : Exec W A)
      → ((past : List Event) (r : Result A) → R past → Allowed d (event r) past)
      → ((past : List Event) (a : A) → R past → Q a (event (ok a) ∷ past))
      → Step R (call event op) Q
  unfolding call
  call-Step {A} {R} Q event op h k = record {
    triple = record { at = λ s p. ends (op s.world).0 (op s.world).1 s p };
  }
    where
      ends :
          (r : Result A) (w : W) (s : Session W)
          → R s.trace × IsSound d s
          → Ends
              (λ a s'. Q a s'.trace × IsSound d s')
              (IsSound d)
              r
              (record s { world = w; trace = event r ∷ s.trace })
      ends (ok a) w s p =
          (k s.trace a p.0, event-IsSound d (event (ok a)) s _ refl refl (h s.trace (ok a) p.0) p.1)
      ends (err e) w s p = event-IsSound d (event (err e)) s _ refl refl (h s.trace (err e) p.0) p.1

  pub bind-Step :
      {A B : Type 0} {R : List Event → Type 0} (S : A → List Event → Type 0)
      {Q : B → List Event → Type 0} (m : Exec (Session W) A) (f : A → Exec (Session W) B)
      → Step R m S
      → ((a : A) → Step (S a) (f a) Q)
      → Step R (m >>= f) Q
  bind-Step S m f hm hf = record {
    triple = Triple-bind (λ a s. S a s.trace × IsSound d s) m f hm.triple λ a. (hf a).triple;
  }

  -- Steps that leave no event keep what is known of the trace.
  pub observe-Step :
      {A : Type 0} {R : List Event → Type 0} (f : W → A × W) → Step R (observe f) (λ a. R)
  unfolding observe
  observe-Step f = record {
    triple = record { at = λ s p. (p.0, same-IsSound d s _ refl refl p.1) };
  }

  pub now-Step : {R : List Event → Type 0} → Step R (now_ms d) (λ a. R)
  unfolding now_ms observe
  now-Step = record { triple = record { at = λ s p. (p.0, same-IsSound d s _ refl refl p.1) } }

  pub gets-Step :
      {A : Type 0} {R : List Event → Type 0} (f : Session W → A) → Step R (gets f) (λ a. R)
  unfolding gets
  gets-Step f = record { triple = record { at = λ s p. p } }

  pub lift-Step :
      {A : Type 0} {R : List Event → Type 0} (r : Result A)
      → Step R (lift r) (λ a past. R past × (r ≡ ok a))
  lift-Step r = record { triple = Triple-lift r (λ a e s p. ((p.0, e), p.1)) (λ s p. p.1) }

  -- A check that may raise.
  pub check-Step : {A : Type 0} {R : List Event → Type 0} (r : Result A) → Step R (lift r) (λ a. R)
  check-Step r = record { triple = Triple-lift r (λ a e s p. p) (λ s p. p.1) }

  pub pure-Step :
      {A : Type 0} {R : List Event → Type 0} {Q : A → List Event → Type 0} (a : A)
      → ((past : List Event) → R past → Q a past)
      → Step R (pure a) Q
  pure-Step a h = record { triple = Triple-pure a (λ s p. (h s.trace p.0, p.1)) }

  pub raise_if-Step :
      {R : List Event → Type 0} (b : Bool) (e : Failure) → Step R (raise_if b e) (λ u. R)
  raise_if-Step b e = record { triple = Triple-raise_if b e (λ t s p. p) (λ s p. p.1) }

  pub if-Step :
      {A : Type 0} {R : List Event → Type 0} {Q : A → List Event → Type 0} (b : Bool)
      (m n : Exec (Session W) A)
      → (b ≡ true → Step R m Q)
      → (b ≡ false → Step R n Q)
      → Step R (if b then m else n) Q
  if-Step true m n hm hn = hm refl
  if-Step false m n hm hn = hn refl

  -- A test that decides nothing about what may follow.
  pub branch-Step :
      {A : Type 0} {R : List Event → Type 0} {Q : A → List Event → Type 0} (b : Bool)
      (m n : Exec (Session W) A)
      → Step R m Q
      → Step R n Q
      → Step R (if b then m else n) Q
  branch-Step b m n hm hn = if-Step b m n (λ e. hm) (λ e. hn)

  pub modify-Step :
      {R : List Event → Type 0} (f : Session W → Session W)
      → ((s : Session W) → (f s).trace ≡ s.trace)
      → ((s : Session W) → (f s).cancelled_paths ≡ s.cancelled_paths)
      → Step R (modify f tt) (λ u. R)
  unfolding modify
  modify-Step {R} f h c = record {
    triple = record {
      at = λ s p. (subst R (sym (h s)) p.0, same-IsSound d s (f s) (h s) (c s) p.1);
    };
  }

  pub weaken :
      {A : Type 0} {R R' : List Event → Type 0} {Q : A → List Event → Type 0}
      {m : Exec (Session W) A}
      → ((past : List Event) → R' past → R past)
      → Step R m Q
      → Step R' m Q
  weaken h t = record { triple = Triple-pre (λ s p. (h s.trace p.0, p.1)) t.triple }

  conclude :
      {A : Type 0} {R : List Event → Type 0} {Q Q' : A → List Event → Type 0}
      {m : Exec (Session W) A}
      → ((a : A) (past : List Event) → Q a past → Q' a past)
      → Step R m Q
      → Step R m Q'
  conclude h t = record {
    triple = Triple-mono t.triple (λ a s p. (h a s.trace p.0, p.1)) (λ s p. p);
  }

  -- The paths that were stopped so far, in a stop.
  record Partly (paths : List String) (past : List Event) : Type 0 where
    last : Stopping past
    nodes : EachStopped paths past

  EachStopped-event :
      (paths : List String) (event : Event) (past : List Event)
      → EachStopped paths past
      → EachStopped paths (event ∷ past)
  EachStopped-event [] event past h = tt
  EachStopped-event (path ∷ paths) event past h =
      (was_stopped-event d path event past h.0, EachStopped-event paths event past h.1)

  -- The path that was just stopped is kept as cancelled.
  cancel :
      (path : String) (done : List String) (s : Session W)
      → Partly (path ∷ done) s.trace × IsSound d s
      → IsSound d (record s { cancelled_paths = path ∷ s.cancelled_paths })
  cancel path done s (stopped_now, g) = record {
    guarded = g.guarded;
    cancelled = λ other k. cancelled_or other (path == other) refl k;
  }
    where
      cancelled_or :
          (other : String) (b : Bool)
          → (path == other) ≡ b
          → (b || any (λ p. p == other) s.cancelled_paths) ≡ true
          → was_stopped other s.trace ≡ true
      cancelled_or other true e k =
          subst (λ p. was_stopped p s.trace ≡ true) (ground (arith, eq_iff path other))
            stopped_now.nodes.0
      cancelled_or other false e k = g.cancelled other k

  stop_path-Step :
      (path : String) (done : List String)
      → Step (Partly done) (stop_path d path) (λ u. Partly (path ∷ done))
  unfolding stop_path
  stop_path-Step path done = record {
    triple =
        Triple-bind
          (λ known s.
            (Partly done s.trace × IsSound d s) × (known ≡ any (λ p. p == path) s.cancelled_paths))
          _ _ (Triple-gets _ (λ s p. (p, refl)))
          λ known.
            Triple-if known _ _
              (λ e. Triple-pure tt λ s p. (
                record {
                  last = p.0.0.last;
                  nodes = (p.0.1.cancelled path (sym p.1 ∙ e), p.0.0.nodes);
                },
                p.0.1,
              ))
              (λ e.
                Triple-bind (λ u s. Partly (path ∷ done) s.trace × IsSound d s) _ _
                  (Triple-pre (λ s p. p.0)
                    (call-Step (λ u. Partly (path ∷ done)) _ _ (λ past r p. p.last) just).triple)
                  λ u. Triple-modify _ _ (λ s p. (p.0, cancel path done s p)));
  }
    where
      just :
          (past : List Event) (u : Unit {0})
          → Partly done past
          → Partly (path ∷ done) (node_stopped path (ok u) ∷ past)
      just past tt p = record {
        last = p.last;
        nodes = (
          ground (arith, eq_iff path path),
          EachStopped-event done (node_stopped path (ok tt)) past p.nodes,
        );
      }

  -- The paths in the order in which they were stopped last.
  abbrev reverse_onto : List String → List String → List String
  reverse_onto [] done = done
  reverse_onto (path ∷ paths) done = reverse_onto paths (path ∷ done)

  of_done :
      (paths done : List String) (past : List Event)
      → EachStopped (reverse_onto paths done) past
      → EachStopped done past
  of_done [] done past h = h
  of_done (path ∷ paths) done past h = (of_done paths (path ∷ done) past h).1

  -- Whatever is stopped of the two lists is stopped of the first.
  every_one :
      (paths done : List String) (past : List Event)
      → EachStopped (reverse_onto paths done) past
      → EachStopped paths past
  every_one [] done past h = tt
  every_one (path ∷ paths) done past h =
      ((of_done paths (path ∷ done) past h).0, every_one paths (path ∷ done) past h)

  stop_paths-Step :
      (paths done : List String)
      → Step (Partly done) (stop_paths d paths) (λ u. Partly (reverse_onto paths done))
  unfolding stop_paths
  stop_paths-Step [] done = pure-Step tt (λ past p. p)
  stop_paths-Step (path ∷ paths) done =
      bind-Step (λ u. Partly (path ∷ done)) _ _ (stop_path-Step path done)
        λ u. stop_paths-Step paths (path ∷ done)

  pub stop_children-Step : Step Stopping (stop_children d) (λ u. HasStopped)
  unfolding stop_children
  stop_children-Step =
      bind-Step (λ a. Stopping) _ _ (observe-Step _)
        λ exists.
          bind-Step (λ u. Stopping) _ _
            (if-Step exists _ _ (λ e. pure-Step tt (λ past p. p))
              (λ e. call-Step (λ u. Stopping) _ _ (λ past r p. p) (λ past a p. p)))
            λ u.
              weaken (λ past p. record { last = p; nodes = tt })
                (conclude
                  (λ u past p. record {
                    last = p.last;
                    nodes = every_one (d.config.node_path ∷ d.children) [] past p.nodes;
                  })
                  (stop_paths-Step (d.config.node_path ∷ d.children) []))

  -- Behind the monitor's word.
  pub record Going (R : List Event → Type 0) (past : List Event) : Type 0 where
    pub older : List Event
    pub go : past ≡ ticked false ∷ older
    pub held : R older

  abbrev Word : (List Event → Type 0) → Bool → List Event → Type 0
  Word R true past = Stopping past
  Word R false past = Going R past

  monitor_tick-Step : {R : List Event → Type 0} → Step R (monitor_tick d) (Word R)
  unfolding monitor_tick
  monitor_tick-Step {R} = record {
    triple = record {
      at = λ s p. said (d.gateway.monitor_tick s.world).0 s (d.gateway.monitor_tick s.world).1 p;
    };
  }
    where
      said :
          (b : Bool) (s : Session W) (w : W)
          → R s.trace × IsSound d s
          → Word R b (ticked b ∷ s.trace)
            × IsSound d (record s { world = w; trace = ticked b ∷ s.trace })
      said true s w p = (refl, event-IsSound d (ticked true) s _ refl refl tt p.1)
      said false s w p = (
        record { older = s.trace; go = refl; held = p.0 },
        event-IsSound d (ticked false) s _ refl refl tt p.1,
      )

  pub unless_halted-Step :
      {R : List Event → Type 0} (rest : Exec (Session W) Outcome)
      → Step (Going R) rest Ended
      → Step R (unless_halted d rest) Ended
  unfolding unless_halted
  unless_halted-Step {R} rest h = bind-Step (Word R) _ _ monitor_tick-Step word
    where
      word :
          (halted : Bool)
          → Step
              (Word R halted)
              (if halted then (stop_children d >>= λ u. pure stopped) else rest)
              Ended
      word true = bind-Step (λ u. HasStopped) _ _ stop_children-Step λ u. pure-Step _ (λ past p. p)
      word false = h
