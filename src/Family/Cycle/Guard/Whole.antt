-- ===== src/Family/Cycle/Guard/Whole.antt =====
-- `FamilyDaemon.cycle`: every step of a cycle stands where it may.
use cloud_glider.Prelude.{
  String, Bool, true, false, ◌≡◌, refl, ap, Option, none, some, List, [], ◌∷◌, inl,
}
use cloud_glider.Python.Result.{Result, ok, err}
use cloud_glider.Python.Exec.{Exec}
use cloud_glider.Python.Value.{Record, truth, value_eq, get, str}
use cloud_glider.Python.Hoare.{Ends}
use cloud_glider.Family.Inherited.{NodeSpecification}
use cloud_glider.Family.Session.{
  Event, ticked, node_read, child_launched, Session, FamilyDaemon, call,
}
use cloud_glider.Family.Cycle.{Outcome, spec}
use cloud_glider.Family.Cycle.{
  accept_child, accept_all, publish, after_launches, future, launch_all, begin_unless, begin_wait,
  late_launch, launch, launch_when_ready, be_leaf, as_owner, publish_ready, check_configuration,
  with_node, read_and_go_on, cycle, candidate, leaf, waiting_for_child,
}
use cloud_glider.Prelude.Int.{ℤ}
use cloud_glider.Family.Cycle.Guard.{IsSound}
use cloud_glider.Family.Cycle.Guard.Rules.{
  Step, Free, Ended, Going, call-Step, bind-Step, now-Step, gets-Step, lift-Step, pure-Step,
  raise_if-Step, if-Step, branch-Step, modify-Step, check-Step, unless_halted-Step,
}
use cloud_glider.Family.Cycle.Guard.Steps.{
  going, timed_out-Step, wait-Step, retire-Step, finish-Step,
}

module _ {W : Type 0} (d : FamilyDaemon W) where
  open d use {config, gateway, children}

  accept_child-Step :
      {R : List Event → Type 0} (path instance : String) (rest : Exec (Session W) Outcome)
      → Step d (Free d) rest (Ended d)
      → Step d (Going d R) (accept_child d path instance rest) (Ended d)
  unfolding accept_child
  accept_child-Step {R} path instance rest h =
      bind-Step d (λ a. Going d R) _ _ (check-Step d _)
        λ child.
          bind-Step d (λ a. Going d R) _ _ (now-Step d)
            λ now.
              bind-Step d (λ a. Free d) _ _
                (call-Step d _ _ _ (λ past r p. going d past p) (λ past a p. tt))
                λ accepted.
                  if-Step d accepted _ _ (λ e. h)
                    (λ e. wait-Step d true _ waiting_for_child (λ past. tt))

  accept_all-Step :
      {R : List Event → Type 0} (paths instances : List String)
      → Step d R (accept_all d paths instances) (Ended d)
  unfolding accept_all
  accept_all-Step (path ∷ paths) (instance ∷ instances) =
      unless_halted-Step d _ (accept_child-Step path instance _ (accept_all-Step paths instances))
  accept_all-Step [] instances = finish-Step d
  accept_all-Step (path ∷ paths) [] = finish-Step d

  publish-Step :
      {R : List Event → Type 0} (instances : List String)
      → Step d (Going d R) (publish d instances) (Ended d)
  unfolding publish
  publish-Step {R} instances =
      bind-Step d (λ a. Going d R) _ _ (now-Step d)
        λ now.
          bind-Step d (λ a. Free d) _ _
            (call-Step d _ _ _ (λ past r p. going d past p) (λ past a p. tt))
            λ u.
              bind-Step d (λ a. Free d) _ _ (modify-Step d _ (λ s. refl) (λ s. refl))
                λ u'. accept_all-Step children instances

  after_launches-Step :
      {R : List Event → Type 0} (instances : List String)
      → Step d R (after_launches d instances) (Ended d)
  unfolding after_launches
  after_launches-Step {R} instances =
      bind-Step d (λ a. R) _ _ (gets-Step d _)
        λ done.
          if-Step d done _ _ (λ e. accept_all-Step children instances)
            (λ e. unless_halted-Step d _ (publish-Step instances))

  future-Step :
      {A : Type 0} {R : List Event → Type 0} (m : Exec (Session W) A)
      → Step d R m (λ a. Free d)
      → Step d R (future d m) (λ a. Free d)
  unfolding future
  future-Step m h = record {
    triple = record { at = λ s p. kept (m s).0 (m s).1 (h.triple.at s p) };
  }
    where
      kept :
          {A : Type 0} (r : Result A) (s : Session W)
          → Ends (λ a s'. Unit {0} × IsSound d s') (IsSound d) r s
          → Unit {0} × IsSound d s
      kept (ok a) s p = p
      kept (err e) s p = (tt, p)

  launch_one-Step :
      {R : List Event → Type 0} (path : String) (child : NodeSpecification)
      → Step d
          (λ past. Going d R past × (spec d path ≡ ok child))
          (call (child_launched child) (gateway.launch_child child))
          (λ a. Free d)
  launch_one-Step path child =
      call-Step d _ _ _ (λ past r p. record { go = going d past p.0; path = path; asked = p.1 })
        (λ past a p. tt)

  launch_all-Step :
      {R : List Event → Type 0} (paths : List String) (futures : List (Result String))
      → Step d R (launch_all d paths futures) (Ended d)
  unfolding launch_all
  launch_all-Step {R} [] futures =
      bind-Step d (λ a. R) _ _ (check-Step d _) λ instances. after_launches-Step instances
  launch_all-Step {R} (path ∷ paths) futures = unless_halted-Step d _ (
      bind-Step d (λ child past. Going d R past × (spec d path ≡ ok child)) _ _ (lift-Step d _)
        λ child.
          bind-Step d (λ a. Free d) _ _ (future-Step _ (launch_one-Step path child))
            λ outcome. launch_all-Step paths _)

  begin_wait-Step : {R : List Event → Type 0} → Step d R (begin_wait d) (λ u. R)
  unfolding begin_wait begin_unless
  begin_wait-Step {R} = bind-Step d (λ a. R) _ _ (gets-Step d _) begin
    where
      begin : (started : Option ℤ) → Step d R (begin_unless d started) (λ u. R)
      begin (some at) = pure-Step d tt (λ past r. r)
      begin none =
          bind-Step d (λ a. R) _ _ (now-Step d) λ now. modify-Step d _ (λ s. refl) (λ s. refl)

  late_launch-Step :
      {R : List Event → Type 0} (done : Bool) → Step d R (late_launch d done) (λ b. R)
  unfolding late_launch
  late_launch-Step true = pure-Step d _ (λ past r. r)
  late_launch-Step false = timed_out-Step d false

  launch-Step : {R : List Event → Type 0} → Step d R (launch d) (Ended d)
  unfolding launch
  launch-Step {R} =
      bind-Step d (λ u. R) _ _ begin_wait-Step
        λ u.
          bind-Step d (λ u. R) _ _ (gets-Step d _)
            λ done.
              bind-Step d (λ u. R) _ _ (late_launch-Step done)
                λ late.
                  bind-Step d (λ u. R) _ _ (raise_if-Step d late _)
                    λ u'. launch_all-Step children []

  launch_when_ready-Step : {R : List Event → Type 0} → Step d R (launch_when_ready d) (Ended d)
  unfolding launch_when_ready
  launch_when_ready-Step {R} =
      bind-Step d (λ a. R) _ _ (check-Step d _)
        λ fanout.
          if-Step d (truth fanout) _ _ (λ e. launch-Step)
            (λ e.
              bind-Step d (λ a. Free d) _ _ (call-Step d _ _ _ (λ past r p. tt) (λ past a p. tt))
                λ ready.
                  if-Step d ready _ _ (λ e'. launch-Step) (λ e'. pure-Step d _ (λ past r. tt)))

  be_leaf-Step : {R : List Event → Type 0} (node : Record) → Step d R (be_leaf d node) (Ended d)
  unfolding be_leaf
  be_leaf-Step {R} node =
      bind-Step d (λ u. Free d) _ _
        (branch-Step d _ _ _ (pure-Step d tt (λ past r. tt))
          (call-Step d _ _ _ (λ past r p. tt) (λ past a p. tt)))
        λ u. pure-Step d leaf (λ past r. tt)

  as_owner-Step : {R : List Event → Type 0} (node : Record) → Step d R (as_owner d node) (Ended d)
  unfolding as_owner
  as_owner-Step {R} node =
      branch-Step d _ _ _ (pure-Step d candidate (λ past r. tt))
        (branch-Step d _ _ _ launch_when_ready-Step (be_leaf-Step node))

  publish_ready-Step :
      {R : List Event → Type 0} (node : Record)
      → Step d (Going d R) (publish_ready d node) (Ended d)
  unfolding publish_ready
  publish_ready-Step {R} node =
      bind-Step d (λ a. Going d R) _ _ (now-Step d)
        λ now.
          bind-Step d (λ a. Free d) _ _
            (call-Step d _ _ _ (λ past r p. going d past p) (λ past a p. tt))
            λ u.
              bind-Step d (λ a. Free d) _ _ (now-Step d)
                λ published.
                  bind-Step d (λ a. Free d) _ _ (modify-Step d _ (λ s. refl) (λ s. refl))
                    λ u'. as_owner-Step node

  with_node-Step : {R : List Event → Type 0} (node : Record) → Step d R (with_node d node) (Ended d)
  unfolding with_node check_configuration
  with_node-Step {R} node =
      bind-Step d (λ u. R) _ _
        (bind-Step d (λ a. R) _ _ (check-Step d _) λ valid. raise_if-Step d _ _)
        λ u.
          bind-Step d (λ a. R) _ _ (now-Step d)
            λ now.
              bind-Step d (λ a. R) _ _ (gets-Step d _)
                λ last.
                  branch-Step d _ _ _ (unless_halted-Step d _ (publish_ready-Step node))
                    (as_owner-Step node)

  read_and_go_on-Step : {R : List Event → Type 0} → Step d (Going d R) (read_and_go_on d) (Ended d)
  unfolding read_and_go_on
  read_and_go_on-Step {R} =
      bind-Step d Read _ _ (call-Step d Read _ _ (λ past r p. going d past p) read) λ node.
        if-Step d (value_eq (get "status" node) (str "RETIRING")) _ _
          (λ e.
            retire-Step d
              (λ past p. inl (record { node = node; older = p.0; read = p.1; status = e })))
          (λ e. with_node-Step node)
    where
      Read : Record → List Event → Type 0
      Read node past = (older : List Event) × (past ≡ node_read (ok node) ∷ ticked false ∷ older)

      read :
          (past : List Event) (node : Record)
          → Going d R past
          → Read node (node_read (ok node) ∷ past)
      read past node g = (g.older, ap (λ l. node_read (ok node) ∷ l) g.go)

  pub cycle-Step : Step d (Free d) (cycle d) (Ended d)
  unfolding cycle
  cycle-Step = unless_halted-Step d _ read_and_go_on-Step

  -- A cycle that starts sound, with a guarded trace in which each path that the daemon keeps as cancelled was
  -- stopped, ends sound, whatever the gateway and the monitor answer and however it ends. In a guarded trace
  -- the monitor has just let the daemon go on before each reading of the node, publication of readiness, launch,
  -- publication of the propagation, and acceptance of a child, and before an authorization directly after the
  -- parent was seen to be gone; a launch is one that `spec` describes; the daemon retires itself only if its
  -- node was just read as retiring, or if its parent is gone and its retirement was just authorized; nodes
  -- are stopped and the stop file is written only after the monitor said stop or a violation, with nothing
  -- but the stop in between; and the hold function is invoked only for the own generation. If the cycle
  -- returns STOPPED, nothing but the stop came after such a word, and the own node and each child were
  -- stopped with success at some time; if it returns RETIRING its own retirement was the last that it did.
  pub cycle-IsGuarded :
      (s : Session W)
      → IsSound d s
      → Ends (λ o s'. Ended d o s'.trace × IsSound d s') (IsSound d) (cycle d s).0 (cycle d s).1
  cycle-IsGuarded s g = cycle-Step.triple.at s (tt, g)
