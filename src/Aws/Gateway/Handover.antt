-- ===== src/Aws/Gateway/Handover.antt =====
-- `Daemon.conditional_handoff` of daemon.py on the gateway of aws_sdk.py: what CURRENT says after it.
use cloud_glider.Python.Exec.{Exec, ◌>>=◌}
use cloud_glider.Python.Hoare.{Ends-ok, Triple-bind, Triple-raise_if}
use cloud_glider.Daemon.Handoff.{transfer, conditional_handoff}
use cloud_glider.Prelude.{not-false, ◌∷◌, ℕ, String, Bool, true, ◌≡◌, ap, arith}
use cloud_glider.Python.Result.{Result, ok, err}
use cloud_glider.Python.Exec.{Exec, ◌>>=◌}
use cloud_glider.Python.Value.{Value, Record, item, as_text}
use cloud_glider.Python.Hoare.{Ends, Triple, Triple-bind, Triple-raise_if}
use cloud_glider.Daemon.Config.{DaemonConfig}
use cloud_glider.Daemon.Gateway.{Specification, Expected}
use cloud_glider.Daemon.Session.{Event, handed_off, Session, Daemon, call}
use cloud_glider.Daemon.Handoff.{handoff_successor, transfer, conditional_handoff}
use cloud_glider.Aws.Services.{Services, Library}
use cloud_glider.Aws.Client.{Client, AwsSdkGateway}
use cloud_glider.Aws.Snapshot.{text_item, current_key}
use cloud_glider.Aws.Gateway.{Surroundings, aws_gateway}
use cloud_glider.Aws.Handoff.{Place, place_of}
use cloud_glider.Aws.Handoff.Moves.{Names, handoff-Moved}
use cloud_glider.Aws.Hold.{handoff}
use cloud_glider.Aws.Lease.Others.{Peer}
use cloud_glider.Aws.Stacks.Single.{Triple-fact}
use cloud_glider.Aws.Store.{Store, Documented}

abbrev Anything : {S : Type 0} → S → Type 0
Anything s = Unit {0}

-- The place that the daemon hands over to.
successor_place :
    {W : Type 0} (d : Daemon W) (specification : Specification) (stack_id : String)
    (instance token : Value) (updated : String) {next : Place}
    → place_of (handoff_successor d specification stack_id instance token updated) ≡ ok next
    → (next.generation ≡ specification.generation) × (next.stack_id ≡ stack_id)
unfolding place_of handoff_successor text_item item as_text
successor_place d specification stack_id instance token updated h = ground arith

module _ {W : Type 0} {services : Services W} (dynamo : Documented services) (library : Library)
    (surroundings : Surroundings W) (fuel : ℕ) (self : AwsSdkGateway)
    (peer : Peer self.config.state_table_name self) (config : DaemonConfig)
    (correlation_id lease_owner : String) (specification : Specification) (stack_id : String) where
  open dynamo use {stored}

  -- The daemon on this gateway.
  abbrev pub daemon : Daemon (Client W)
  daemon = record {
    config = config;
    gateway = aws_gateway services library surroundings fuel self;
    correlation_id = correlation_id;
    lease_owner = lease_owner;
  }

  -- CURRENT names the stack, as the specification's generation.
  pub record HandedOver (s : Store) : Type 0 where
    pub place : Place
    pub generation : place.generation ≡ specification.generation
    pub stack : place.stack_id ≡ stack_id
    pub current : Names place (s self.config.state_table_name current_key)

  abbrev After : Session (Client W) → Type 0
  After s = HandedOver (stored s.world.world)

  recorded_end :
      (r : Result Bool) (c : Client W) (s : Session (Client W)) (event : Event)
      → (r ≡ ok true → HandedOver (stored c.world))
      → Ends
          (λ done s. done ≡ true → After s)
          Anything
          r
          (record s { world = c; trace = event ∷ s.trace })
  recorded_end (ok done) c s event h = λ e. h (ap ok e)
  recorded_end (err f) c s event h = tt

  handoff_call :
      (expected : Expected) (instance token : Value) (updated : String) (audit : Record)
      → Triple Anything
          (call
            (handed_off expected
              (handoff_successor daemon specification stack_id instance token updated))
            (daemon.gateway.handoff expected
              (handoff_successor daemon specification stack_id instance token updated)
              audit))
          (λ done s. done ≡ true → After s)
          Anything
  unfolding call aws_gateway
  handoff_call expected instance token updated audit = record {
    at = λ s p.
        let successor = handoff_successor daemon specification stack_id instance token updated in
        let (r, c) = handoff services self expected successor audit s.world in
        recorded_end r c s _ (λ e.
          let m = handoff-Moved dynamo self expected successor audit s.world peer e in
          let (g, st) =
            successor_place daemon specification stack_id instance token updated m.next_read in
          record { place = m.next; generation = g; stack = st; current = m.now });
  }

  anything :
      {A : Type 0} (m : Exec (Session (Client W)) A) → Triple Anything m (λ a. Anything) Anything
  anything m = Triple-fact (Unit {0}) m (λ s p. p)

  -- Whatever the first step does.
  after_any :
      {A B : Type 0} {Q : B → Session (Client W) → Type 0} (m : Exec (Session (Client W)) A)
      (f : A → Exec (Session (Client W)) B)
      → ((a : A) → Triple Anything (f a) Q Anything)
      → Triple Anything (m >>= f) Q Anything
  after_any m f h = Triple-bind (λ a. Anything) m f (anything m) h

  transfer-After :
      (fresh state : Record)
      → Triple Anything (transfer daemon fresh specification stack_id state) (λ u. After) Anything
  unfolding transfer
  transfer-After fresh state = after_any _ _ (λ expected. after_any _ _ (λ instance.
      after_any _ _ (λ token. after_any _ _ (λ updated. after_any _ _ (λ event_id.
        after_any _ _ (λ occurred.
          Triple-bind (λ done s. done ≡ true → After s) _ _
            (handoff_call expected instance token updated _)
            (λ done. Triple-raise_if _ _ (λ e s h. h (not-false done e)) (λ s h. tt))))))))

  conditional_handoff-After :
      (control : Record)
      → Triple Anything
          (conditional_handoff daemon control specification stack_id)
          (λ u. After)
          Anything
  unfolding conditional_handoff
  conditional_handoff-After control = after_any _ _ (λ fresh. after_any _ _ (λ changed.
      after_any _ _ (λ go_on. after_any _ _ (λ stack. after_any _ _ (λ matched.
        after_any _ _ (λ instance_id.
          after_any _ _ (λ found. after_any _ _ (λ state. transfer-After fresh state))))))))

  -- A handover that returns left CURRENT with the stack and the generation that it was to hand over to.
  pub conditional_handoff-HandedOver :
      (control : Record) (s : Session (Client W))
      → (conditional_handoff daemon control specification stack_id s).0 ≡ ok tt
      → HandedOver
          (stored (conditional_handoff daemon control specification stack_id s).1.world.world)
  conditional_handoff-HandedOver control s e =
      let (r, t) = conditional_handoff daemon control specification stack_id s in
      Ends-ok (λ u. After) Anything r t tt e ((conditional_handoff-After control).at s tt)
