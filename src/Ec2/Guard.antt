-- ===== src/Ec2/Guard.antt =====
-- The order in which ec2_daemon.py may act: what must stand before a launch, a termination and a handoff
-- in the trace of gateway calls.
pub mod Reads
pub mod Launch
pub mod Retire
pub mod Steps
pub mod Observed
pub mod Handover
use cloud_glider.Prelude.{
  ◌||◌, ◌==◌, ℕ, ◌/◌, some, ◌≡◌, String, Bool, true, false, Option, List, [], ◌∷◌, if◌then◌else◌,
}
use cloud_glider.Prelude.Int.{ℤ, pos, ◌*ℤ◌, ◌+ℤ◌, ◌≤ℤ◌}
use cloud_glider.Python.Result.{Failure, Result, ok, err}
use cloud_glider.Python.Exec.{raise, Exec, pure, lift, ◌>>=◌}
use cloud_glider.Python.Hoare.{
  either, Triple-mono, Triple-pre, Ends, Triple, Triple-pure, Triple-raise, Triple-lift,
  Triple-bind,
}
use cloud_glider.Python.Value.{Record, truth, get}
use cloud_glider.Ec2.Control.Approved.{IsApproved}
use cloud_glider.Ec2.Session.{
  clock_read, Expected, state_read, handed_off, instance_verified, now_ms, Instance, Specification,
  Ec2Daemon, Session, Event, control_read, current_read, instance_described, submission_claimed,
  instance_run, instance_terminated, call, observe, now_seconds,
}
use cloud_glider.Ec2.Specification.{identity_differs}
use cloud_glider.Ec2.Ownership.{is_current_owner, generation_number}
use cloud_glider.Ec2.Proof.{is_young, proved_at, handoff_expected, handoff_successor}
use cloud_glider.Ec2.Authority.Authorized.{IsAuthorized}
use cloud_glider.Ec2.Authority.Predecessor.{IsPredecessor}

-- No condition on the trace.
abbrev pub Anything : List Event → Type 0
Anything past = Unit

module _ {W : Type 0} (d : Ec2Daemon W) (control : Record) (current : Record) where
  open d use {config, gateway}

  -- The last call read that control record, which is approved, permits propagation and is the one
  -- acted on, and before it `R` holds.
  pub record PermittedBy (fresh : Record) (R : List Event → Type 0) (past : List Event)
      : Type 0 where
    pub older : List Event
    pub read : past ≡ control_read (ok (fresh, false)) ∷ older
    pub approved : IsApproved config gateway.place fresh
    pub enabled : truth (get "propagation_enabled" fresh) ≡ true
    pub unchanged : identity_differs fresh control ≡ ok false
    pub before : R older

  abbrev pub JustPermitted : (List Event → Type 0) → List Event → Type 0
  JustPermitted R past = (fresh : Record) × PermittedBy fresh R past

  -- The last call read a CURRENT that names this instance, and before it `R` holds.
  pub record JustOwned (R : List Event → Type 0) (past : List Event) : Type 0 where
    pub owner : Record
    pub older : List Event
    pub read : past ≡ current_read (ok owner) ∷ older
    pub owns : is_current_owner d owner ≡ true
    pub before : R older

  -- The last call claimed the submission of that launch, and before it `R` holds.
  pub record JustClaimed (spec : Specification) (R : List Event → Type 0) (past : List Event)
      : Type 0 where
    pub older : List Event
    pub read : past ≡ submission_claimed spec (ok tt) ∷ older
    pub before : R older

  -- The last call looked up the predecessor, which has the identity that it must have and is not
  -- yet shutting down.
  pub record JustIdentified (past : List Event) : Type 0 where
    pub number : ℤ
    pub found : Option Instance
    pub state : String
    pub older : List Event
    pub read : past ≡ instance_described config.predecessor_instance_id (ok found) ∷ older
    pub number_is : generation_number d ≡ ok number
    pub identified : IsPredecessor d number found state
    pub alive : (state == "shutting-down" || state == "terminated") ≡ false

  -- The last calls looked up the successor, which runs, verified it and read its state.
  pub record JustObserved (spec : Specification) (id : String) (state : Record) (past : List Event)
      : Type 0 where
    pub instance : Instance
    pub older : List Event
    pub runs : instance.state_name ≡ some "running"
    pub read :
        past
        ≡ state_read spec.generation (ok (some state))
          ∷ instance_verified instance spec (ok tt)
          ∷ instance_described id (ok (some instance))
          ∷ older

  -- The last call read the clock, and before it `R` holds; the state holds a proof for that control
  -- record, which is young at that reading.
  pub record IsEligible (R : List Event → Type 0) (state fresh : Record) (spec : Specification)
      (id : String) (past : List Event) : Type 0 where
    pub timestamp : ℤ
    pub ms : ℕ
    pub older : List Event
    pub read : past ≡ clock_read ms ∷ older
    pub proved : proved_at d state fresh spec id ≡ ok (some timestamp)
    pub young : (timestamp *ℤ pos 1000 ≤ℤ pos ms) × (pos ms ≤ℤ (timestamp +ℤ pos 15) *ℤ pos 1000)
    pub before : R older

  -- The last call read the clock, in whole seconds, and before it `R` holds.
  pub record JustTimed (R : List Event → Type 0) (now : ℤ) (past : List Event) : Type 0 where
    pub ms : ℕ
    pub older : List Event
    pub read : past ≡ clock_read ms ∷ older
    pub now_is : now ≡ pos (ms / 1000)
    pub before : R older

  -- Before a handoff: the observation of the successor, a reading of the clock at which its state is
  -- eligible for the control record acted on, a permitting read, a reading of the clock at which the state
  -- is eligible for what was read, and a reading of the clock for the lease.
  abbrev pub Checked : Record → Specification → String → Record → List Event → Type 0
  Checked fresh spec id state =
      IsEligible (PermittedBy fresh (IsEligible (JustObserved spec id state) state control spec id))
        state fresh spec id

  -- The handoff is conditional on that record, that state and that time, and names that successor.
  pub record MayHandOff (expected : Expected) (successor : Record) (past : List Event)
      : Type 0 where
    pub spec : Specification
    pub id : String
    pub state : Record
    pub fresh : Record
    pub lease_now : ℤ
    pub updated : String
    pub checked : JustTimed (Checked fresh spec id state) lease_now past
    pub condition : handoff_expected d fresh state lease_now ≡ ok expected
    pub names : handoff_successor d fresh spec id state updated ≡ ok successor

  -- What must stand before an event.
  abbrev pub Allowed : Event → List Event → Type 0
  Allowed (instance_run spec result) past =
      JustPermitted (JustClaimed spec (JustOwned Anything)) past
  Allowed (instance_terminated id result) past =
      (id ≡ config.predecessor_instance_id)
      × IsAuthorized d control current
      × JustPermitted (JustOwned JustIdentified) past
  Allowed (handed_off expected successor result) past = MayHandOff expected successor past
  Allowed event past = Unit

  abbrev pub IsGuarded : List Event → Type 0
  IsGuarded [] = Unit
  IsGuarded (event ∷ past) = Allowed event past × IsGuarded past

  -- Neither a launch nor a termination nor a handoff.
  abbrev pub IsQuiet : Event → Type 0
  IsQuiet (instance_run spec result) = ⊥
  IsQuiet (instance_terminated id result) = ⊥
  IsQuiet (handed_off expected successor result) = ⊥
  IsQuiet _ = Unit

  pub quiet-Allowed : (event : Event) (past : List Event) → IsQuiet event → Allowed event past
  quiet-Allowed (instance_run spec result) past h = absurd h
  quiet-Allowed (instance_terminated id result) past h = absurd h
  quiet-Allowed (handed_off expected successor result) past h = absurd h
  quiet-Allowed event past h = tt

  -- The trace is guarded, and `R` holds of it.
  abbrev pub Guarded : (List Event → Type 0) → Session W → Type 0
  Guarded R s = IsGuarded s.trace × R s.trace

  -- A method that keeps a guarded trace guarded, whether it returns or raises.
  abbrev pub Keeps : {A : Type 0} → Exec (Session W) A → Type 0
  Keeps m = Triple (Guarded Anything) m (λ a. Guarded Anything) (Guarded Anything)

  pub Triple-call :
      {A : Type 0} {P : Session W → Type 0} {Q : A → Session W → Type 0} {E : Session W → Type 0}
      (event : Result A → Event) (op : Exec W A)
      → ((s : Session W)
          → P s
          → (r : Result A) (w : W) → Ends Q E r (record { world = w; trace = event r ∷ s.trace }))
      → Triple P (call event op) Q E
  unfolding call
  Triple-call event op h = record { at = λ s p. h s p (op s.world).0 (op s.world).1 }

  module _ {A : Type 0} where
    pub Keeps-pure : (a : A) → Keeps (pure a)
    Keeps-pure a = Triple-pure a (λ s p. p)

    pub Keeps-lift : (r : Result A) → Keeps (lift r)
    Keeps-lift r = Triple-lift r (λ a e s p. p) (λ s p. p)

    pub Keeps-if :
        (b : Bool) (m n : Exec (Session W) A) → Keeps m → Keeps n → Keeps (if b then m else n)
    Keeps-if true m n hm hn = hm
    Keeps-if false m n hm hn = hn

    pub Keeps-call :
        (event : Result A → Event) (op : Exec W A)
        → ((r : Result A) → IsQuiet (event r))
        → Keeps (call event op)
    Keeps-call event op h = Triple-call event op λ s p r w.
        both r (record { world = w; trace = event r ∷ s.trace })
          ((quiet-Allowed (event r) s.trace (h r), p.0), tt)
      where
        both :
            (r : Result A) (s : Session W)
            → Guarded Anything s
            → Ends (λ a. Guarded Anything) (Guarded Anything) r s
        both (ok a) s p = p
        both (err e) s p = p

    pub Keeps-bind :
        {B : Type 0} (m : Exec (Session W) B) (f : B → Exec (Session W) A)
        → Keeps m
        → ((b : B) → Keeps (f b))
        → Keeps (m >>= f)
    Keeps-bind m f hm hf = Triple-bind (λ b. Guarded Anything) m f hm hf

  pub Keeps-raise : {A : Type 0} (e : Failure) → Keeps (raise {A = A} e)
  Keeps-raise e = Triple-raise e (λ s p. p)

  pub Keeps-observe : {A : Type 0} (f : W → A × W) → Keeps (observe f)
  unfolding observe
  Keeps-observe f = record { at = λ s p. p }

  pub Keeps-now_seconds : Keeps (now_seconds d)
  unfolding now_seconds
  Keeps-now_seconds = record { at = λ s p. ((tt, p.0), tt) }

  pub Keeps-now_ms : Keeps (now_ms d)
  unfolding now_ms
  Keeps-now_ms = record { at = λ s p. ((tt, p.0), tt) }

  pub ruleset keeps_rules = (
    Keeps-pure, Keeps-lift, Keeps-raise, Keeps-if, Keeps-call, Keeps-bind, Keeps-observe,
    Keeps-now_seconds, Keeps-now_ms,
  )

  -- Such a method leaves a guarded trace guarded.
  pub Keeps-IsGuarded :
      {A : Type 0} (m : Exec (Session W) A)
      → Keeps m
      → (s : Session W) → IsGuarded s.trace
      → IsGuarded (m s).1.trace
  Keeps-IsGuarded m k s p = let (r, s') = m s in (either (Guarded Anything) r s' (k.at s (p, tt))).0
