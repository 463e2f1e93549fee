-- ===== src/Daemon/Readiness/Accepted.antt =====
-- The counting of heartbeats in `wait_for_healthy_successor` of daemon.py: what is accepted is a row of
-- eligible states, each read after the one before it, with another sequence number than the one before it and late enough after it.
use cloud_glider.Prelude.{
  ◌/◌, List, ◌∷◌, ℕ, suc, ◌≡◌, refl, ◌∙◌, ap, subst, arith, inl, inr, Bool-cases, String, Bool,
  true, false, Option, none, some, if◌then◌else◌,
}
use cloud_glider.Prelude.Int.{ℤ, pos, ◌+ℤ◌, leb_ℤ, ◌≤ℤ◌}
use cloud_glider.Python.Result.{Result, ok, ◌>>=◌, bind_ok, ok_inj}
use cloud_glider.Python.Value.{Record}
use cloud_glider.Daemon.Session.{Event, instance_looked_up, clock_read, state_read}
use cloud_glider.Daemon.Trace.{Extension, Extension-trans, same}
use cloud_glider.Daemon.Gateway.{Specification}
use cloud_glider.Daemon.Heartbeat.{
  eligible_heartbeat, int_item, Waiting, Step, ready, waiting, accept,
}
use cloud_glider.Daemon.Heartbeat.{
  first_accepted, next_accepted, spaced_accepted, later_accepted, accept_after, same_sequence,
  elapsed_since,
}

-- The second trace comes of the first by new events.
abbrev pub Since : List Event → List Event → Type 0
Since = Extension (λ event. Unit)

-- The instance of the stack was looked up since the start.
pub record WasLookedUp (start : List Event) (stack_id id : String) (past : List Event)
    : Type 0 where
  pub older : List Event
  pub after : Since start older
  pub before : Since (instance_looked_up stack_id (ok id) ∷ older) past

-- The last two calls read the state, after the given trace, and the clock, at which the state is eligible for
-- an instance that was looked up before.
pub record IsSeen (start : List Event) (control : Record) (specification : Specification)
    (stack_id : String) (since : List Event) (state : Record) (past : List Event) : Type 0 where
  pub instance_id : String
  pub ms : ℕ
  pub older : List Event
  pub read : past ≡ clock_read ms ∷ state_read specification.generation (ok (some state)) ∷ older
  pub after : Since since older
  pub looked_up : WasLookedUp start stack_id instance_id older
  pub eligible :
      eligible_heartbeat state control specification stack_id instance_id (pos (ms / 1000))
      ≡ ok true

-- A row of `n` states, each read after the one before it: each meets `P`, and `Q` with the one before it;
-- it ends at the given state and trace.
pub data IsRow (P : List Event → Record → List Event → Type 0) (Q : Record → Record → Type 0)
    (start : List Event) : ℕ → Record → List Event → Type 0 where
  first : (state : Record) (past : List Event) → P start state past → IsRow P Q start 1 state past
  later :
      (n : ℕ) (prior state : Record) (earlier past : List Event)
      → IsRow P Q start n prior earlier
      → P earlier state past
      → Q prior state
      → IsRow P Q start (suc n) state past

-- The state has another sequence number than the prior one, and is an interval or more after it.
pub record IsSpaced (control prior state : Record) : Type 0 where
  pub elapsed : ℤ
  pub interval : ℤ
  pub other_sequence : same_sequence prior state ≡ ok false
  pub elapsed_is : elapsed_since prior state ≡ ok elapsed
  pub interval_is : int_item control "heartbeat_interval_seconds" ≡ ok interval
  pub spaced : interval ≤ℤ elapsed

-- What `wait_for_healthy_successor` has seen when it returns a state.
pub record IsProved (start : List Event) (control : Record) (specification : Specification)
    (stack_id : String) (required : ℤ) (state : Record) (past : List Event) : Type 0 where
  pub count : ℕ
  pub enough : required ≤ℤ pos count
  pub row :
      IsRow (IsSeen start control specification stack_id) (IsSpaced control) start count state past

module _ (start : List Event) (control : Record) (specification : Specification) (stack_id : String)
    (required : ℤ) where
  abbrev pub Row : ℕ → Record → List Event → Type 0
  Row = IsRow (IsSeen start control specification stack_id) (IsSpaced control) start

  abbrev pub Proved : Record → List Event → Type 0
  Proved = IsProved start control specification stack_id required

  -- What is kept between the rounds is a row of the accepted states, and the instance.
  abbrev pub Counted : Option Record → ℤ → List Event → Type 0
  Counted none accepted trace = Unit
  Counted (some prior) accepted trace =
      (n : ℕ) × (earlier : List Event) × (accepted ≡ pos n)
      × Row n prior earlier
      × Since earlier trace

  abbrev pub Known : Option String → List Event → Type 0
  Known none trace = Unit
  Known (some id) trace = WasLookedUp start stack_id id trace

  pub record IsCounted (w : Waiting) (trace : List Event) : Type 0 where
    pub begun : Since start trace
    pub known : Known w.expected_instance trace
    pub counted : Counted w.prior w.accepted trace

  Known-grows :
      {old new : List Event} → Since old new → (o : Option String) → Known o old → Known o new
  Known-grows g none k = tt
  Known-grows g (some id) k = record {
    older = k.older;
    after = k.after;
    before = Extension-trans k.before g;
  }

  Counted-grows :
      {old new : List Event}
      → Since old new
      → (o : Option Record) (accepted : ℤ) → Counted o accepted old
      → Counted o accepted new
  Counted-grows g none accepted c = tt
  Counted-grows g (some prior) accepted c = (c.0, c.1, c.2, c.3, Extension-trans c.4 g)

  pub IsCounted-grows :
      {old new : List Event} → Since old new → (w : Waiting) → IsCounted w old → IsCounted w new
  IsCounted-grows g w c = record {
    begun = Extension-trans c.begun g;
    known = Known-grows g w.expected_instance c.known;
    counted = Counted-grows g w.prior w.accepted c.counted;
  }

  abbrev pub StepIsCounted : Step → List Event → Type 0
  StepIsCounted (ready state) past = Proved state past
  StepIsCounted (waiting w) past = IsCounted w past

  -- From the trace before the state was read to the one in which it was seen.
  module _ {old past : List Event} (g : Since old past) where
    kept :
        (n : ℕ) (w : Waiting) (accepted : ℤ) (state : Record)
        → accepted ≡ pos n
        → IsCounted w old
        → Row n state past
        → IsCounted (record w { prior = some state; accepted = accepted }) past
    kept n w accepted state e c row = record {
      begun = Extension-trans c.begun g;
      known = Known-grows g w.expected_instance c.known;
      counted = (n, past, e, row, same);
    }

    first_accepted-IsCounted :
        (w : Waiting) (state : Record)
        → IsCounted w old
        → Row 1 state past
        → StepIsCounted (first_accepted required w state) past
    unfolding first_accepted
    first_accepted-IsCounted w state c row = elim (Bool-cases (leb_ℤ required (pos 1))) [
      | inl e ↦ rw e (record { count = 1; enough = ground arith; row = row })
      | inr e ↦ rw e (kept 1 w (pos 1) state refl c row)
    ]

    add_one : (n : ℕ) (z : ℤ) → z ≡ pos n → z +ℤ pos 1 ≡ pos (suc n)
    unfolding ◌+ℤ◌
    add_one n z e = rw e (ground arith)

    next_accepted-IsCounted :
        (n : ℕ) (w : Waiting) (state : Record)
        → w.accepted ≡ pos n
        → IsCounted w old
        → Row (suc n) state past
        → StepIsCounted (next_accepted required w state) past
    unfolding next_accepted
    next_accepted-IsCounted n w state e c row =
        rw (add_one n w.accepted e) (elim (Bool-cases (leb_ℤ required (pos (suc n)))) [
          | inl t ↦ rw t (record { count = suc n; enough = ground arith; row = row })
          | inr t ↦ rw t (kept (suc n) w (pos (suc n)) state refl c row)
        ])

    abbrev spaced_step : Waiting → Record → ℤ → ℤ → Step
    spaced_step w state elapsed interval =
        if leb_ℤ interval elapsed then next_accepted required w state else waiting w

    abbrev later_step : Waiting → Record → Record → Bool → Result Step
    later_step w prior state same_sequence =
        if same_sequence then ok (waiting w) else spaced_accepted control required w prior state

    -- The state was seen after each trace that is older than its read.
    abbrev pub SeenAfter : Record → Type 0
    SeenAfter state =
        (since : List Event)
        → Since since old
        → IsSeen start control specification stack_id since state past

    spaced_accepted-IsCounted :
        (n : ℕ) (w : Waiting) (prior state : Record) (earlier : List Event) (step : Step)
        → w.accepted ≡ pos n
        → IsCounted w old
        → Row n prior earlier
        → Since earlier old
        → SeenAfter state
        → same_sequence prior state ≡ ok false
        → spaced_accepted control required w prior state ≡ ok step
        → StepIsCounted step past
    unfolding spaced_accepted
    spaced_accepted-IsCounted n w prior state earlier step e c row before good other h =
        let (elapsed, elapsed_is, h') =
          bind_ok (elapsed_since prior state)
            (λ elapsed. int_item control "heartbeat_interval_seconds" >>= λ interval.
              ok (spaced_step w state elapsed interval))
            h in
        let (interval, interval_is, h'') =
          bind_ok (int_item control "heartbeat_interval_seconds")
            (λ interval. ok (spaced_step w state elapsed interval)) h' in
        subst (λ x. StepIsCounted x past) {x = spaced_step w state elapsed interval} (ok_inj h'')
          (elim (Bool-cases (leb_ℤ interval elapsed)) [
            | inl t ↦ rw t (
                next_accepted-IsCounted n w state e c (
                  later n prior state earlier past row (good earlier before) (record {
                    elapsed = elapsed;
                    interval = interval;
                    other_sequence = other;
                    elapsed_is = elapsed_is;
                    interval_is = interval_is;
                    spaced = ground arith;
                  })))
            | inr t ↦ rw t (IsCounted-grows g w c)
          ])

    later_accepted-IsCounted :
        (w : Waiting) (prior state : Record) (step : Step)
        → w.prior ≡ some prior
        → IsCounted w old
        → SeenAfter state
        → later_accepted control required w prior state ≡ ok step
        → StepIsCounted step past
    unfolding later_accepted
    later_accepted-IsCounted w prior state step p c good h =
        let (same_number, same_is, h') =
          bind_ok (same_sequence prior state) (later_step w prior state) h in
        let (n, earlier, e, row, before) = subst (λ o. Counted o w.accepted old) p c.counted in
        elim (Bool-cases same_number) [
          | inl t ↦
              subst (λ x. StepIsCounted x past) {x = waiting w}
                (ok_inj (subst (λ b. later_step w prior state b ≡ ok step) t h'))
                (IsCounted-grows g w c)
          | inr f ↦
              spaced_accepted-IsCounted n w prior state earlier step e c row before good
                (same_is ∙ ap ok f) (subst (λ b. later_step w prior state b ≡ ok step) f h')
        ]

    pub accept-IsCounted :
        (w : Waiting) (state : Record) (step : Step)
        → IsCounted w old
        → SeenAfter state
        → accept control required w state ≡ ok step
        → StepIsCounted step past
    unfolding accept accept_after
    accept-IsCounted w state step c good h = from w.prior refl h
      where
        from :
            (prior : Option Record)
            → w.prior ≡ prior
            → accept_after control required w prior state ≡ ok step
            → StepIsCounted step past
        from none p h' =
            subst (λ x. StepIsCounted x past) (ok_inj h')
              (first_accepted-IsCounted w state c (first state past (good start c.begun)))
        from (some prior) p h' = later_accepted-IsCounted w prior state step p c good h'
