-- ===== src/Family/Cycle/Guard/Steps.antt =====
-- The end of `FamilyDaemon.cycle`: the waits and the retirement stand where they may.
use cloud_glider.Prelude.{Bool, true, false, ◌≡◌, refl, ap, ◌∙◌, List, ◌∷◌, ◌⊎◌, inr}
use cloud_glider.Python.Result.{Failure, ok}
use cloud_glider.Python.Exec.{Exec, pure, raise_if, ◌>>=◌}
use cloud_glider.Family.Session.{
  Event, ticked, retired, parent_gone, retirement_authorized, Session, FamilyDaemon, call,
}
use cloud_glider.Family.Cycle.{Outcome, retiring}
use cloud_glider.Family.Cycle.{timed_out, retire_if_authorized, finish, waiting_for_continuation}
use cloud_glider.Family.Cycle.Guard.{JustGo, IsRetiring, IsOrphan, IsAuthorized}
use cloud_glider.Family.Cycle.Guard.Rules.{
  Step, Free, Ended, Going, call-Step, bind-Step, now-Step, gets-Step, pure-Step, raise_if-Step,
  if-Step, check-Step, weaken, unless_halted-Step,
}

module _ {W : Type 0} (d : FamilyDaemon W) where
  open d use {gateway, children}

  pub going : {R : List Event → Type 0} (past : List Event) → Going d R past → JustGo past
  going past g = record { older = g.older; go = g.go }

  -- Nothing is known, and nothing needs to be.
  pub forget :
      {R : List Event → Type 0} {A : Type 0} {Q : A → List Event → Type 0} {m : Exec (Session W) A}
      → Step d (Free d) m Q
      → Step d R m Q
  forget t = weaken d (λ past r. tt) t

  pub timed_out-Step :
      {R : List Event → Type 0} (strict : Bool) → Step d R (timed_out d strict) (λ b. R)
  unfolding timed_out
  timed_out-Step {R} strict =
      bind-Step d (λ a. R) _ _ (now-Step d)
        λ now.
          bind-Step d (λ a. R) _ _ (gets-Step d _)
            λ started.
              bind-Step d (λ a. R) _ _ (check-Step d _)
                λ begun.
                  bind-Step d (λ a. R) _ _ (check-Step d _) λ timeout. pure-Step d _ (λ past r. r)

  -- A wait that is not over, or the violation.
  pub wait-Step :
      {R : List Event → Type 0} (strict : Bool) (e : Failure) (o : Outcome)
      → ((past : List Event) → Ended d o past)
      → Step d R (timed_out d strict >>= λ late. raise_if late e >>= λ u. pure o) (Ended d)
  wait-Step {R} strict e o h =
      bind-Step d (λ a. R) _ _ (timed_out-Step strict)
        λ late.
          bind-Step d (λ u. R) _ _ (raise_if-Step d late e) λ u. pure-Step d o (λ past r. h past)

  pub retire-Step :
      {R : List Event → Type 0}
      → ((past : List Event) → R past → IsRetiring past ⊎ IsAuthorized past)
      → Step d R (call retired gateway.retire_self >>= λ u. pure retiring) (Ended d)
  retire-Step {R} h =
      bind-Step d (λ u past. (older : List Event) × (past ≡ retired (ok tt) ∷ older)) _ _
        (call-Step d _ _ _ (λ past r p. h past p) (λ past a p. (past, refl)))
        λ u. pure-Step d _ (λ past p. p)

  retire_if_authorized-Step :
      Step d
        (Going d (λ past. (older : List Event) × (past ≡ parent_gone (ok true) ∷ older)))
        (retire_if_authorized d)
        (Ended d)
  unfolding retire_if_authorized
  retire_if_authorized-Step = weaken d orphan (
      bind-Step d (λ now. IsOrphan) _ _ (now-Step d)
        λ now.
          bind-Step d Authorized _ _ (call-Step d Authorized _ _ (λ past r p. p) authorize)
            λ authorized.
              if-Step d authorized _ _
                (λ e. retire-Step (λ past p. inr (granted authorized e past p)))
                (λ e. forget (wait-Step false _ waiting_for_continuation (λ past. tt))))
    where
      orphan :
          (past : List Event)
          → Going d (λ past'. (older : List Event) × (past' ≡ parent_gone (ok true) ∷ older)) past
          → IsOrphan past
      orphan past g = record { older = g.held.0; seen = g.go ∙ ap (λ l. ticked false ∷ l) g.held.1 }

      Authorized : Bool → List Event → Type 0
      Authorized b past =
          (older : List Event) × IsOrphan older × (past ≡ retirement_authorized (ok b) ∷ older)

      authorize :
          (past : List Event) (b : Bool)
          → IsOrphan past
          → Authorized b (retirement_authorized (ok b) ∷ past)
      authorize past b p = (past, p, refl)

      granted : (b : Bool) → b ≡ true → (past : List Event) → Authorized b past → IsAuthorized past
      granted b e past a = record {
        older = a.0;
        orphan = a.1;
        authorized = a.2 ∙ ap (λ c. retirement_authorized (ok c) ∷ a.0) e;
      }

  pub finish-Step : {R : List Event → Type 0} → Step d R (finish d) (Ended d)
  unfolding finish
  finish-Step =
      bind-Step d Gone _ _ (call-Step d Gone _ _ (λ past r p. tt) (λ past b p. (past, refl)))
        λ gone.
          if-Step d gone _ _
            (λ e. weaken d (seen gone e) (unless_halted-Step d _ retire_if_authorized-Step))
            (λ e. pure-Step d _ (λ past p. tt))
    where
      Gone : Bool → List Event → Type 0
      Gone b past = (older : List Event) × (past ≡ parent_gone (ok b) ∷ older)

      seen :
          (b : Bool)
          → b ≡ true
          → (past : List Event) → Gone b past
          → (older : List Event) × (past ≡ parent_gone (ok true) ∷ older)
      seen b e past g = (g.0, g.1 ∙ ap (λ c. parent_gone (ok c) ∷ g.0) e)
