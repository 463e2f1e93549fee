-- ===== src/Daemon/Exit/Reads.antt =====
-- What a trace of daemon.py shows as last read: the control record and CURRENT.
use cloud_glider.Prelude.{[], ◌∙◌, ◌≡◌, refl, Bool, Option, none, some, List, ◌∷◌}
use cloud_glider.Python.Result.{Result, ok, err}
use cloud_glider.Python.Value.{Record}
use cloud_glider.Python.Exec.{Exec, lift, ◌>>=◌}
use cloud_glider.Daemon.Trace.{Extension, same, more}
use cloud_glider.Daemon.Session.{control_read, current_read, Event, Session}
use cloud_glider.Daemon.Gives.{Any}
use cloud_glider.Python.Hoare.{Ends, Triple, Triple-lift, Triple-bind}

-- What the last read of the control record returned, and the last read of CURRENT.
abbrev pub last_control : List Event → Option (Record × Bool)
last_control [] = none
last_control (control_read (ok reading) ∷ past) = some reading
last_control (control_read (err e) ∷ past) = none
last_control (event ∷ past) = last_control past

abbrev pub last_current : List Event → Option Record
last_current [] = none
last_current (current_read (ok current) ∷ past) = some current
last_current (current_read (err e) ∷ past) = none
last_current (event ∷ past) = last_current past

-- Neither of these reads.
abbrev pub IsMute : Event → Type 0
IsMute (control_read result) = ⊥
IsMute (current_read result) = ⊥
IsMute _ = Unit

pub mute-last_control :
    (e : Event) (past : List Event) → IsMute e → last_control (e ∷ past) ≡ last_control past
mute-last_control (control_read result) past h = absurd h
mute-last_control event past h = refl

pub mute-last_current :
    (e : Event) (past : List Event) → IsMute e → last_current (e ∷ past) ≡ last_current past
mute-last_current (current_read result) past h = absurd h
mute-last_current event past h = refl

pub Extension-last_control :
    {old new : List Event} → Extension IsMute old new → last_control new ≡ last_control old
Extension-last_control same = refl
Extension-last_control (more {e = event} {new = past} h rest) =
    mute-last_control event past h ∙ Extension-last_control rest

pub Extension-last_current :
    {old new : List Event} → Extension IsMute old new → last_current new ≡ last_current old
Extension-last_current same = refl
Extension-last_current (more {e = event} {new = past} h rest) =
    mute-last_current event past h ∙ Extension-last_current rest

pub kept :
    {S A : Type 0} (P : S → Type 0) (r : Result A) (s : S) → P s → Ends (λ a. P) (λ u. Unit {0}) r s
kept P (ok a) s p = p
kept P (err e) s p = tt

-- What follows on a value may rely on where it came from.
pub lifted :
    {W A B : Type 0} {P : Session W → Type 0} {Q : B → Session W → Type 0} (r : Result A)
    {f : A → Exec (Session W) B}
    → ((a : A) → r ≡ ok a → Triple P (f a) Q Any)
    → Triple P (lift r >>= f) Q Any
lifted {P = P} r h =
    Triple-bind (λ a s. P s × (r ≡ ok a)) _ _ (Triple-lift r (λ a e s p. (p, e)) (λ s p. tt))
      λ a. record { at = λ s p. (h a p.1).at s p.0 }
