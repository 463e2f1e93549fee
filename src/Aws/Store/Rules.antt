-- ===== src/Aws/Store/Rules.antt =====
-- Rules for the calls of aws_sdk.py that read and write the tables.
use cloud_glider.Prelude.{String, List, ◌≡◌, refl, ◌∙◌, subst, sym, inl}
use cloud_glider.Python.Result.{Result, ok, err}
use cloud_glider.Python.Hoare.{Ends, Triple, Triple-bind, Triple-lift, Ends-mono}
use cloud_glider.Aws.Dynamo.{Write}
use cloud_glider.Aws.Services.{
  Answer, answered, client_error, transport_error, unexpected, interrupted, Request, Services,
}
use cloud_glider.Aws.Client.{
  Client, AwsSdkGateway, Reply, replied, refused, call, call_allowing, allowing, requiring,
  get_record,
}
use cloud_glider.Aws.Store.{Store, Done, Transacted, Documented}
use cloud_glider.Aws.Store.Places.{Keeps, Done-Keeps, Perhaps, Perhaps-Keeps}

-- What holds of the state is there for either end.
Ends-both : {S A : Type 0} (P : S → Type 0) (r : Result A) (s : S) → P s → Ends (λ a. P) P r s
Ends-both P (ok a) s p = p
Ends-both P (err e) s p = p

-- A reply means that the transaction was done, a refusal that it was not.
abbrev pub Told : List Write → Store → Reply (Unit {0}) → Store → Type 0
Told ops s (replied u) t = Done ops s t
Told ops s (refused code message reasons) t = t ≡ s

module _ {W : Type 0} {services : Services W} (dynamo : Documented services) where
  open dynamo use {stored}

  -- The tables of a client, as a property of them.
  abbrev pub In : (Store → Type 0) → Client W → Type 0
  In I c = I (stored c.world)

  allowing-Told :
      (service operation : String) (ops : List Write) (s t : Store) (a : Answer (Unit {0}))
      (c : Client W)
      → stored c.world ≡ t
      → Transacted ops s t a
      → Ends
          (λ r c. Told ops s r (stored c.world))
          (In (Perhaps ops s))
          (allowing service operation a)
          c
  unfolding allowing
  allowing-Told service operation ops s t (answered u) c e h = subst (Done ops s) (sym e) h
  allowing-Told service operation ops s t (client_error f) c e h = e ∙ h
  allowing-Told service operation ops s t (transport_error kind message) c e h =
      subst (Perhaps ops s) (sym e) h
  allowing-Told service operation ops s t unexpected c e h = subst (Perhaps ops s) (sym e) h
  allowing-Told service operation ops s t (interrupted kind) c e h = subst (Perhaps ops s) (sym e) h

  -- `requiring` says no more than whether the transaction was done.
  requiring-Told :
      (service operation : String) (ops : List Write) (s t : Store) (a : Answer (Unit {0}))
      (c : Client W)
      → stored c.world ≡ t
      → Transacted ops s t a
      → Ends (λ u. In (Done ops s)) (In (Perhaps ops s)) (requiring service operation a) c
  unfolding requiring
  requiring-Told service operation ops s t (answered u) c e h = subst (Done ops s) (sym e) h
  requiring-Told service operation ops s t (client_error f) c e h = inl (e ∙ h)
  requiring-Told service operation ops s t (transport_error kind message) c e h =
      subst (Perhaps ops s) (sym e) h
  requiring-Told service operation ops s t unexpected c e h = subst (Perhaps ops s) (sym e) h
  requiring-Told service operation ops s t (interrupted kind) c e h =
      subst (Perhaps ops s) (sym e) h

  -- A request that does these writes or none.
  abbrev pub Writes : List Write → Request W (Unit {0}) → Type 0
  Writes ops request = (w : W) → Transacted ops (stored w) (stored (request w).1) (request w).0

  pub call_allowing-Told :
      (service operation : String) (ops : List Write) (request : Request W (Unit {0})) (s : Store)
      → Writes ops request
      → Triple
          (In (λ t. t ≡ s))
          (call_allowing service operation request)
          (λ r c. Told ops s r (stored c.world))
          (In (Perhaps ops s))
  unfolding call_allowing
  call_allowing-Told service operation ops request s h = record {
    at = λ c p.
        let (a, w) = request c.world in
        allowing-Told service operation ops s (stored w) a _ refl
          (subst (λ r. Transacted ops r (stored w) a) p (h c.world));
  }

  pub call-Done :
      (service operation : String) (ops : List Write) (request : Request W (Unit {0})) (s : Store)
      → Writes ops request
      → Triple
          (In (λ t. t ≡ s))
          (call service operation request)
          (λ u. In (Done ops s))
          (In (Perhaps ops s))
  unfolding call
  call-Done service operation ops request s h = record {
    at = λ c p.
        let (a, w) = request c.world in
        requiring-Told service operation ops s (stored w) a _ refl
          (subst (λ r. Transacted ops r (stored w) a) p (h c.world));
  }

  -- A call of another service leaves the tables.
  pub call-keeps :
      {A : Type 0} (service operation : String) (request : Request W A) (I : Store → Type 0)
      → ((w : W) → stored (request w).1 ≡ stored w)
      → Triple (In I) (call service operation request) (λ a. In I) (In I)
  unfolding call
  call-keeps service operation request I h = record {
    at = λ c p.
        let (a, w) = request c.world in
        Ends-both (In I) (requiring service operation a) _ (subst I (sym (h c.world)) p);
  }

  pub get_record-keeps :
      (self : AwsSdkGateway) (pk sk : String) (I : Store → Type 0)
      → Triple (In I) (get_record services self pk sk) (λ r. In I) (In I)
  unfolding get_record
  get_record-keeps self pk sk I =
      Triple-bind (λ r. In I) _ _
        (call-keeps "dynamodb" "get_item" _ I (λ w. (dynamo.reading _ w).1))
        (λ found. Triple-lift _ (λ r e c p. p) (λ c p. p))

  Told-Keeps :
      (I : Store → Type 0) (ops : List Write) (s t : Store) (r : Reply (Unit {0}))
      → Keeps I ops
      → I s
      → Told ops s r t
      → I t
  Told-Keeps I ops s t (replied u) k p h = Done-Keeps I ops s t k p h
  Told-Keeps I ops s t (refused code message reasons) k p h = subst I (sym h) p

  -- A transaction keeps what its writes keep, however its call ends.
  pub call_allowing-Keeps :
      (service operation : String) (ops : List Write) (request : Request W (Unit {0}))
      (I : Store → Type 0)
      → Writes ops request
      → Keeps I ops
      → Triple (In I) (call_allowing service operation request) (λ r. In I) (In I)
  call_allowing-Keeps service operation ops request I h k = record {
    at = λ c p.
        let s = stored c.world in
        let t = call_allowing-Told service operation ops request s h in
        Ends-mono _ _ _ _ (call_allowing service operation request c).0
          (call_allowing service operation request c).1 (λ r q. Told-Keeps I ops s _ r k p q)
          (λ q. Perhaps-Keeps I ops s _ k p q) (t.at c refl);
  }

  pub call-Keeps :
      (service operation : String) (ops : List Write) (request : Request W (Unit {0}))
      (I : Store → Type 0)
      → Writes ops request
      → Keeps I ops
      → Triple (In I) (call service operation request) (λ u. In I) (In I)
  call-Keeps service operation ops request I h k = record {
    at = λ c p.
        let s = stored c.world in
        let t = call-Done service operation ops request s h in
        Ends-mono _ _ _ _ (call service operation request c).0 (call service operation request c).1
          (λ u q. Done-Keeps I ops s _ k p q) (λ q. Perhaps-Keeps I ops s _ k p q) (t.at c refl);
  }
