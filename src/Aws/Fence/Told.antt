-- ===== src/Aws/Fence/Told.antt =====
-- What the result of `_fenced_write` says of the tables (aws_sdk.py).
use cloud_glider.Prelude.{
  String, Bool, true, false, not, Option, List, [], ◌∷◌, ◌≡◌, refl, inl, sym, subst, ◌==◌,
}
use cloud_glider.Python.Hoare.{
  Triple, Triple-bind, Triple-mono, Triple-pure, Triple-raise, Triple-if, Ends-mono,
}
use cloud_glider.Aws.Dynamo.{Write}
use cloud_glider.Aws.Services.{Services}
use cloud_glider.Aws.Client.{Client, AwsSdkGateway, Reply, replied, refused}
use cloud_glider.Aws.Fence.{
  lifecycle_check, fenced_write, written, cancelled, confirmed, codes_of, confirmed_condition,
}
use cloud_glider.Aws.Store.{Store, Done, Documented}
use cloud_glider.Aws.Store.Places.{Keeps, Done-Keeps, Perhaps, Perhaps-Keeps}
use cloud_glider.Aws.Store.Rules.{In, Told, call_allowing-Told, get_record-keeps}

module _ {W : Type 0} {services : Services W} (dynamo : Documented services) (self : AwsSdkGateway)
    (operation : Write) (conflict_code : Option String) where
  open dynamo use {stored}

  abbrev pub fenced : List Write
  fenced = lifecycle_check services self false ∷ operation ∷ []

  -- `True` means that the write was done, and `False`, which is returned only where the caller asks for
  -- it, that it was not.
  abbrev pub Fenced : Bool → Store → Bool → Store → Type 0
  Fenced return_conflict s true t = Done fenced s t
  Fenced return_conflict s false t = (t ≡ s) × (return_conflict ≡ true)

  abbrev At : Store → Client W → Type 0
  At s = In dynamo (λ t. t ≡ s)

  abbrev Unsure : Store → Client W → Type 0
  Unsure s = In dynamo (Perhaps fenced s)

  confirmed-raises :
      (return_conflict : Bool) (s : Store) (codes : List String)
      → Triple
          (At s)
          (confirmed services self conflict_code codes)
          (λ r c. Fenced return_conflict s r (stored c.world))
          (Unsure s)
  unfolding confirmed
  confirmed-raises return_conflict s codes =
      Triple-bind (λ r. At s) _ _
        (Triple-mono (get_record-keeps dynamo self _ _ (λ t. t ≡ s)) (λ r c p. p) (λ c p. inl p))
        (λ lifecycle. Triple-raise _ (λ c p. inl p))

  cancelled-Fenced :
      (return_conflict : Bool) (s : Store) (codes : List String)
      → Triple
          (At s)
          (cancelled services self conflict_code return_conflict codes)
          (λ r c. Fenced return_conflict s r (stored c.world))
          (Unsure s)
  unfolding cancelled
  cancelled-Fenced return_conflict s codes =
      Triple-if (not (confirmed_condition codes)) _ _ (λ e. Triple-raise _ (λ c p. inl p))
        (λ e.
          Triple-if return_conflict _ _ (λ asked. Triple-pure false (λ c p. (p, asked)))
            (λ asked. confirmed-raises return_conflict s codes))

  written-Fenced :
      (return_conflict : Bool) (s : Store) (r : Reply (Unit {0}))
      → Triple
          (λ c. Told fenced s r (stored c.world))
          (written services self conflict_code return_conflict r)
          (λ b c. Fenced return_conflict s b (stored c.world))
          (Unsure s)
  unfolding written
  written-Fenced return_conflict s (replied u) = Triple-pure true (λ c d. d)
  written-Fenced return_conflict s (refused code message reasons) =
      Triple-if (code == "TransactionCanceledException") _ _
        (λ e. cancelled-Fenced return_conflict s (codes_of reasons))
        (λ e. Triple-raise _ (λ c p. inl p))

  pub fenced_write-Fenced :
      (return_conflict : Bool) (s : Store)
      → Triple
          (At s)
          (fenced_write services self operation conflict_code return_conflict)
          (λ b c. Fenced return_conflict s b (stored c.world))
          (Unsure s)
  unfolding fenced_write
  fenced_write-Fenced return_conflict s =
      Triple-bind (λ r c. Told fenced s r (stored c.world)) _ _
        (call_allowing-Told dynamo _ _ fenced _ s (dynamo.transaction fenced))
        (written-Fenced return_conflict s)

  Fenced-Keeps :
      (return_conflict : Bool) (I : Store → Type 0) (s t : Store) (b : Bool)
      → Keeps I fenced
      → I s
      → Fenced return_conflict s b t
      → I t
  Fenced-Keeps return_conflict I s t true k p d = Done-Keeps I fenced s t k p d
  Fenced-Keeps return_conflict I s t false k p e = subst I (sym e.0) p

  -- A fenced write keeps what its two entries keep, however it ends.
  pub fenced_write-Keeps :
      (return_conflict : Bool) (I : Store → Type 0)
      → Keeps I fenced
      → Triple
          (In dynamo I)
          (fenced_write services self operation conflict_code return_conflict)
          (λ b. In dynamo I)
          (In dynamo I)
  fenced_write-Keeps return_conflict I k = record {
    at = λ c p.
        let s = stored c.world in
        let done = fenced_write services self operation conflict_code return_conflict c in
        Ends-mono _ _ _ _ done.0 done.1
          (λ b q. Fenced-Keeps return_conflict I s (stored done.1.world) b k p q)
          (λ q. Perhaps-Keeps I fenced s (stored done.1.world) k p q)
          ((fenced_write-Fenced return_conflict s).at c refl);
  }
