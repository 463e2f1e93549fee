-- ===== src/Aws/Store/Places.antt =====
-- Which item a write changes, and when a transaction keeps a property of the tables.
use cloud_glider.Prelude.{
  &&-split, eq_refl, eq_iff, ◌≢◌, if◌then◌else◌, arith, ◌&&◌, ◌==◌, inr, ◌⊎◌, inl, String, true,
  false, List, [], ◌∷◌, ◌≡◌, refl, ◌∙◌, subst, sym,
}
use cloud_glider.Prelude.Lists.{All}
use cloud_glider.Aws.Attribute.{Item}
use cloud_glider.Aws.Dynamo.{Key, Condition, Write, condition_check}
use cloud_glider.Aws.Store.{
  permits, result_of, Bool, Store, table_of, target_of, same_place, apply, apply_all, all_permit,
  Done,
}

-- The write leaves that item alone.
abbrev pub Spares : (table : String) → Key → Write → Type 0
Spares table key op = (s : Store) → apply op s table key ≡ s table key

pub Spares-elsewhere :
    (table : String) (key : Key) (op : Write)
    → same_place (table_of op) table (target_of op) key ≡ false
    → Spares table key op
unfolding apply
Spares-elsewhere table key op h s = rw h

other_table : (t u : String) (k j : Key) → t ≢ u → same_place t u k j ≡ false
unfolding same_place
other_table t u k j h = ground (arith, eq_iff t u)

other_key :
    (t u : String) (k j : Key) → (k.pk == j.pk && k.sk == j.sk) ≡ false → same_place t u k j ≡ false
unfolding same_place
other_key t u k j h = ground arith

own_place : (t : String) (k : Key) → same_place t t k k ≡ true
unfolding same_place
own_place t k = ground (arith, eq_refl t, eq_refl k.pk, eq_refl k.sk)

-- A write leaves its result where it is aimed at.
pub apply-target :
    (op : Write) (s : Store)
    → apply op s (table_of op) (target_of op) ≡ result_of op (s (table_of op) (target_of op))
unfolding apply
apply-target op s = rw (own_place (table_of op) (target_of op))

same_either_way {ℓ} : {A : Type ℓ} (t : Bool) (a : A) → (if t then a else a) ≡ a
same_either_way true a = refl
same_either_way false a = refl

-- A check changes nothing, not even what it reads. The key's table says where else it may stand.
pub Spares-check :
    (table here : String) (key at : Key) (p : Condition)
    → Spares table key (condition_check here at p)
unfolding apply
Spares-check table here key at p s = same_either_way (same_place here table at key) (s table key)

pub Spares-table :
    (table : String) (key : Key) (op : Write) → table_of op ≢ table → Spares table key op
Spares-table table key op h = Spares-elsewhere table key op (other_table _ _ _ _ h)

pub Spares-key :
    (table : String) (key : Key) (op : Write)
    → ((target_of op).pk == key.pk && (target_of op).sk == key.sk) ≡ false
    → Spares table key op
Spares-key table key op h = Spares-elsewhere table key op (other_key _ _ _ _ h)

pub apply_all-Spares :
    (ops : List Write) (s : Store) (table : String) (key : Key)
    → All (Spares table key) ops
    → apply_all ops s table key ≡ s table key
unfolding apply_all
apply_all-Spares [] s table key h = refl
apply_all-Spares (op ∷ ops) s table key h = apply_all-Spares ops (apply op s) table key h.1 ∙ h.0 s

-- A transaction that is done keeps the property.
abbrev pub Keeps : (Store → Type 0) → List Write → Type 0
Keeps I ops = (s : Store) → I s → all_permit ops s ≡ true → I (apply_all ops s)

-- A property of one item is kept by writes that spare it.
pub Keeps-Spares :
    (table : String) (key : Key) (P : Item → Type 0) (ops : List Write)
    → All (Spares table key) ops
    → Keeps (λ s. P (s table key)) ops
Keeps-Spares table key P ops h s p e = subst P (sym (apply_all-Spares ops s table key h)) p

pub Done-Keeps :
    (I : Store → Type 0) (ops : List Write) (s t : Store) → Keeps I ops → I s → Done ops s t → I t
Done-Keeps I ops s t k p d = subst I (sym d.1) (k s p d.0)

-- After a call whose end says nothing, the transaction may be done or not.
abbrev pub Perhaps : List Write → (before after : Store) → Type 0
Perhaps ops before after = (after ≡ before) ⊎ Done ops before after

pub Perhaps-Keeps :
    (I : Store → Type 0) (ops : List Write) (s t : Store)
    → Keeps I ops
    → I s
    → Perhaps ops s t
    → I t
Perhaps-Keeps I ops s t k p (inl e) = subst I (sym e) p
Perhaps-Keeps I ops s t k p (inr d) = Done-Keeps I ops s t k p d

-- A transaction permits where each of its entries does.
pub all_permit-cons :
    (op : Write) (ops : List Write) (s : Store)
    → all_permit (op ∷ ops) s ≡ true
    → (permits op (s (table_of op) (target_of op)) ≡ true) × (all_permit ops s ≡ true)
unfolding all_permit
all_permit-cons op ops s h = &&-split _ _ h
