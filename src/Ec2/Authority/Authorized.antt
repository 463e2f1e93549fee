-- ===== src/Ec2/Authority/Authorized.antt =====
-- What the tests of `retire_predecessor` establish of CURRENT.
use cloud_glider.Prelude.Lists.{All}
use cloud_glider.Prelude.{
  not-false, sym, subst, String, true, false, not, ◌||◌, Option, none, some, [], ◌∷◌, ◌≡◌, refl, ap,
  ◌∙◌, ◌⊎◌, inl, inr, arith, Bool-cases,
}
use cloud_glider.Prelude.Int.{ℤ, pos, ◌+ℤ◌, ◌≤ℤ◌, ◌<ℤ◌, leb_ℤ}
use cloud_glider.Python.Text.{format_06d_int}
use cloud_glider.Python.Result.{ok, raise_if_ok, bind_ok, then_ok, ok_inj}
use cloud_glider.Python.Dict.{Dict, lookup}
use cloud_glider.Python.Value.{
  Plain, null, bool, num, text, Value, plain, list, dict, Record, value_eq, as_number, item, get,
  str, flag, is_true,
}
use cloud_glider.Python.Items.{item-ok}
use cloud_glider.Daemon.Control.Approved.{Says}
use cloud_glider.Ec2.Session.{Ec2Daemon}
use cloud_glider.Ec2.Specification.{control_fingerprint}
use cloud_glider.Ec2.Ownership.{generation_number}
use cloud_glider.Ec2.Authority.{
  continuation_status, or_null, proof_matches, is_int, is_proof, expected_proof, check_authority,
}

-- The entry of the proof is there with a value equal to the given one.
abbrev pub Proves : Dict Plain → String → Value → Type 0
Proves proof k v = value_eq (or_null (lookup k proof)) v ≡ true

module _ {W : Type 0} (d : Ec2Daemon W) where
  open d use {config, gateway}

  -- CURRENT authorizes the retirement, for this control record: it names the predecessor and the handoff,
  -- carries the record's fingerprint, says how far the continuation was tried, and holds the proof that
  -- this instance made for it.
  pub record IsAuthorized (control current : Record) : Type 0 where
    pub predecessor : Says current "predecessor_instance_id" (str config.predecessor_instance_id)
    pub handoff : Says current "handoff_token" (str config.handoff_token)
    pub authorized : get "retirement_authorized" current ≡ flag true
    pub digest : String
    pub digest_is : control_fingerprint gateway.sha256_hex control ≡ ok digest
    pub same_control : Says current "handoff_control_sha256" (str digest)
    pub number : ℤ
    pub number_is : generation_number d ≡ ok number
    pub limit : ℤ
    pub limit_is : as_number (get "max_generation" control) ≡ ok limit
    pub status : String
    pub status_is :
        ((limit ≤ℤ number) × (status ≡ "BOUNDARY"))
        ⊎ ((number <ℤ limit) × (status ≡ "DRY_RUN_PASSED"))
    pub continued : Says current "continuation_status" (str status)
    pub next : Says current "continuation_generation" (str (format_06d_int (number +ℤ pos 1)))
    pub proof : Dict Plain
    pub proof_is : get "functional_readiness" current ≡ dict proof
    pub proved_at : ℤ
    pub timed : lookup "proved_at_epoch" proof ≡ some (num proved_at)
    pub schema : Proves proof "schema_version" (str "1")
    pub producer : Proves proof "producer_instance_id" (str gateway.instance_id)
    pub proof_token : Proves proof "handoff_token" (str config.handoff_token)
    pub proof_control : Proves proof "control_sha256" (get "handoff_control_sha256" current)
    pub proof_generation :
        Proves proof "continuation_generation" (get "continuation_generation" current)
    pub proof_status : Proves proof "continuation_status" (str status)

  true_is : (v : Value) → is_true v ≡ true → v ≡ flag true
  true_is (plain (bool true)) e = refl
  true_is (plain (bool false)) e = cc
  true_is (plain null) e = cc
  true_is (plain (num n)) e = cc
  true_is (plain (text s)) e = cc
  true_is (list l) e = cc
  true_is (dict p) e = cc

  a_proof :
      (expected : Record) (v : Value)
      → is_proof expected v ≡ true
      → (proof : Dict Plain) × (v ≡ dict proof)
        × ((n : ℤ) × (lookup "proved_at_epoch" proof ≡ some (num n)))
        × (proof_matches expected proof ≡ true)
  unfolding is_proof
  a_proof expected (dict proof) e =
      (proof, refl, at (lookup "proved_at_epoch" proof) (ground arith), ground arith)
    where
      at : (o : Option Plain) → is_int o ≡ true → (n : ℤ) × (o ≡ some (num n))
      at (some (num n)) h = (n, refl)
      at (some null) h = cc
      at (some (bool b)) h = cc
      at (some (text s)) h = cc
      at none h = cc
  a_proof expected (plain p) e = cc
  a_proof expected (list l) e = cc

  status_cases :
      (number limit : ℤ)
      → ((limit ≤ℤ number) × (continuation_status number limit ≡ "BOUNDARY"))
        ⊎ ((number <ℤ limit) × (continuation_status number limit ≡ "DRY_RUN_PASSED"))
  status_cases number limit = elim (Bool-cases (leb_ℤ limit number)) [
    | inl e ↦ inl (ground arith, rw e refl)
    | inr e ↦ inr (ground arith, rw e refl)
  ]

  proof_matches-All :
      (expected : Record) (proof : Dict Plain)
      → proof_matches expected proof ≡ true
      → All (λ e. Proves proof e.0 e.1) expected
  unfolding proof_matches
  proof_matches-All [] proof h = tt
  proof_matches-All ((k, v) ∷ expected) proof h =
      (ground arith, proof_matches-All expected proof (ground arith))

  abbrev AllProve : Dict Plain → Record → Type 0
  AllProve proof expected = All (λ e. Proves proof e.0 e.1) expected

  abbrev entries : Value → Value → String → Record
  entries digest' next' status =
      ("schema_version", str "1")
      ∷ ("producer_instance_id", str gateway.instance_id)
      ∷ ("handoff_token", str config.handoff_token)
      ∷ ("control_sha256", digest')
      ∷ ("continuation_generation", next')
      ∷ ("continuation_status", str status)
      ∷ []

  -- The equations that the tests leave, put together.
  assemble :
      (control current : Record) (digest : String) (number limit : ℤ)
      (ceiling digest' next' : Value)
      → (not (value_eq (get "predecessor_instance_id" current) (str config.predecessor_instance_id))
          || not (value_eq (get "handoff_token" current) (str config.handoff_token))
          || not (is_true (get "retirement_authorized" current)))
        ≡ false
      → control_fingerprint gateway.sha256_hex control ≡ ok digest
      → not (value_eq (get "handoff_control_sha256" current) (str digest)) ≡ false
      → generation_number d ≡ ok number
      → item control "max_generation" ≡ ok ceiling
      → as_number ceiling ≡ ok limit
      → (not (value_eq (get "continuation_status" current) (str (continuation_status number limit)))
          || not (
              value_eq
                (get "continuation_generation" current)
                (str (format_06d_int (number +ℤ pos 1)))))
        ≡ false
      → item current "handoff_control_sha256" ≡ ok digest'
      → item current "continuation_generation" ≡ ok next'
      → (proof : Dict Plain) → get "functional_readiness" current ≡ dict proof
      → ((n : ℤ) × (lookup "proved_at_epoch" proof ≡ some (num n)))
      → AllProve proof (entries digest' next' (continuation_status number limit))
      → IsAuthorized control current
  assemble control current digest number limit ceiling digest' next' own digest_is unchanged
        number_is ceiling_is limit_is on digest'_is next'_is proof proof_is timed all =
      let (schema, (producer, (token, (digest_too, (next_too, (status_too, u)))))) = all in
      record {
        predecessor = ground (arith, own);
        handoff = ground (arith, own);
        authorized = true_is _ (ground (arith, own));
        digest = digest;
        digest_is = digest_is;
        same_control = ground (arith, unchanged);
        number = number;
        number_is = number_is;
        limit = limit;
        limit_is = ap as_number (item-ok "max_generation" control ceiling_is) ∙ limit_is;
        status = continuation_status number limit;
        status_is = status_cases number limit;
        continued = ground (arith, on);
        next = ground (arith, on);
        proof = proof;
        proof_is = proof_is;
        proved_at = timed.0;
        timed = timed.1;
        schema = schema;
        producer = producer;
        proof_token = token;
        proof_control =
            subst (Proves proof "control_sha256")
              (sym (item-ok "handoff_control_sha256" current digest'_is)) digest_too;
        proof_generation =
            subst (Proves proof "continuation_generation")
              (sym (item-ok "continuation_generation" current next'_is)) next_too;
        proof_status = status_too;
      }

  expected_proof-ok :
      (current expected : Record) (status : String)
      → expected_proof d current status ≡ ok expected
      → (digest' : Value) × (next' : Value) × (item current "handoff_control_sha256" ≡ ok digest')
        × (item current "continuation_generation" ≡ ok next')
        × (entries digest' next' status ≡ expected)
  unfolding expected_proof
  expected_proof-ok current expected status h =
      let (digest', digest'_is, h9) = bind_ok (item current "handoff_control_sha256") _ h in
      let (next', next'_is, h10) = bind_ok (item current "continuation_generation") _ h9 in
      (digest', next', digest'_is, next'_is, ok_inj h10)

  pub check_authority-IsAuthorized :
      (control current : Record)
      → check_authority d control current ≡ ok tt
      → IsAuthorized control current
  unfolding check_authority
  check_authority-IsAuthorized control current h =
      let (owned, h1) = then_ok _ _ h in
      let (digest, digest_is, h2) = bind_ok (control_fingerprint gateway.sha256_hex control) _ h1 in
      let (unchanged, h3) = then_ok _ _ h2 in
      let (number, number_is, h4) = bind_ok (generation_number d) _ h3 in
      let (ceiling, ceiling_is, h5) = bind_ok (item control "max_generation") _ h4 in
      let (limit, limit_is, h6) = bind_ok (as_number ceiling) _ h5 in
      let (tried, h7) = then_ok _ _ h6 in
      let (expected, expected_is, h8) = bind_ok (expected_proof d current _) _ h7 in
      finished digest number limit ceiling expected (raise_if_ok _ _ owned) digest_is
        (raise_if_ok _ _ unchanged) number_is ceiling_is limit_is (raise_if_ok _ _ tried)
        expected_is (not-false _ (raise_if_ok _ _ h8))
    where
      finished :
          (digest : String) (number limit : ℤ) (ceiling : Value) (expected : Record)
          → (not (
                value_eq
                  (get "predecessor_instance_id" current)
                  (str config.predecessor_instance_id))
              || not (value_eq (get "handoff_token" current) (str config.handoff_token))
              || not (is_true (get "retirement_authorized" current)))
            ≡ false
          → control_fingerprint gateway.sha256_hex control ≡ ok digest
          → not (value_eq (get "handoff_control_sha256" current) (str digest)) ≡ false
          → generation_number d ≡ ok number
          → item control "max_generation" ≡ ok ceiling
          → as_number ceiling ≡ ok limit
          → (not (
                value_eq
                  (get "continuation_status" current)
                  (str (continuation_status number limit)))
              || not (
                  value_eq
                    (get "continuation_generation" current)
                    (str (format_06d_int (number +ℤ pos 1)))))
            ≡ false
          → expected_proof d current (continuation_status number limit) ≡ ok expected
          → is_proof expected (get "functional_readiness" current) ≡ true
          → IsAuthorized control current
      finished digest number limit ceiling expected own digest_is unchanged number_is ceiling_is
            limit_is on expected_is good =
          let (digest', next', digest'_is, next'_is, same) =
            expected_proof-ok current expected (continuation_status number limit) expected_is in
          let (proof, proof_is, timed, matches) =
            a_proof expected (get "functional_readiness" current) good in
          assemble control current digest number limit ceiling digest' next' own digest_is unchanged
            number_is ceiling_is limit_is on digest'_is next'_is proof proof_is timed
            (proof_matches-All (entries digest' next' (continuation_status number limit)) proof
              (subst (λ x. proof_matches x proof ≡ true) (sym same) matches))
