-- ===== src/Tests/Deployments.antt =====
-- The theorems of Gates and Deployments at concrete inputs: an agent with two versions, of which `prod`
-- runs the first.
use rya.Prelude.{
  inl, inr, List, sym, ap, ◌∙◌, String, true, false, none, some, [], ◌∷◌, ◌≡◌, refl, ◌≢◌, ◌↔◌, ◌⊎◌,
  str_eq, eq_iff, arith,
}
use rya.Json.{bool, null, obj, end, field}
use rya.Errors.{Code, ok, err, e_version_in_use}
use rya.Store.{Store, empty}
use rya.Store.Docs.{Version, active, Environment, Attestation, evals}
use rya.Store.Table
use rya.Store.Reads.{policy_get}
use rya.Words.{strip, has_slash, unslashed}
use rya.Gates.Policy.{Gate, resolve_gate, gate_policy, coerce_gate, merged, known_gate}
use rya.Gates.Check.{
  check_promotion, result_of, require_promotion, enforce, checks_of, evals_passes, latest, enforced,
}
use rya.Gates.Exact.{Meets, check_promotion_exact}
use rya.Deployments.Invariant.{ArePointersLive, IsOwnKey}
use rya.Deployments.Steps.{DeployCall, promotes, retires, deploy_all, deploy_all-ArePointersLive}
use mathlib.Core.Option.{some-injective}
use rya.Deployments.Tables.{
  env_id, env_get, env_key, put_version, retired_version, pointed_at, env_set_current,
  new_environment,
}
use rya.Deployments.Actions.{
  Bundle, create_version, promote, rollback, retire, resolve_for_run, environment_name,
  require_version, promote_to, gated,
}
use rya.Deployments.Pointers.{Promoted, promote-Promoted}
use rya.Deployments.Rollback.{Lands}
use rya.Deployments.RoundTrip.{rollback-promote}
use rya.Deployments.Retirement.{Unused, retire_exact}

distinct : (a b : String) → str_eq a b ≡ false → a ≢ b
distinct a b h e = ground (arith, eq_iff a b)

abbrev version : String → Version
version i = record {
  id = i;
  agent = "mailer";
  bundle_hash = i;
  sdk_version = "1";
  entrypoint = "agent.py";
  lockfile = none;
  size_bytes = 10;
  file_count = 2;
  manifest = end;
  state = active;
  metadata = end;
  created_by = none;
  created_at = 5;
  retired_at = none;
}

abbrev prod : Environment
prod = record {
  key = "prod__mailer";
  name = "prod";
  agent = "mailer";
  current_version_id = some "ver_1";
  history = [];
  created_at = 5;
  updated_at = none;
  actor = none;
}

-- evals are required, and the run of the second version had no cases
abbrev vacuous : Attestation
vacuous = record {
  id = "att_1";
  version_id = "ver_2";
  created_at = 6;
  actor = none;
  bundle_hash = none;
  ok = true;
  evidence = evals 0 0 0 none false;
}

abbrev deployed : Store
deployed = record empty {
  versions = version "ver_1" ∷ version "ver_2" ∷ [];
  environments = prod ∷ [];
  attestations = vacuous ∷ [];
  policies =
      (record {
        key = "promotion";
        value = obj (field "default" (obj (field "requireEvals" (bool true) end)) end);
        version = 1;
        actor = none;
        previous = null;
        changed_at = 5;
      })
      ∷ [];
}

abbrev gate : Gate
gate = record {
  require_readiness = false;
  require_evals = true;
  min_eval_score = 1000000;
  allow_warnings = true;
  require_actor = false;
  require_provenance = [];
}

check_promotion_exact_example :
    ((result_of gate (version "ver_2") none deployed).allowed ≡ true)
    ↔ Meets gate (version "ver_2") none deployed
unfolding check_promotion resolve_gate gate_policy policy_get Table.get coerce_gate known_gate
    merged
check_promotion_exact_example =
    check_promotion_exact gate (version "ver_2") none deployed "prod"
      (result_of gate (version "ver_2") none deployed) refl refl

promote-Promoted_example :
    ((c : Code) × (promote 9 "att_2" "prod" "mailer" "ver_2" none true false deployed
        ≡ (err c, deployed)))
    ⊎ Promoted 9 "prod" "mailer" "ver_2" none deployed
        (promote 9 "att_2" "prod" "mailer" "ver_2" none true false deployed)
promote-Promoted_example =
    promote-Promoted 9 "att_2" "prod" "mailer" "ver_2" none true false deployed

runs_first : resolve_for_run "prod" "mailer" deployed ≡ (ok (version "ver_1"), deployed)
unfolding resolve_for_run strip has_slash env_get Table.get env_key unslashed
runs_first = refl

abbrev forced : Store
forced = (promote 9 "att_2" "prod" "mailer" "ver_2" none true true deployed).1

forced_ok :
    (promote 9 "att_2" "prod" "mailer" "ver_2" none true true deployed).0
    ≡ ok (pointed_at 9 none "ver_2" prod)
unfolding promote strip has_slash Table.get require_promotion check_promotion resolve_gate
    gate_policy policy_get coerce_gate known_gate merged enforce checks_of evals_passes latest
    enforced pointed_at env_set_current environment_name gated promote_to require_version env_get
    env_key new_environment unslashed
forced_ok = refl

rollback-promote_example :
    Lands "prod" "mailer" (version "ver_1") (rollback 10 "att_3" "prod" "mailer" none none forced)
rollback-promote_example =
    rollback-promote 9 10 "att_2" "att_3" "prod" "mailer" "ver_2" none none true true deployed
      (version "ver_1") runs_first refl (distinct "ver_2" "ver_1" refl) (distinct "ver_2" "" refl)
      (pointed_at 9 none "ver_2" prod) forced_ok

retire_exact_example :
    (Unused "ver_1" "mailer" deployed
      × (retire 9 "ver_1" false deployed ≡ (
        ok (retired_version 9 (version "ver_1")),
        put_version (retired_version 9 (version "ver_1")) deployed,
      )))
    ⊎ ((¬ Unused "ver_1" "mailer" deployed)
        × (retire 9 "ver_1" false deployed ≡ (err e_version_in_use, deployed)))
unfolding Table.get
retire_exact_example = retire_exact 9 "ver_1" deployed (version "ver_1") refl refl

deployed-ArePointersLive : ArePointersLive deployed
unfolding Table.get
deployed-ArePointersLive = record {
  environments = (tt, tt);
  versions = ((refl, tt), (tt, tt));
  live = λ e m i c. elim m [
    | inl q ↦
        let same : "ver_1" ≡ i = some-injective _ _ (ap (λ x. x.current_version_id) (sym q) ∙ c) in
        rw (sym same) (version "ver_1", refl, sym (ap (λ x. x.agent) q), refl)
    | inr n ↦ absurd n
  ];
}

mailer_alone : (name : String) → IsOwnKey name "mailer" deployed
unfolding env_get
mailer_alone name d e = elim (Table.get-Member env_id (env_key name "mailer") d (prod ∷ []) e) [
  | inl q ↦ ap (λ x. x.agent) q
  | inr n ↦ absurd n
]

-- the second version is promoted, and the first retired
abbrev rollout : List DeployCall
rollout = promotes 9 "att_2" "prod" "mailer" "ver_2" none true true ∷ retires 10 "ver_1" ∷ []

deploy_all-ArePointersLive_example : ArePointersLive (deploy_all rollout deployed)
deploy_all-ArePointersLive_example =
    deploy_all-ArePointersLive rollout deployed deployed-ArePointersLive
      ((λ name n. mailer_alone name), (tt, tt))

abbrev bundle : Bundle
bundle = record {
  hash = "sha_3";
  agent = "mailer";
  sdk_version = "1";
  entrypoint = "agent.py";
  lockfile = none;
  size_bytes = 10;
  file_count = 2;
  manifest = end;
}

abbrev recorded : Store
recorded = (create_version 11 "ver_3" "att_4" "mailer" bundle none none end false deployed).1
