-- ===== src/Tests/Egress.antt =====
-- The theorems of Guard and Egress at concrete inputs: an agent that may call one host.
use rya.Prelude.{
  ℕ, suc, String, ◌≡◌, refl, ◌≢◌, ◌↔◌, true, false, none, some, List, [], ◌∷◌, str_eq, arith,
}
use rya.Json.{Json, null, text, arr, obj, nil, item, end, field}
use rya.Errors.{Result, ok, err, e_egress_blocked}
use rya.Store.{Store, empty}
use rya.Store.Table
use rya.Store.Reads.{policy_get}
use rya.Guard.Policy.{
  PyLib, GuardPolicy, no_policy, build_policy, explicit_source, policy_from_store, store_key_for,
  is_enforced,
}
use rya.Guard.Verdicts.{allows, blocks, evaluate, check_egress}
use rya.Guard.Decisions.{Passes, evaluate_exact, unusable_policy_blocks}
use rya.Words.{strip}
use rya.Egress.Posture.{proxy, permits, posture_from_policy}
use rya.Egress.Service.{EgressService, current_policy, fetch}
use rya.Egress.Sealed.{Leaves, fetch_seals}
use rya.Egress.Divergences.{newest, logged, blank, check_all, check_all-newest}

-- stand-ins: every URL is of one host, and a glob matches itself
abbrev lib : PyLib
lib = record {
  hostname = λ url. "api.acme.com";
  port = λ url. some 443;
  glob = λ p url. str_eq p url;
  is_private = λ h. false;
  upper = λ s. s;
  lower = λ s. s;
  etag = λ fs. "e1";
}

abbrev rule : Json
rule = obj (field "action" (text "allow") (field "pattern" (text "https://api.acme.com/v1") end))

abbrev guard : GuardPolicy
guard = build_policy lib explicit_source (field "rules" (arr (item rule nil)) end)

evaluate_exact_example :
    ((evaluate lib "https://api.acme.com/v1" "GET" guard).decision ≡ allows)
    ↔ Passes lib "https://api.acme.com/v1" "GET" guard
evaluate_exact_example = evaluate_exact lib "https://api.acme.com/v1" "GET" guard

abbrev row : Json → Store
row v = record empty {
  policies =
      (record {
        key = "guard";
        value = v;
        version = 1;
        actor = none;
        previous = null;
        changed_at = 5;
      })
      ∷ [];
}

unusable_policy_blocks_example :
    let p = policy_from_store lib (no_policy lib) "guard" (row (text "allow all")) in
    (is_enforced p ≡ true)
    × ((evaluate lib "https://api.acme.com/v1" "GET" p).decision ≡ blocks)
    × (check_egress lib "https://api.acme.com/v1" "GET" p ≡ err e_egress_blocked)
unfolding policy_get Table.get
unusable_policy_blocks_example =
    unusable_policy_blocks lib (no_policy lib) "guard" "https://api.acme.com/v1" "GET"
      (row (text "allow all")) tt

abbrev stored : Store
stored = row (obj (field "rules" (arr (item rule nil)) end))

abbrev service : EgressService
service = record {
  posture = posture_from_policy lib guard proxy (443 ∷ []);
  agent = "";
  max_divergences = 2;
  divergences = [];
  allowed = 0;
  denied = 0;
}

-- the network is a count of the requests that were sent
abbrev request : String → String → ℕ → Result String × ℕ
request url method n = (ok "body", suc n)

-- the request is sent
sent_one :
    (fetch lib (no_policy lib) stored request "https://api.acme.com/v1" "GET" service 0).2 ≢ 0
unfolding fetch permits posture_from_policy is_enforced policy_from_store policy_get Table.get
    store_key_for evaluate strip
sent_one e =
    let made : (fetch lib (no_policy lib) stored request "https://api.acme.com/v1" "GET" service
          0).2
        ≡ 1 =
      refl in
    omega (arith, e, made)

fetch_seals_example :
    Leaves lib guard
      (current_policy lib (no_policy lib) stored service)
      (443 ∷ [])
      "https://api.acme.com/v1"
      "GET"
fetch_seals_example =
    fetch_seals lib (no_policy lib) guard stored request "https://api.acme.com/v1" "GET" service 0
      proxy (443 ∷ []) refl refl sent_one

abbrev requests : List (String × String)
requests =
    ("https://api.acme.com/v2", "GET")
    ∷ ("https://api.acme.com/v1", "GET")
    ∷ ("https://api.acme.com/v3", "GET")
    ∷ ("https://api.acme.com/v4", "GET")
    ∷ []

check_all-newest_example :
    (check_all lib (no_policy lib) stored requests service).divergences
    ≡ newest 2
        (logged lib (no_policy lib) stored requests (blank lib (no_policy lib) stored service))
check_all-newest_example =
    check_all-newest lib (no_policy lib) stored requests service (omega arith) (omega arith)
