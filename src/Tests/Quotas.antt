-- ===== src/Tests/Quotas.antt =====
-- The theorems of Quotas at concrete inputs: a workspace with a limit of one run that is not over.
use rya.Prelude.{◌≡◌, refl, ◌↔◌, true, none, some, [], ◌∷◌}
use rya.Prelude.Int.{pos}
use rya.Json.{Fields, Json, null, obj, whole, field, end}
use rya.Store.{Store, empty}
use rya.Store.Reads.{policy_get}
use rya.Store.Table
use rya.Orgs.{org_violations}
use rya.Quotas.Casts.{int_of}
use rya.Quotas.Policy.{
  all_known, QuotaPolicy, unlimited, resolve_quota, coerce_row, coerce_policy, coerce_limit,
}
use rya.Quotas.Admission.{run, verdict_of, check_admission, consumption}
use rya.Quotas.Exact.{HasRoom, admission_exact}

abbrev row : Json → Store
row v = record empty {
  policies =
      (record {
        key = "quotas";
        value = v;
        version = 1;
        actor = none;
        previous = null;
        changed_at = 5;
      })
      ∷ [];
}

abbrev limited : QuotaPolicy
limited = record unlimited { max_concurrent_runs = some 1 }

abbrev one_run : Store
one_run = row (obj (field "maxConcurrentRuns" (whole (pos 1)) end))

admission_exact_example :
    ((verdict_of limited run none 200 one_run).allowed ≡ true)
    ↔ (HasRoom limited run (consumption 200 one_run) × (org_violations one_run ≡ []))
unfolding check_admission resolve_quota coerce_row coerce_policy coerce_limit policy_get Table.get
    all_known int_of
admission_exact_example =
    admission_exact run 200 one_run limited (verdict_of limited run none 200 one_run) refl refl

abbrev one_at_a_time : Fields
one_at_a_time = field "maxConcurrentRuns" (whole (pos 1)) end
