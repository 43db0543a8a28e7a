-- ===== src/Queue/Claim.antt =====
-- queue.py: `claim`, over a store that is not mediated by the broker.
use rya.Prelude.{
  ℕ, zero, suc, ◌+◌, ◌-◌, min, max, String, Bool, true, false, not, ◌||◌, Option, none, some, List,
  [], ◌∷◌, ◌++◌, length, leb, str_eq, if◌then◌else◌,
}
use rya.Errors.{Exec, ok, err, e_validation}
use rya.Store.{Store}
use rya.Store.Docs.{QueueJob, pending}
use rya.Store.Queue.{queue_save, queue_claim_one, queue_reap}

-- MAX_CLAIM_LIMIT
abbrev pub max_claim_limit : ℕ
max_claim_limit = 50

-- `metadata.get(k)`
abbrev pub lookup : String → List (String × String) → Option String
lookup k [] = none
lookup k ((j, v) ∷ m) = if str_eq j k then some v else lookup k m

-- version_of, agent_of
unfoldable pub version_of : QueueJob → Option String
version_of j = lookup "versionId" j.metadata

unfoldable pub agent_of : QueueJob → Option String
agent_of j = lookup "agent" j.metadata

-- `wanted is not None and tag is not None and tag != wanted`
unfoldable pub clashes : Option String → Option String → Bool
clashes none tag = false
clashes (some w) none = false
clashes (some w) (some t) = not (str_eq t w)

-- the two filters of the claim loop
unfoldable pub is_foreign : Option String → Option String → QueueJob → Bool
is_foreign version agent j = clashes version (version_of j) || clashes agent (agent_of j)

-- What the claim loop carries: the claimed and the released jobs, and the table.
pub record Claims : Type 0 where
  pub claimed : List QueueJob
  pub released : List QueueJob
  pub table : List QueueJob

-- one claimed job is taken, or set aside
unfoldable pub sort_claim :
    Option String → Option String → QueueJob → List QueueJob → Claims → Claims
sort_claim version agent j t c =
    if is_foreign version agent j
    then record c { released = c.released ++ j ∷ []; table = t }
    else record c { claimed = c.claimed ++ j ∷ []; table = t }

module _ (worker : String) (now lease : ℕ) (types : List String) (wanted : ℕ)
    (version agent : Option String) where
  -- the loop of `claim`; the number counts the attempts that are left
  unfoldable pub claim_loop : ℕ → Claims → Claims
  claim_loop zero c = c
  claim_loop (suc n) c = elim (leb wanted (length c.claimed)) [
    | true ↦ c
    | false ↦ elim (queue_claim_one worker now lease types c.table) [
      | none ↦ c
      | some (j, t) ↦ claim_loop n (sort_claim version agent j t c)
    ]
  ]

-- what `claim` makes of a job that it hands back
unfoldable pub release_job : QueueJob → QueueJob
release_job j = record j {
  status = pending;
  worker_id = none;
  lease_expires_at = none;
  attempts = j.attempts - 1;
}

unfoldable pub release_all : ℕ → List QueueJob → List QueueJob → List QueueJob
release_all now [] t = t
release_all now (j ∷ js) t = release_all now js (queue_save now (release_job j) t)

-- The filters of a call of `claim`.
pub record ClaimFilter : Type 0 where
  pub types : List String
  pub version_id : Option String
  pub agent : Option String

-- `max(1, min(int(limit), MAX_CLAIM_LIMIT))`
abbrev pub wanted_of : ℕ → ℕ
wanted_of limit = max 1 (min limit max_claim_limit)

-- the loop of `claim` from the reaped table
unfoldable pub claim_run : String → ClaimFilter → ℕ → ℕ → ℕ → List QueueJob → Claims
claim_run worker f limit lease_seconds now t =
    claim_loop worker now (now + lease_seconds) f.types (wanted_of limit) f.version_id f.agent
      max_claim_limit (record { claimed = []; released = []; table = queue_reap now t })

-- claim
unfoldable pub claim : String → ClaimFilter → ℕ → ℕ → ℕ → Exec Store (List QueueJob)
claim worker f limit lease_seconds now s =
    if str_eq worker ""
    then (err e_validation, s)
    else let c = claim_run worker f limit lease_seconds now s.queue in
      (ok c.claimed, record s { queue = release_all now c.released c.table })
