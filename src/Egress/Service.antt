-- ===== src/Egress/Service.antt =====
-- egress.py: `EgressService`, the one way out of a sandbox. Each request is judged by the guard and by
-- the network posture.
use rya.Prelude.{
  ℕ, suc, ◌-◌, String, Bool, false, not, List, [], ◌∷◌, ◌++◌, length, drop, ltb, ◌==◌,
  if◌then◌else◌,
}
use rya.Errors.{Result, ok, err, e_egress_denied}
use rya.Store.{Store}
use rya.Guard.Policy.{PyLib, GuardPolicy, is_enforced, policy_from_store, store_key_for}
use rya.Guard.Verdicts.{Decision, allows, blocks, evaluate}
use rya.Egress.Posture.{NetworkPosture, permits}

pub data GuardSays : Type 0 where
  unset says_allow says_block : GuardSays

-- Divergence, less its time and its reason
pub record Divergence : Type 0 where
  pub url : String
  pub method : String
  pub guard : GuardSays
  pub network : Bool
  pub guard_etag : String
  pub posture_etag : String

-- EgressService
pub record EgressService : Type 0 where
  pub posture : NetworkPosture
  pub agent : String
  pub max_divergences : ℕ
  pub divergences : List Divergence
  pub allowed : ℕ
  pub denied : ℕ

-- What `check` returns.
pub record Checked : Type 0 where
  pub allowed : Bool
  pub guard : GuardSays
  pub network : Bool
  pub diverged : Bool

-- `xs[-n:]`; `xs[-0:]` is the whole list
unfoldable pub last_items : {A : Type 0} → ℕ → List A → List A
last_items n xs = if n == 0 then xs else drop (length xs - n) xs

-- _record
unfoldable pub record_divergence : Divergence → EgressService → EgressService
unfolding last_items
record_divergence d e =
    let ds = e.divergences ++ d ∷ [] in
    record e {
      divergences =
          if ltb e.max_divergences (length ds) then last_items e.max_divergences ds else ds;
    }

abbrev pub said : Decision → GuardSays
said allows = says_allow
said blocks = says_block

abbrev pub differs : GuardSays → Bool → Bool
differs unset n = false
differs says_allow n = not n
differs says_block n = n

abbrev pub lets_out : GuardSays → Bool → Bool
lets_out unset n = n
lets_out says_allow n = n
lets_out says_block n = false

-- `ambient` is the policy of the file that is read where the store has none
module _ (lib : PyLib) (ambient : GuardPolicy) (s : Store) where
  -- the policy that `_guard_verdict` resolves
  unfoldable pub current_policy : EgressService → GuardPolicy
  current_policy e = policy_from_store lib ambient (store_key_for e.agent s) s

  -- the guard's decision; a guard with no policy is no verdict
  unfoldable pub guard_says : String → String → GuardPolicy → GuardSays
  guard_says url method p =
      if is_enforced p then said (evaluate lib url method p).decision else unset

  abbrev pub divergence_of : String → String → GuardSays → Bool → EgressService → Divergence
  divergence_of url method g n e = record {
    url = url;
    method = method;
    guard = g;
    network = n;
    guard_etag = (current_policy e).etag;
    posture_etag = e.posture.etag;
  }

  abbrev pub judged :
      String → String → GuardSays → Result Bool → EgressService → Result Checked × EgressService
  judged url method g (err c) e = (err c, e)
  judged url method g (ok n) e = (
    ok (record { allowed = lets_out g n; guard = g; network = n; diverged = differs g n }),
    if differs g n then record_divergence (divergence_of url method g n e) e else e,
  )

  -- check
  unfoldable pub check : String → String → EgressService → Result Checked × EgressService
  unfolding current_policy guard_says record_divergence
  check url method e =
      judged url method (guard_says url method (current_policy e)) (permits lib e.posture url) e

  module _ {W A : Type 0} (request : String → String → W → Result A × W) where
    abbrev pub sent : Result A × W → EgressService → Result A × EgressService × W
    sent (r, w) e = (r, e, w)

    abbrev pub fetch_checked :
        String → String → Result Checked × EgressService → W → Result A × EgressService × W
    fetch_checked url method (err c, e) w = (err c, e, w)
    fetch_checked url method (ok v, e) w =
        if v.allowed
        then sent (request url method w) (record e { allowed = suc e.allowed })
        else (err e_egress_denied, record e { denied = suc e.denied }, w)

    -- fetch; `request` is the exchange over the network
    unfoldable pub fetch : String → String → EgressService → W → Result A × EgressService × W
    unfolding check
    fetch url method e w = fetch_checked url method (check url method e) w
