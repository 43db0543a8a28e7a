-- ===== src/Guard/Policy.antt =====
-- guard.py: the policy of an agent and where it is found. The version of a policy, which only the
-- audit reads, is left out, and so is the cache of the compiled rules.
use Prim.Native.String.{◌++◌ as join}
use rya.Prelude.{ℕ, String, Bool, true, false, Option, List, [], ◌∷◌, str_eq, if◌then◌else◌}
use rya.Json.{
  Json, null, bool, text, arr, obj, Fields, nil, end, field, get_field, has_field, items,
}
use rya.Store.{Store}
use rya.Store.Reads.{policy_get}

-- What the guard and the egress layer call of Python's library: the lower-case host of a URL (empty
-- if it has none), its port or the default of its scheme (`none` where reading the port raises),
-- the match of a glob, the test for a private address, the two changes of case, and the hash of a
-- policy.
pub record PyLib : Type 0 where
  pub hostname : String → String
  pub port : String → Option ℕ
  pub glob : String → String → Bool
  pub is_private : String → Bool
  pub upper : String → String
  pub lower : String → String
  pub etag : Fields → String

pub data RuleAction : Type 0 where
  deny allow : RuleAction

pub data RuleKind : Type 0 where
  prefix exact glob : RuleKind

-- a rule of a policy; its pattern is a text, and its methods are texts
pub record Rule : Type 0 where
  pub action : RuleAction
  pub kind : RuleKind
  pub pattern : String
  pub methods : List String

abbrev pub is_text : String → Json → Bool
is_text t (text s) = str_eq s t
is_text t v = false

abbrev pub text_of : Json → String
text_of (text s) = s
text_of v = ""

abbrev pub texts : List Json → List String
texts [] = []
texts (v ∷ vs) = text_of v ∷ texts vs

-- `v or []`, as a list of objects
abbrev pub list_of : Json → List Json
list_of (arr vs) = items vs
list_of v = []

abbrev pub kind_of : Json → RuleKind
kind_of v = if is_text "prefix" v then prefix else if is_text "exact" v then exact else glob

abbrev pub compiled : RuleAction → Fields → Rule
compiled a fs = record {
  action = a;
  kind = kind_of (get_field "kind" fs);
  pattern = text_of (get_field "pattern" fs);
  methods = texts (list_of (get_field "methods" fs));
}

abbrev pub action_name : RuleAction → String
action_name deny = "deny"
action_name allow = "allow"

abbrev pub if_object : RuleAction → Json → List Rule → List Rule
if_object a (obj fs) rest =
    if is_text (action_name a) (get_field "action" fs) then compiled a fs ∷ rest else rest
if_object a v rest = rest

-- _compile: the rules of an action; an entry that is no object is skipped
unfoldable pub rules_of : RuleAction → List Json → List Rule
rules_of a [] = []
rules_of a (v ∷ vs) = if_object a v (rules_of a vs)

pub data PolicySource : Type 0 where
  no_source store_source explicit_source file_source : PolicySource

-- GuardPolicy; `broken` says that `error` is set
pub record GuardPolicy : Type 0 where
  pub document : Fields
  pub etag : String
  pub source : PolicySource
  pub deny_rules : List Rule
  pub allow_rules : List Rule
  pub broken : Bool

-- GuardPolicy.enforced
unfoldable pub is_enforced : GuardPolicy → Bool
is_enforced p = elim p.source [ no_source ↦ false | _ ↦ true ]

-- `p.setdefault(k, v)`
abbrev pub set_default : String → Json → Fields → Fields
set_default k v end = field k v end
set_default k v (field j w fs) = if str_eq j k then field j w fs else field j w (set_default k v fs)

-- _normalize
unfoldable pub normalize : Fields → Fields
normalize fs = set_default "rules" (arr nil) (
    set_default "fail" (text "closed")
      (set_default "default" (text "deny") (set_default "ssrf" (bool true) fs)))

module _ (lib : PyLib) where
  -- _build
  unfoldable pub build_policy : PolicySource → Fields → GuardPolicy
  unfolding normalize rules_of
  build_policy source fs =
      let p = normalize fs in
      let rules = list_of (get_field "rules" p) in
      record {
        document = p;
        etag = lib.etag p;
        source = source;
        deny_rules = rules_of deny rules;
        allow_rules = rules_of allow rules;
        broken = false;
      }

  -- _closed: a policy that is there but cannot be used
  unfoldable pub closed_policy : PolicySource → GuardPolicy
  unfolding normalize
  closed_policy source = record {
    document = normalize end;
    etag = "";
    source = source;
    deny_rules = [];
    allow_rules = [];
    broken = true;
  }

  -- NO_POLICY
  abbrev pub no_policy : GuardPolicy
  no_policy = record {
    document = end;
    etag = "";
    source = no_source;
    deny_rules = [];
    allow_rules = [];
    broken = false;
  }

  abbrev pub of_envelope : Json → GuardPolicy
  of_envelope (obj fs) = build_policy store_source fs
  of_envelope v = closed_policy store_source

  abbrev pub of_row : GuardPolicy → Json → GuardPolicy
  of_row ambient null = ambient
  of_row ambient (obj fs) =
      of_envelope (if has_field "policy" fs then get_field "policy" fs else obj fs)
  of_row ambient v = closed_policy store_source

  -- _from_store; `ambient` is the policy of the file that is read when the row is absent
  unfoldable pub policy_from_store : GuardPolicy → String → Store → GuardPolicy
  unfolding build_policy closed_policy
  policy_from_store ambient key s = of_row ambient (policy_get key s)

abbrev pub is_absent : Json → Bool
is_absent null = true
is_absent v = false

-- store_key_for
unfoldable pub store_key_for : String → Store → String
store_key_for agent s =
    if str_eq agent ""
    then "guard"
    else if is_absent (policy_get (join "guard:" agent) s)
    then "guard"
    else join "guard:" agent
