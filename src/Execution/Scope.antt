-- ===== src/Execution/Scope.antt =====
-- execution/scope.py: the scope of a claimer and the key that names it.
use Prim.Native.Char.{Char, code}
use Prim.Native.String.{◌++◌ as join}
use rya.Prelude.{
  ℕ, String, Bool, true, false, ◌&&◌, Option, none, some, ◌==◌, str_eq, if◌then◌else◌,
}
use rya.Errors.{Result, ok, err, e_validation}
use rya.Store.Queue.{text_or}

-- SCOPES: one claimer for each version of an agent, or one for the workspace
pub data Scope : Type 0 where
  version tenant : Scope

-- scope_key
unfoldable pub scope_key : Scope → String → Option String → Option String → String
scope_key tenant workspace agent version_id = join workspace ":*:*"
scope_key version workspace agent version_id =
    join workspace (join ":" (join (text_or agent "") (join ":" (text_or version_id "local"))))

abbrev pub put_first : Char → Option (String × String) → Option (String × String)
put_first c none = none
put_first c (some (front, rest)) = some (String.◌∷◌ c front, rest)

-- the text before the first colon and the text behind it
unfoldable pub cut : String → Option (String × String)
cut String.[] = none
cut (String.◌∷◌ c s) =
    let later = cut s in if code c == b':' then some ("", s) else put_first c later

abbrev pub rest_of : String → Option (String × String) → Option (String × String × String)
rest_of workspace none = none
rest_of workspace (some (agent, version_id)) = some (workspace, agent, version_id)

abbrev pub cut_again : Option (String × String) → Option (String × String × String)
cut_again none = none
cut_again (some (workspace, rest)) = rest_of workspace (cut rest)

-- `key.split(":", 2)`, if that has three parts
unfoldable pub parts_of : String → Option (String × String × String)
unfolding cut
parts_of key = cut_again (cut key)

-- The object of `parse_key`.
pub record ParsedKey : Type 0 where
  pub scope : Scope
  pub workspace : String
  pub agent : Option String
  pub version_id : Option String

abbrev pub unless_text : String → String → Option String
unless_text t s = if str_eq s t then none else some s

unfoldable pub parsed : String → String → String → ParsedKey
parsed workspace agent version_id =
    if str_eq agent "*" && str_eq version_id "*"
    then record { scope = tenant; workspace = workspace; agent = none; version_id = none }
    else record {
      scope = version;
      workspace = workspace;
      agent = unless_text "" agent;
      version_id = unless_text "local" version_id;
    }

abbrev pub parsed_or_err : Option (String × String × String) → Result ParsedKey
parsed_or_err none = err e_validation
parsed_or_err (some (workspace, agent, version_id)) = ok (parsed workspace agent version_id)

-- parse_key
unfoldable pub parse_key : String → Result ParsedKey
unfolding parts_of
parse_key key = parsed_or_err (parts_of key)

-- Claimable: the work that waits in one group
pub record Claimable : Type 0 where
  pub workspace : String
  pub agent : String
  pub version_id : Option String
  pub depth : ℕ

-- Claimable.key
unfoldable pub group_key : Claimable → String
unfolding scope_key
group_key g = scope_key version g.workspace (some g.agent) g.version_id

-- Claimable.attributed
abbrev pub attributed : Claimable → Bool
attributed g = if str_eq g.agent "" then false else true
