-- ===== src/Execution/Keys.antt =====
-- Keys of claimers (execution/scope.py, `scope_key` and `parse_key`) name what they are made of.
use Prim.Native.Char.{code}
use Prim.Native.String.{◌++◌ as join}
use Prim.Native.String.append
use rya.Prelude.{
  String, ◌≡◌, refl, ap, ◌∙◌, ◌≢◌, ◌⊎◌, Bool, false, ◌||◌, Option, none, some, arith, ◌==◌, eq_iff,
}
use rya.Errors.{ok}
use rya.Store.Queue.{text_or}
use rya.Execution.Scope.{
  Scope, version, tenant, scope_key, cut, parts_of, parse_key, parsed, ParsedKey, cut_again,
  rest_of, parsed_or_err,
}

-- `":" in s`
unfoldable pub has_colon : String → Bool
has_colon String.[] = false
has_colon (String.◌∷◌ c s) = code c == b':' || has_colon s

-- a segment that holds no colon, and is not the text that stands for `None`
abbrev pub IsSegment : String → Option String → Type 0
IsSegment absent none = Unit
IsSegment absent (some s) = (s ≢ "") × (s ≢ absent)

abbrev pub HasNoColon : Option String → Type 0
HasNoColon none = Unit
HasNoColon (some s) = has_colon s ≡ false

-- What a key can say.
abbrev pub IsKey : ParsedKey → Type 0
IsKey k = elim k.scope [
  | tenant ↦ (has_colon k.workspace ≡ false) × (k.agent ≡ none) × (k.version_id ≡ none)
  | version ↦
      (has_colon k.workspace ≡ false)
      × HasNoColon k.agent
      × IsSegment "" k.agent
      × IsSegment "local" k.version_id
      × ((k.agent ≢ some "*") ⊎ (k.version_id ≢ some "*"))
]

-- a colon in front
cut_colon : (t : String) → cut (join ":" t) ≡ some ("", t)
unfolding cut
cut_colon t = ap cut (append.cons ":" "" t ∙ ap (String.◌∷◌ ":") (append.nil t))

cut-join : (s t : String) → has_colon s ≡ false → cut (join s (join ":" t)) ≡ some (s, t)
unfolding cut has_colon
cut-join String.[] t h = rw (append.nil (join ":" t)) (cut_colon t)
cut-join (String.◌∷◌ c s) t h = rw (append.cons c s (join ":" t)) (ground (arith, cut-join s t))

parts_of-join :
    (workspace agent version_id : String)
    → has_colon workspace ≡ false
    → has_colon agent ≡ false
    → parts_of (join workspace (join ":" (join agent (join ":" version_id))))
      ≡ some (workspace, agent, version_id)
unfolding parts_of
parts_of-join w a v h k =
    ap cut_again (cut-join w (join a (join ":" v)) h) ∙ ap (rest_of w) (cut-join a v k)

-- The segments read back as what they were written from.
parsed_back :
    (w : String) (agent version_id : Option String)
    → IsSegment "" agent
    → IsSegment "local" version_id
    → (agent ≢ some "*") ⊎ (version_id ≢ some "*")
    → parsed w (text_or agent "") (text_or version_id "local")
      ≡ record { scope = version; workspace = w; agent = agent; version_id = version_id }
unfolding parsed
parsed_back w none none h k n = refl
parsed_back w none (some v) h k n = ground (arith, eq_iff v "", eq_iff v "local")
parsed_back w (some a) none h k n = ground (arith, eq_iff a "", eq_iff a "*")
parsed_back w (some a) (some v) h k n =
    ground (arith, eq_iff a "", eq_iff a "*", eq_iff v "", eq_iff v "*", eq_iff v "local")

no_colon : (agent : Option String) → HasNoColon agent → has_colon (text_or agent "") ≡ false
unfolding has_colon
no_colon none h = refl
no_colon (some a) h = ground (arith, eq_iff a "")

by_scope :
    (scope : Scope) (w : String) (agent version_id : Option String)
    → let k : ParsedKey = record {
      scope = scope;
      workspace = w;
      agent = agent;
      version_id = version_id;
    } in
      IsKey k → parse_key (scope_key scope w agent version_id) ≡ ok k
unfolding parse_key scope_key has_colon parsed
by_scope tenant w a v (h, e, f) = rw (e, f) (ap parsed_or_err (parts_of-join w "*" "*" h refl))
by_scope version w a v (h, c, i, j, n) =
    ap parsed_or_err (parts_of-join w (text_or a "") (text_or v "local") h (no_colon a c))
    ∙ ap ok (parsed_back w a v i j n)

-- `parse_key` reads back the scope, workspace, agent and version that `scope_key` wrote, when
-- workspace and agent hold no colon, the agent is absent or not empty, the version is absent or
-- neither empty nor `local`, agent and version are not both `*`, and at tenant scope both are
-- absent.
pub parse_key-scope_key :
    (k : ParsedKey)
    → IsKey k
    → parse_key (scope_key k.scope k.workspace k.agent k.version_id) ≡ ok k
parse_key-scope_key k h = by_scope k.scope k.workspace k.agent k.version_id h
