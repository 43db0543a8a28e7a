-- ===== src/Json.antt =====
-- The JSON values of payloads, identities and policy rows.
-- A number is a whole number or a decimal, counted in millionths.
use rya.Prelude.{
  String, Bool, true, false, zero, List, [], ◌∷◌, Option, none, some, str_eq, if◌then◌else◌,
}
use rya.Prelude.Int.{ℤ, pos}

mutual
  pub data Json : Type 0 where
    null : Json
    bool : Bool → Json
    whole : ℤ → Json
    millionths : ℤ → Json
    text : String → Json
    arr : Items → Json
    obj : Fields → Json

  pub data Items : Type 0 where
    nil : Items
    item : Json → Items → Items

  pub data Fields : Type 0 where
    end : Fields
    field : String → Json → Fields → Fields

-- `d.get(k)`: a missing key reads as `None`.
abbrev pub get_field : String → Fields → Json
get_field k end = null
get_field k (field j v fs) = if str_eq j k then v else get_field k fs

abbrev pub has_field : String → Fields → Bool
has_field k end = false
has_field k (field j v fs) = if str_eq j k then true else has_field k fs

abbrev is_zero : ℤ → Bool
is_zero (pos zero) = true
is_zero _ = false

-- The truth value of `v or default`.
abbrev pub truthy : Json → Bool
truthy null = false
truthy (bool b) = b
truthy (whole z) = if is_zero z then false else true
truthy (millionths z) = if is_zero z then false else true
truthy (text s) = if str_eq s "" then false else true
truthy (arr nil) = false
truthy (arr (item x xs)) = true
truthy (obj end) = false
truthy (obj (field k v fs)) = true

abbrev pub as_text : Json → Option String
as_text (text s) = some s
as_text _ = none

-- the items of a list
abbrev pub items : Items → List Json
items nil = []
items (item v vs) = v ∷ items vs
