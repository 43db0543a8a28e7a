-- ===== src/Words.antt =====
-- Python's `str` operations on names: `strip`, `in` and `replace`.
use Prim.Native.Char.{Char, code}
use Prim.Native.String.{◌++◌ as join}
use rya.Prelude.{
  ℕ, String, Bool, false, ◌&&◌, ◌||◌, ◌≡◌, refl, ap, ◌∙◌, leb, ◌==◌, if◌then◌else◌, Bool-cases, inl,
  inr,
}

-- the code points that `str.strip` drops
abbrev is_space : ℕ → Bool
is_space c =
    (leb 9 c && leb c 13)
    || (leb 28 c && leb c 32)
    || c == 133
    || c == 160
    || c == 5760
    || (leb 8192 c && leb c 8202)
    || c == 8232
    || c == 8233
    || c == 8239
    || c == 8287
    || c == 12288

unfoldable pub lstrip : String → String
lstrip String.[] = ""
lstrip (String.◌∷◌ c s) = let rest = lstrip s in if is_space (code c) then rest else String.◌∷◌ c s

-- a character before a stripped text
abbrev put_before : Char → String → String
put_before c String.[] = if is_space (code c) then "" else String.◌∷◌ c String.[]
put_before c (String.◌∷◌ d s) = String.◌∷◌ c (String.◌∷◌ d s)

unfoldable pub rstrip : String → String
rstrip String.[] = ""
rstrip (String.◌∷◌ c s) = put_before c (rstrip s)

-- `s.strip()`
unfoldable pub strip : String → String
unfolding lstrip rstrip
strip s = rstrip (lstrip s)

-- `"/" in s`
unfoldable pub has_slash : String → Bool
has_slash String.[] = false
has_slash (String.◌∷◌ c s) = code c == b'/' || has_slash s

-- `s.replace("/", "_")`
unfoldable pub unslashed : String → String
unslashed String.[] = ""
unslashed (String.◌∷◌ c s) =
    let rest = unslashed s in if code c == b'/' then join "_" rest else String.◌∷◌ c rest

put_twice : (c : Char) (t : String) → rstrip t ≡ t → rstrip (put_before c t) ≡ put_before c t
unfolding rstrip
put_twice c String.[] e = elim (Bool-cases (is_space (code c))) [
  | inl h ↦ rw h
  | inr h ↦ rw h (rw h)
]
put_twice c (String.◌∷◌ d t) e = ap (put_before c) e

rstrip_twice : (s : String) → rstrip (rstrip s) ≡ rstrip s
unfolding rstrip
rstrip_twice String.[] = refl
rstrip_twice (String.◌∷◌ c s) = put_twice c (rstrip s) (rstrip_twice s)

-- A text that starts with no blank keeps its start.
lstrip_put :
    (c : Char) (t : String) → is_space (code c) ≡ false → lstrip (put_before c t) ≡ put_before c t
unfolding lstrip
lstrip_put c String.[] h = rw h (rw h)
lstrip_put c (String.◌∷◌ d t) h = rw h

lstrip_stripped : (s : String) → lstrip (rstrip (lstrip s)) ≡ rstrip (lstrip s)
unfolding lstrip rstrip
lstrip_stripped String.[] = refl
lstrip_stripped (String.◌∷◌ c s) = elim (Bool-cases (is_space (code c))) [
  | inl h ↦ rw h (lstrip_stripped s)
  | inr h ↦ rw h (lstrip_put c (rstrip s) h)
]

-- A name that was stripped is not stripped further.
pub strip_twice : (s : String) → strip (strip s) ≡ strip s
unfolding strip
strip_twice s = ap rstrip (lstrip_stripped s) ∙ rstrip_twice (lstrip s)

slashes : unslashed "a/b" ≡ "a_b"
unfolding unslashed
slashes = refl

blanks : strip " a b " ≡ "a b"
unfolding strip
blanks = refl
