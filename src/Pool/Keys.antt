-- ===== src/Pool/Keys.antt =====
-- The keys of the pool's entries and of its list of uses (execution/pool.py).
use rya.Prelude.{
  suc, String, ◌≡◌, refl, ap, inl, inr, Bool, true, false, not, ◌&&◌, ◌||◌, Option, none, some,
  List, [], ◌∷◌, ◌++◌, length, str_eq, eq_iff, arith, Bool-cases, All, if◌then◌else◌,
}
use rya.Store.Queue.{contains}
use rya.Store.Table
use rya.Pool.Warm.{Template, template_key, without, popped}

abbrev pub is_some : Option Template → Bool
is_some none = false
is_some (some t) = true

-- No key comes twice.
abbrev pub Distinct : List String → Type 0
Distinct [] = Unit
Distinct (k ∷ ks) = (contains k ks ≡ false) × Distinct ks

-- The keys in the order of their last use are those of the entries.
pub record IsKept (used : List String) (entries : List Template) : Type 0 where
  pub apart : Table.Unique template_key entries
  pub distinct : Distinct used
  pub same : (k : String) → contains k used ≡ is_some (Table.get template_key k entries)
  pub count : length entries ≡ length used

pub contains-append :
    (k : String) (xs ys : List String) → contains k (xs ++ ys) ≡ (contains k xs || contains k ys)
contains-append k [] ys = refl
contains-append k (x ∷ xs) ys = ground (arith, contains-append k xs ys)

pub contains-without :
    (k key : String) (ks : List String)
    → Distinct ks
    → contains k (without key ks) ≡ (contains k ks && not (str_eq key k))
unfolding without
contains-without k key [] d = refl
contains-without k key (x ∷ xs) d =
    ground (arith, contains-without k key xs d.1, d.0, eq_iff x key, eq_iff x k, eq_iff key k)

pub Distinct-without : (key : String) (ks : List String) → Distinct ks → Distinct (without key ks)
unfolding without
Distinct-without key [] d = tt
Distinct-without key (x ∷ xs) d =
    ground (arith, Distinct-without key xs d.1, contains-without x key xs d.1, d.0)

pub Distinct-snoc :
    (key : String) (ks : List String)
    → Distinct ks
    → contains key ks ≡ false
    → Distinct (ks ++ key ∷ [])
Distinct-snoc key [] d h = (refl, tt)
Distinct-snoc key (x ∷ xs) d h = ground (
  arith,
  Distinct-snoc key xs d.1,
  contains-append x xs (key ∷ []),
  d.0,
  eq_iff x key,
  eq_iff key x,
)

pub length-without :
    (key : String) (ks : List String)
    → contains key ks ≡ true
    → suc (length (without key ks)) ≡ length ks
unfolding without
length-without key [] h = cc
length-without key (x ∷ xs) h = ground (arith, length-without key xs, eq_iff x key)

pub length-without_ne :
    (key : String) (ks : List String) → contains key ks ≡ false → without key ks ≡ ks
unfolding without
length-without_ne key [] h = refl
length-without_ne key (x ∷ xs) h = ground (arith, length-without_ne key xs, eq_iff x key)

-- The entries without a key.
pub get-popped :
    (k key : String) (ts : List Template)
    → Table.get template_key k (popped key ts)
      ≡ (if str_eq key k then none else Table.get template_key k ts)
unfolding Table.get
get-popped k key [] = ground (arith)
get-popped k key (t ∷ ts) =
    ground (arith, get-popped k key ts, eq_iff t.key key, eq_iff t.key k, eq_iff key k)

popped_none :
    (key : String) (ts : List Template)
    → All (λ y. str_eq y.key key ≡ false) ts
    → popped key ts ≡ ts
popped_none key [] h = refl
popped_none key (t ∷ ts) h = ground (arith, popped_none key ts h.1, h.0)

pub length-popped :
    (key : String) (ts : List Template)
    → Table.Unique template_key ts
    → is_some (Table.get template_key key ts) ≡ true
    → suc (length (popped key ts)) ≡ length ts
unfolding Table.get
length-popped key [] u h = cc
length-popped key (t ∷ ts) u h = elim (Bool-cases (str_eq t.key key)) [
  | inl e ↦
      let same = (eq_iff t.key key).0 e in
      rw e (ap (λ xs. suc (length xs)) (popped_none key ts (rw same at u.0)))
  | inr e ↦ rw e (ap suc (length-popped key ts u.1 (rw e at h)))
]

pub length-save :
    (t : Template) (ts : List Template)
    → length (Table.save template_key t ts)
      ≡ (if is_some (Table.get template_key t.key ts) then length ts else suc (length ts))
unfolding Table.get Table.save
length-save t [] = refl
length-save t (x ∷ xs) = ground (arith, length-save t xs)
