-- ===== src/Queue/Eligible.antt =====
-- The jobs that `queue_claim_one` (store.py) may start.
use rya.Prelude.{
  zero, suc, ◌≤◌, ◌<◌, ◌≢◌, refl, Bool, ◌&&◌, [], ◌∷◌, count_where, str_eq, eq_iff, ◌||◌, ◌==◌, ltb,
  if◌then◌else◌, Bool-cases, ℕ, String, ◌≡◌, ◌⊎◌, inl, inr, true, false, Option, none, some, List,
  arith, Member,
}
use rya.Store.Docs.{QueueJob, JobStatus, pending, running, completed, failed, cancelled}
use rya.Store.Queue.{
  text_or, key_of, busy, contains, type_wanted, under_cap, same_status, claimable,
}

abbrev pub runs_under : String → QueueJob → Bool
runs_under k j = elim j.concurrency_key [
  | none ↦ false
  | some i ↦ elim j.status [ running ↦ str_eq i k | _ ↦ false ]
]

-- The running jobs of a concurrency key, and those of the key of a job: none for a job without.
unfoldable pub running_of : String → List QueueJob → ℕ
running_of k t = count_where (runs_under k) t

unfoldable pub load_of : List QueueJob → Option String → ℕ
unfolding running_of
load_of t none = 0
load_of t (some k) = if str_eq k "" then 0 else running_of k t

-- A job that waits, is due, of a wanted type (an empty list wants all) and under the running cap
-- of its key (a limit of 0 and an empty key have none).
pub record Eligible (types : List String) (now : ℕ) (t : List QueueJob) (j : QueueJob)
    : Type 0 where
  pub found : Member j t
  pub waits : j.status ≡ pending
  pub due : j.run_at ≤ now
  pub wanted : (types ≡ []) ⊎ Member j.type types
  pub room :
      (k : String) (l : ℕ)
      → j.concurrency_key ≡ some k
      → k ≢ ""
      → j.concurrency_limit ≡ some l
      → l ≢ 0
      → running_of k t < l

runs_under-eq :
    (k : String) (j : QueueJob)
    → str_eq k "" ≡ false
    → (same_status j.status running && str_eq (key_of j) k) ≡ runs_under k j
runs_under-eq k j e = by_key j.concurrency_key j.status
  where
    by_key :
        (o : Option String) (st : JobStatus)
        → (same_status st running && str_eq (text_or o "") k)
          ≡ elim o [ none ↦ false | some i ↦ elim st [ running ↦ str_eq i k | _ ↦ false ] ]
    by_key none st = ground (arith, eq_iff "" k, eq_iff k "")
    by_key (some i) pending = refl
    by_key (some i) running = ground (arith, eq_iff i k, eq_iff i "", eq_iff "" k, eq_iff k "")
    by_key (some i) completed = refl
    by_key (some i) failed = refl
    by_key (some i) cancelled = refl

count_where-same :
    (p q : QueueJob → Bool) (t : List QueueJob)
    → ((j : QueueJob) → p j ≡ q j)
    → count_where p t ≡ count_where q t
count_where-same p q [] h = refl
count_where-same p q (x ∷ xs) h = rw (h x, count_where-same p q xs h)

busy-running_of : (t : List QueueJob) (k : String) → str_eq k "" ≡ false → busy t k ≡ running_of k t
unfolding busy running_of
busy-running_of t k e = rw e (
    count_where-same (λ j. same_status j.status running && str_eq (key_of j) k) (runs_under k) t
      (λ j. runs_under-eq k j e))

pub busy-load_of :
    (t : List QueueJob) (j : QueueJob) → busy t (key_of j) ≡ load_of t j.concurrency_key
unfolding load_of busy
busy-load_of t j = by_key j.concurrency_key
  where
    by_key : (o : Option String) → busy t (text_or o "") ≡ load_of t o
    by_key none = refl
    by_key (some k) = elim (Bool-cases (str_eq k "")) [
      | inl e ↦ rw (load_of, e)
      | inr e ↦ rw (load_of, e, busy-running_of t k e)
    ]

contains-Member : (x : String) (xs : List String) → contains x xs ≡ true → Member x xs
contains-Member x [] e = cc
contains-Member x (y ∷ ys) e = ground (arith, contains-Member x ys, eq_iff y x)

Member-contains : (x : String) (xs : List String) → Member x xs → contains x xs ≡ true
Member-contains x [] m = elim m [ ]
Member-contains x (y ∷ ys) m = ground (arith, Member-contains x ys, eq_iff y x)

type_wanted_means :
    (types : List String) (j : QueueJob)
    → type_wanted types j ≡ true
    → (types ≡ []) ⊎ Member j.type types
unfolding type_wanted
type_wanted_means [] j e = inl refl
type_wanted_means (x ∷ xs) j e = inr (contains-Member j.type (x ∷ xs) e)

type_wanted_of :
    (types : List String) (j : QueueJob)
    → (types ≡ []) ⊎ Member j.type types
    → type_wanted types j ≡ true
unfolding type_wanted
type_wanted_of [] j h = refl
type_wanted_of (x ∷ xs) j (inl e) = cc
type_wanted_of (x ∷ xs) j (inr m) = Member-contains j.type (x ∷ xs) m

capped : (n l : ℕ) → (l ≢ 0 → n < l) → ((l == 0) || ltb n l) ≡ true
capped zero zero h = refl
capped (suc n) zero h = refl
capped n (suc l) h = ground (arith, h (λ e. cc e))

module _ (types : List String) (now : ℕ) (t : List QueueJob) (j : QueueJob) where
  abbrev Room : Option String → Option ℕ → Type 0
  Room key limit =
      (k : String) (l : ℕ) → key ≡ some k → k ≢ "" → limit ≡ some l → l ≢ 0 → running_of k t < l

  under_cap-Room : under_cap t j ≡ true → Room j.concurrency_key j.concurrency_limit
  unfolding under_cap load_of
  under_cap-Room e k l key named limit positive =
      let filled : str_eq k "" ≡ false = ground (arith, eq_iff k "") in
      ground (arith, key, limit, filled, busy-load_of t j)

  Room-under_cap : Room j.concurrency_key j.concurrency_limit → under_cap t j ≡ true
  unfolding under_cap
  Room-under_cap h = by_limit j.concurrency_key j.concurrency_limit h
    where
      by_limit :
          (key : Option String) (limit : Option ℕ)
          → Room key limit
          → elim limit [
            | none ↦ true
            | some l ↦ str_eq (text_or key "") "" || (l == 0) || ltb (busy t (text_or key "")) l
          ]
            ≡ true
      by_limit key none r = refl
      by_limit none (some l) r = refl
      by_limit (some k) (some l) r = elim (Bool-cases (str_eq k "")) [
        | inl e ↦ rw e
        | inr e ↦
            rw (e, if◌then◌else◌, e, busy-running_of t k e)
              (capped (running_of k t) l
                (λ positive. r k l refl (λ q. cc ((eq_iff k "").1 q, e)) refl positive))
      ]

  pub Eligible-of :
      Member j t → j.status ≡ pending → claimable types now t j ≡ true → Eligible types now t j
  unfolding claimable
  Eligible-of m waits e = record {
    found = m;
    waits = waits;
    due = ground arith;
    wanted = type_wanted_means types j (ground arith);
    room = under_cap-Room (ground arith);
  }

  pub claimable-Eligible : Eligible types now t j → claimable types now t j ≡ true
  unfolding claimable
  claimable-Eligible h =
      ground (arith, type_wanted_of types j h.wanted, h.due, Room-under_cap h.room)
