-- ===== src/Pool/Bounded.antt =====
-- What the pool of warm interpreters promises (execution/pool.py, `WarmPool.acquire`).
use rya.Prelude.{
  ℕ, suc, ◌≤◌, String, ◌≡◌, refl, sym, ◌∙◌, ◌⊎◌, inl, inr, true, false, not, ◌||◌, Option, none,
  some, List, [], ◌∷◌, length, ltb, drop, last?, length-append, str_eq, eq_iff, arith, Bool-cases,
  Member, Member-keep_of, if◌then◌else◌,
}
use mathlib.Core.Option.{some-injective}
use rya.Errors.{Result, ok}
use rya.Store.Queue.{contains}
use rya.Store.Table
use rya.Pool.Warm.{
  Template, Pool, template_key, entry_of, add_stopped, without, touched, popped, evict_one, evict,
}
use rya.Pool.Keys.{
  Distinct, IsKept, contains-append, contains-without, Distinct-without, Distinct-snoc,
  length-without, length-without_ne, get-popped, length-popped, length-save,
}

-- A use puts a key at the end and keeps the others in order.
Distinct-touched : (key : String) (ks : List String) → Distinct ks → Distinct (touched key ks)
unfolding touched
Distinct-touched key ks d =
    Distinct-snoc key (without key ks) (Distinct-without key ks d)
      (ground (arith, contains-without key key ks d, eq_iff key key))

contains-touched :
    (k key : String) (ks : List String)
    → Distinct ks
    → contains k (touched key ks) ≡ (contains k ks || str_eq key k)
unfolding touched
contains-touched k key ks d =
    ground (arith, contains-append k (without key ks) (key ∷ []), contains-without k key ks d)

length-touched :
    (key : String) (ks : List String)
    → length (touched key ks) ≡ (if contains key ks then length ks else suc (length ks))
unfolding touched
length-touched key ks = elim (Bool-cases (contains key ks)) [
  | inl h ↦ rw h (omega (arith, length-append (without key ks) (key ∷ []), length-without key ks h))
  | inr h ↦ rw (h, length-without_ne key ks h) (omega (arith, length-append ks (key ∷ [])))
]

-- A pool that is in order: within its bound, with each entry's key in the list of uses.
pub record IsPool (p : Pool) : Type 0 where
  pub room : 1 ≤ p.max_entries
  pub kept : IsKept p.used p.entries
  pub bound : length p.entries ≤ p.max_entries

-- A use of an entry.
pub touched-IsKept :
    (key : String) (used : List String) (ts : List Template) (t : Template)
    → IsKept used ts
    → Table.get template_key key ts ≡ some t
    → IsKept (touched key used) ts
touched-IsKept key used ts t h e =
    let present : contains key used ≡ true = h.same key ∙ rw e refl in
    record {
      apart = h.apart;
      distinct = Distinct-touched key used h.distinct;
      same = λ k.
          ground (arith, contains-touched k key used h.distinct, h.same k, eq_iff key k, present);
      count = h.count ∙ sym (length-touched key used ∙ rw present refl);
    }

-- A new entry, or one in the place of another.
pub saved-IsKept :
    (t : Template) (used : List String) (ts : List Template)
    → IsKept used ts
    → IsKept (touched t.key used) (Table.save template_key t ts)
saved-IsKept t used ts h = record {
  apart = Table.Unique-save template_key t ts h.apart;
  distinct = Distinct-touched t.key used h.distinct;
  same = λ k. ground (
    arith,
    contains-touched k t.key used h.distinct,
    h.same k,
    Table.get-save template_key k t ts,
  );
  count = length-save t ts ∙ (rw (← h.same t.key) (rw h.count (sym (length-touched t.key used))));
}

-- The entry that was used the longest ago goes.
popped-IsKept :
    (oldest : String) (rest : List String) (ts : List Template)
    → IsKept (oldest ∷ rest) ts
    → IsKept rest (popped oldest ts)
popped-IsKept oldest rest ts h = record {
  apart = Table.Unique-keep template_key _ ts h.apart;
  distinct = h.distinct.1;
  same = λ k. ground (arith, h.same k, get-popped k oldest ts, h.distinct.0, eq_iff oldest k);
  count = omega (
    arith,
    h.count,
    length-popped oldest ts h.apart (sym (h.same oldest) ∙ rw ((eq_iff oldest oldest).1 refl) refl),
  );
}

contains-last : (key : String) (ks : List String) → last? ks ≡ some key → contains key ks ≡ true
contains-last key [] e = cc
contains-last key (k ∷ []) e = ground (arith, some-injective k key e, eq_iff k key)
contains-last key (k ∷ l ∷ ks) e = ground (arith, contains-last key (l ∷ ks) e)

-- What the loop of `_evict` comes to.
pub record Evicted (key : String) (used : List String) (p : Pool) (x : Result (Unit {0}) × Pool)
    : Type 0 where
  pub after : Pool
  pub ends : x ≡ (ok tt, after)
  pub ordered : IsPool after
  pub stays : entry_of key after ≡ entry_of key p
  pub dropped : ℕ
  pub oldest : after.used ≡ drop dropped used
  pub saved : (t : Template) → Member t p.entries → Member t after.entries ⊎ Member t after.stopped
  pub log : (t : Template) → Member t p.stopped → Member t after.stopped

done_early :
    (key : String) (used : List String) (p : Pool)
    → 1 ≤ p.max_entries
    → IsKept used p.entries
    → ltb p.max_entries (length p.entries) ≡ false
    → Evicted key used p (ok tt, record p { used = used })
done_early key used p room h e = record {
  after = record p { used = used };
  ends = refl;
  ordered = record { room = room; kept = h; bound = ground (arith, e) };
  stays = refl;
  dropped = 0;
  oldest = refl;
  saved = λ t m. inl m;
  log = λ t m. m;
}

popped_or :
    (t : Template) (key : String) (ts : List Template)
    → Table.Unique template_key ts
    → Member t ts
    → Member t (popped key ts) ⊎ (Table.get template_key key ts ≡ some t)
popped_or t key ts u m = elim (Bool-cases (str_eq t.key key)) [
  | inl e ↦ inr (rw (← (eq_iff t.key key).0 e) (Table.get_of_Member template_key t ts u m))
  | inr e ↦ inl (Member-keep_of (λ x. not (str_eq x.key key)) t ts m (rw e refl))
]

pub add_stopped-Member :
    (t : Template) (o : Option Template) (ts : List Template)
    → (o ≡ some t) ⊎ Member t ts
    → Member t (add_stopped o ts)
add_stopped-Member t none ts (inl e) = cc
add_stopped-Member t none ts (inr m) = m
add_stopped-Member t (some x) ts (inl e) = inl (sym (some-injective x t e))
add_stopped-Member t (some x) ts (inr m) = inr m

pub evict_lem :
    (key : String) (used : List String) (p : Pool)
    → 1 ≤ p.max_entries
    → IsKept used p.entries
    → last? used ≡ some key
    → Evicted key used p (evict used p)
unfolding evict
evict_lem key [] p room h e = cc
evict_lem key (o ∷ []) p room h e =
    let fits : ltb p.max_entries (length p.entries) ≡ false = ground (arith, h.count, room) in
    rw (evict, fits) (done_early key (o ∷ []) p room h fits)
evict_lem key (o ∷ r ∷ rs) p room h e = elim (Bool-cases (ltb p.max_entries (length p.entries))) [
  | inr fits ↦ rw (evict, fits) (done_early key (o ∷ r ∷ rs) p room h fits)
  | inl full ↦
      let next =
        evict_lem key (r ∷ rs) (evict_one o (r ∷ rs) p) room (popped-IsKept o (r ∷ rs) p.entries h)
          e in
      let other : str_eq o key ≡ false =
        ground (arith, contains-last key (r ∷ rs) e, h.distinct.0, eq_iff o key) in
      rw (evict, full)
        (record {
          after = next.after;
          ends = next.ends;
          ordered = next.ordered;
          stays = next.stays ∙ get-popped key o p.entries ∙ rw other refl;
          dropped = suc next.dropped;
          oldest = next.oldest;
          saved = λ t m. elim (popped_or t o p.entries h.apart m) [
            | inl n ↦ next.saved t n
            | inr n ↦ inr (next.log t (add_stopped-Member t (entry_of o p) p.stopped (inl n)))
          ];
          log = λ t m. next.log t (add_stopped-Member t (entry_of o p) p.stopped (inr m));
        })
]
