-- ===== src/Pool/Acquire.antt =====
-- What a call of `acquire` leaves in the pool of warm interpreters (execution/pool.py, `WarmPool`).
use rya.Prelude.{
  ℕ, String, ◌≡◌, refl, sym, ap, ◌∙◌, ◌⊎◌, inl, inr, Bool, Option, none, some, List, [], ◌∷◌, drop,
  last?, last?-append, Member, str_eq, eq_iff, Bool-cases,
}
use rya.Errors.{Code, Result, ok, err}
use rya.Store.Table
use rya.Pool.Warm.{
  Template, Pool, template_key, entry_of, without, touched, warmed, retired, returning,
  acquire_found, acquire,
}
use rya.Pool.Bounded.{IsPool, evict_lem, touched-IsKept, saved-IsKept, add_stopped-Member}

saved_or :
    (t x : Template) (ts : List Template)
    → Member x ts
    → Table.Unique template_key ts
    → Member x (Table.save template_key t ts) ⊎ (Table.get template_key t.key ts ≡ some x)
unfolding Table.save Table.get
saved_or t x [] m u = elim m [ ]
saved_or t x (y ∷ ts) (inl e) u = elim (Bool-cases (str_eq y.key t.key)) [
  | inl h ↦ inr (rw h (ap some (sym e)))
  | inr h ↦ inl (rw h (inl e))
]
saved_or t x (y ∷ ts) (inr m) u = elim (saved_or t x ts m u.1) [
  | inl n ↦ elim (Bool-cases (str_eq y.key t.key)) [
    | inl h ↦ inl (rw h (inr m))
    | inr h ↦ inl (rw h (inr n))
  ]
  | inr n ↦ elim (Bool-cases (str_eq y.key t.key)) [
    | inl h ↦ inl (rw h (inr m))
    | inr h ↦ inr (rw h n)
  ]
]

last-touched : (key : String) (used : List String) → last? (touched key used) ≡ some key
unfolding touched
last-touched key used = last?-append (without key used) key

module _ (alive : Template → Bool) (started : Result (Unit {0})) (t : Template) (p : Pool) where
  -- An interpreter was handed out: it stands in the pool, which is in order; the keys of its uses
  -- are those of before with this one last, less the first few; and none is lost.
  pub record IsHanded (u : Template) (q : Pool) : Type 0 where
    pub ordered : IsPool q
    pub key : u.key ≡ t.key
    pub here : entry_of t.key q ≡ some u
    pub dropped : ℕ
    pub recent : q.used ≡ drop dropped (touched t.key p.used)
    pub none_lost : (x : Template) → Member x p.entries → Member x q.entries ⊎ Member x q.stopped

  abbrev pub Outcome : Result Template × Pool → Type 0
  Outcome x =
      ((c : Code) × (started ≡ err c)
        × (x.0 ≡ err c)
        × IsPool x.1
        × (x.1.entries ≡ p.entries)
        × (x.1.used ≡ p.used))
      ⊎ ((u : Template) × (q : Pool) × (x ≡ (ok u, q)) × IsHanded u q)

  fresh :
      (old : Option Template)
      → IsPool p
      → entry_of t.key p ≡ old
      → Outcome (warmed started t (retired old p))
  fresh old h e = by_start started refl
    where
      by_start : (r : Result (Unit {0})) → started ≡ r → Outcome (warmed r t (retired old p))
      by_start (err c) s =
          inl (c, s, refl, record { room = h.room; kept = h.kept; bound = h.bound }, refl, refl)
      by_start (ok u) s =
          let used = touched t.key p.used in
          let ts = Table.save template_key t p.entries in
          let start : Pool = record (retired old p) { entries = ts; used = used } in
          let done =
            evict_lem t.key used start h.room (saved-IsKept t p.used p.entries h.kept)
              (last-touched t.key p.used) in
          inr (
            t,
            done.after,
            ap (returning t) done.ends,
            record {
              ordered = done.ordered;
              key = refl;
              here =
                  done.stays
                  ∙ Table.get-save template_key t.key t p.entries
                  ∙ rw ((eq_iff t.key t.key).1 refl) refl;
              dropped = done.dropped;
              recent = done.oldest;
              none_lost = λ x m. elim (saved_or t x p.entries m h.kept.apart) [
                | inl n ↦ done.saved x n
                | inr n ↦ inr (done.log x (add_stopped-Member x old p.stopped (inl (sym e ∙ n))))
              ];
            },
          )

  pub acquire_lem : IsPool p → Outcome (acquire alive started t p)
  unfolding acquire
  acquire_lem h = by_entry (entry_of t.key p) refl
    where
      by_entry :
          (o : Option Template) → entry_of t.key p ≡ o → Outcome (acquire_found alive started o t p)
      by_entry none e = fresh none h e
      by_entry (some old) e = elim (Bool-cases (alive old)) [
        | inr d ↦ rw d (fresh (some old) h e)
        | inl l ↦ rw l (
            inr (
              old,
              record p { used = touched t.key p.used },
              refl,
              record {
                ordered = record {
                  room = h.room;
                  kept = touched-IsKept t.key p.used p.entries old h.kept e;
                  bound = h.bound;
                };
                key = Table.get-id template_key t.key old p.entries e;
                here = e;
                dropped = 0;
                recent = refl;
                none_lost = λ x m. inl m;
              },
            ))
      ]
