-- ===== src/Turns/Streaming.antt =====
-- The stream buffers (store.py): a reader that comes back with the number of the last frame it saw.
use rya.Prelude.{
  ℕ, suc, ◌+◌, String, ◌≡◌, refl, sym, ap, ◌∙◌, Bool, true, false, List, [], ◌∷◌, ◌++◌, keep,
  length, arith, str_eq, eq_iff, Bool-cases, inl, inr, if◌then◌else◌,
}
use rya.Prelude.Int.{ℤ, pos, ltb_ℤ}
use mathlib.Core.List.{append-nil, append_assoc}
use rya.Json.{Json}
use rya.Store.Docs.{Frame, Stream}
use rya.Store.Streams.{stored_frames, numbered, stream_append, stream_read, stream_id}
use rya.Store.Table

-- The frames carry the numbers from `n` on, without a gap.
abbrev pub NumberedFrom : ℕ → List Frame → Type 0
NumberedFrom n [] = Unit
NumberedFrom n (f ∷ fs) = (f.seq ≡ n) × NumberedFrom (suc n) fs

-- Every buffer is numbered by position.
abbrev pub AreNumbered : List Stream → Type 0
AreNumbered t = (turn : String) → NumberedFrom 0 (stored_frames turn t)

numbered-NumberedFrom : (now n : ℕ) (fs : List (String × Json)) → NumberedFrom n (numbered now n fs)
unfolding numbered
numbered-NumberedFrom now n [] = tt
numbered-NumberedFrom now n ((kind, payload) ∷ fs) = (refl, numbered-NumberedFrom now (suc n) fs)

NumberedFrom-append :
    (n : ℕ) (xs ys : List Frame)
    → NumberedFrom n xs
    → NumberedFrom (n + length xs) ys
    → NumberedFrom n (xs ++ ys)
NumberedFrom-append n [] ys h k = let e : n + 0 ≡ n = omega arith in rw e at k
NumberedFrom-append n (x ∷ xs) ys h k =
    let e : n + suc (length xs) ≡ suc n + length xs = omega arith in
    (h.0, NumberedFrom-append (suc n) xs ys h.1 (rw e at k))

-- An append writes behind the frames of its own turn and leaves the others alone.
pub stored_frames-append :
    (now : ℕ) (turn other : String) (fs : List (String × Json)) (t : List Stream)
    → stored_frames other (stream_append now turn fs t).1
      ≡ stored_frames other t
        ++ (if str_eq turn other then numbered now (length (stored_frames turn t)) fs else [])
unfolding stream_append
stored_frames-append now turn other fs t = elim (Bool-cases (str_eq turn other)) [
  | inl e ↦
      let same = (eq_iff turn other).0 e in
      rw
        (
          Table.get-save stream_id other
              (record {
                turn_id = turn;
                frames = stored_frames turn t ++ numbered now (length (stored_frames turn t)) fs;
              })
              t,
          e,
        )
        (ap (λ x. stored_frames x t ++ numbered now (length (stored_frames turn t)) fs) same)
  | inr e ↦
      rw
        (
          Table.get-save stream_id other
              (record {
                turn_id = turn;
                frames = stored_frames turn t ++ numbered now (length (stored_frames turn t)) fs;
              })
              t,
          e,
        )
        (sym (append-nil (stored_frames other t)))
]

pub stream_append-AreNumbered :
    (now : ℕ) (turn : String) (fs : List (String × Json)) (t : List Stream)
    → AreNumbered t
    → AreNumbered (stream_append now turn fs t).1
stream_append-AreNumbered now turn fs t h other =
    let start : 0 + length (stored_frames other t) ≡ length (stored_frames other t) = omega arith in
    rw (stored_frames-append now turn other fs t) (
      NumberedFrom-append 0 (stored_frames other t) _ (h other) (
        rw start (elim (Bool-cases (str_eq turn other)) [
          | inl e ↦
              rw (e, (eq_iff turn other).0 e)
                (numbered-NumberedFrom now (length (stored_frames other t)) fs)
          | inr e ↦ rw e tt
        ])))

-- An append by a worker: the clock, the turn and its frames.
abbrev pub Append : Type 0
Append = ℕ × String × List (String × Json)

unfoldable pub append_all : List Append → List Stream → List Stream
append_all [] t = t
append_all ((now, turn, fs) ∷ rest) t = append_all rest (stream_append now turn fs t).1

pub append_all-AreNumbered :
    (calls : List Append) (t : List Stream) → AreNumbered t → AreNumbered (append_all calls t)
unfolding append_all
append_all-AreNumbered [] t h = h
append_all-AreNumbered ((now, turn, fs) ∷ rest) t h =
    append_all-AreNumbered rest _ (stream_append-AreNumbered now turn fs t h)

-- What stands in a buffer stays its beginning.
stored_frames-append_all :
    (calls : List Append) (t : List Stream) (turn : String)
    → (more : List Frame) × (stored_frames turn (append_all calls t) ≡ stored_frames turn t ++ more)
unfolding append_all
stored_frames-append_all [] t turn = ([], sym (append-nil _))
stored_frames-append_all ((now, other, fs) ∷ rest) t turn =
    let (more, e) = stored_frames-append_all rest (stream_append now other fs t).1 turn in
    let new = if str_eq other turn then numbered now (length (stored_frames other t)) fs else [] in
    (
      new ++ more,
      e
          ∙ ap (λ x. x ++ more) (stored_frames-append now other turn fs t)
          ∙ append_assoc (stored_frames turn t) new more,
    )

-- The number that a client sends back: that of the last frame it saw.
abbrev pub cursor : ℤ → List Frame → ℤ
cursor a [] = a
cursor a (f ∷ fs) = cursor (pos f.seq) fs

abbrev past : ℤ → Frame → Bool
past a f = ltb_ℤ a (pos f.seq)

-- No frame that a reader saw is numbered above its cursor.
cursor-above :
    (a b : ℤ) (xs : List Frame) (f : Frame)
    → past a f ≡ false
    → past b f ≡ false
    → past (cursor b (keep (past a) xs)) f ≡ false
cursor-above a b [] f h k = k
cursor-above a b (x ∷ xs) f h k = elim (Bool-cases (past a x)) [
  | inl e ↦ rw e (cursor-above a (pos x.seq) xs f h (ground arith))
  | inr e ↦ rw e (cursor-above a b xs f h k)
]

keep-ahead :
    (a : ℤ) (n : ℕ) (xs : List Frame)
    → NumberedFrom n xs
    → ltb_ℤ a (pos n) ≡ true
    → keep (past a) xs ≡ xs
keep-ahead a n [] h k = refl
keep-ahead a n (x ∷ xs) h k = ground (arith, keep-ahead a (suc n) xs h.1)

NumberedFrom-parts :
    (n : ℕ) (xs ys : List Frame)
    → NumberedFrom n (xs ++ ys)
    → NumberedFrom n xs × NumberedFrom (n + length xs) ys
NumberedFrom-parts n [] ys h = let e : n + 0 ≡ n = omega arith in (tt, rw e h)
NumberedFrom-parts n (x ∷ xs) ys h =
    let (l, r) = NumberedFrom-parts (suc n) xs ys h.1 in
    let e : n + suc (length xs) ≡ suc n + length xs = omega arith in ((h.0, l), rw e r)

keep-append :
    {A : Type 0} (p : A → Bool) (xs ys : List A) → keep p (xs ++ ys) ≡ keep p xs ++ keep p ys
keep-append p [] ys = refl
keep-append p (x ∷ xs) ys = elim (Bool-cases (p x)) [
  | inl e ↦ rw e (ap (λ fs. x ∷ fs) (keep-append p xs ys))
  | inr e ↦ rw e (keep-append p xs ys)
]

-- Behind the cursor of what was read stands what was not read.
keep-cursor :
    (a : ℤ) (n : ℕ) (xs ys : List Frame)
    → NumberedFrom n (xs ++ ys)
    → keep (past (cursor a (keep (past a) xs))) (xs ++ ys) ≡ keep (past a) ys
keep-cursor a n [] ys h = refl
keep-cursor a n (x ∷ xs) ys h = elim (Bool-cases (past a x)) [
  | inl e ↦
      let (l, r) = NumberedFrom-parts (suc n) xs ys h.1 in
      let m = suc n + length xs in
      let kept_xs : keep (past a) xs ≡ keep (past (pos x.seq)) xs =
        keep-ahead a (suc n) xs l (ground (arith, h.0, e))
        ∙ sym (keep-ahead (pos x.seq) (suc n) xs l (ground (arith, h.0))) in
      let kept_ys : keep (past a) ys ≡ keep (past (pos x.seq)) ys =
        keep-ahead a m ys r (ground (arith, h.0, e))
        ∙ sym (keep-ahead (pos x.seq) m ys r (ground (arith, h.0))) in
      let seen : keep (past a) (x ∷ xs) ≡ x ∷ keep (past (pos x.seq)) xs =
        rw e (ap (λ fs. x ∷ fs) kept_xs) in
      let rest : keep (past (cursor (pos x.seq) (keep (past (pos x.seq)) xs))) (x ∷ (xs ++ ys))
          ≡ keep (past (pos x.seq)) ys =
        rw (cursor-above (pos x.seq) (pos x.seq) xs x (ground arith) (ground arith))
          (keep-cursor (pos x.seq) (suc n) xs ys h.1) in
      ap (λ fs. keep (past (cursor a fs)) (x ∷ (xs ++ ys))) seen ∙ rest ∙ sym kept_ys
  | inr e ↦
      let seen : keep (past a) (x ∷ xs) ≡ keep (past a) xs = rw e refl in
      let rest : keep (past (cursor a (keep (past a) xs))) (x ∷ (xs ++ ys)) ≡ keep (past a) ys =
        rw (cursor-above a a xs x e e) (keep-cursor a (suc n) xs ys h.1) in
      ap (λ fs. keep (past (cursor a fs)) (x ∷ (xs ++ ys))) seen ∙ rest
]

-- Every sequence of appends, to any turns, leaves every buffer numbered by position without a
-- gap, if they were so before; and a client that reads a turn's buffer behind a number, is cut
-- off, and reads again behind the number of the last frame it saw, has then the frames that one
-- later read would have given it, so that none is lost and none comes twice.
pub stream_read_resumed :
    (turn : String) (after : ℤ) (calls : List Append) (t : List Stream)
    → AreNumbered t
    → AreNumbered (append_all calls t)
      × (stream_read turn after t
            ++ stream_read turn (cursor after (stream_read turn after t)) (append_all calls t)
          ≡ stream_read turn after (append_all calls t))
unfolding stream_read
stream_read_resumed turn after calls t h =
    let all = append_all-AreNumbered calls t h in
    let (more, e) = stored_frames-append_all calls t turn in
    (
      all,
      rw e (
          rw (keep-cursor after 0 (stored_frames turn t) more (rw e at (all turn)))
            (sym (keep-append (past after) (stored_frames turn t) more))),
    )
