-- ===== src/Turns/Announced.antt =====
-- The frames that a rejection leaves on the stream of its turn (turns.py, `reject_on_stream`).
use mathlib.Core.Path.{subst}
use mathlib.Core.List.{append_assoc}
use rya.Prelude.{
  ℕ, suc, String, ◌≡◌, refl, sym, ap, ◌∙◌, inl, inr, Option, none, some, List, [], ◌∷◌, ◌++◌,
  length, length-append, eq_iff, arith,
}
use rya.Json.{Json}
use rya.Errors.{Exec, Result, ok, err, then_run}
use rya.Store.{Store}
use rya.Store.Docs.{Run, Approval, Frame, Stream}
use rya.Store.Runs.{get_run, get_approval}
use rya.Store.Streams.{stored_frames, numbered, stream_append}
use rya.Queue.Enqueue.{given_id}
use rya.Turns.Approvals.{
  run_of, rejected_run, reject_approval, summary, rejection_frame, append_frame, summarised,
  reject_streamed, reject_on_stream, ends_turn, is_terminal, status_text,
}
use rya.Turns.Streaming.{stored_frames-append}
use rya.Turns.Rejections.{reject_approval_lem, reject_approval-streams, with_streams, Outcome}

-- the frame that follows a rejection that was carried out
abbrev pub closing : Result Run → List (String × Json)
closing (ok r) = ("run", summary r) ∷ []
closing (err c) = []

-- A client that follows the turn sees its end exactly when the rejection was carried out.
abbrev pub EndsWith : Result Run → List Frame → Type 0
EndsWith (ok r) fs = (f : Frame) × (is_terminal fs ≡ some f) × (f.payload ≡ summary r)
EndsWith (err c) fs = is_terminal fs ≡ none

module _ (now : ℕ) (i : String) (actor : Option String) (s : Store) (a : Approval)
    (turn : String) where
  abbrev announced : Result Run → List (String × Json)
  announced x = rejection_frame i actor (some a) ∷ closing x

  -- the frames of the turn behind those of before
  abbrev pub new_frames : Result Run → List Frame
  new_frames x = numbered now (length (stored_frames turn s.streams)) (announced x)

  -- what stands on the stream before the rejection is tried
  abbrev noted : List Stream
  noted = (stream_append now turn (rejection_frame i actor (some a) ∷ []) s.streams).1

  -- The result of the rejection, its frames behind the others, and its writes.
  abbrev pub Announced : Result Run × Store → Result Run × Store → Type 0
  Announced x y =
      (y.0 ≡ x.0)
      × (stored_frames turn y.1.streams ≡ stored_frames turn s.streams ++ new_frames x.0)
      × (y.1.runs ≡ x.1.runs)
      × (y.1.approvals ≡ x.1.approvals)
      × (y.1.queue ≡ x.1.queue)

  noted_frames :
      stored_frames turn noted
      ≡ stored_frames turn s.streams
        ++ numbered now
            (length (stored_frames turn s.streams))
            (rejection_frame i actor (some a) ∷ [])
  noted_frames =
      stored_frames-append now turn turn (rejection_frame i actor (some a) ∷ []) s.streams
      ∙ rw ((eq_iff turn turn).1 refl) refl

  -- the rest of `reject_on_stream`
  abbrev closes : Run → Exec Store Run
  closes r t = (ok r, append_frame now turn ("run", summary r) t)

  two_frames :
      (f : String × Json) (t : Store)
      → stored_frames turn (append_frame now turn f (record t { streams = noted })).streams
        ≡ stored_frames turn s.streams
          ++ numbered now
              (length (stored_frames turn s.streams))
              (rejection_frame i actor (some a) ∷ f ∷ [])
  unfolding append_frame numbered
  two_frames f t =
      let old = stored_frames turn s.streams in
      let first = numbered now (length old) (rejection_frame i actor (some a) ∷ []) in
      let more : length (old ++ first) ≡ suc (length old) = length-append old first ∙ omega arith in
      stored_frames-append now turn turn (f ∷ []) noted
      ∙ rw ((eq_iff turn turn).1 refl) (
          rw noted_frames
            (rw more (append_assoc old first (numbered now (suc (length old)) (f ∷ [])))))

  summarised_lem :
      (r : Result Run) (t : Store)
      → Announced (r, t) (then_run (with_streams now i actor s noted (r, t)) closes)
  unfolding append_frame
  summarised_lem (ok r) t = (refl, two_frames ("run", summary r) t, refl, refl, refl)
  summarised_lem (err c) t = (refl, noted_frames, refl, refl, refl)

  on_stream :
      (r : Run)
      → get_approval i s ≡ some a
      → get_run a.run_id s ≡ some r
      → given_id r.turn_id ≡ some turn
      → reject_on_stream now i actor s
        ≡ then_run (with_streams now i actor s noted (reject_approval now i actor s)) closes
  unfolding reject_on_stream reject_streamed summarised run_of append_frame
  on_stream r e f g =
      rw e (rw f (rw g (ap (λ x. then_run x closes) (reject_approval-streams now i actor s noted))))

  ends : (x : Result Run × Store) → Outcome now i actor s x → EndsWith x.0 (new_frames x.0)
  unfolding is_terminal ends_turn numbered summary status_text rejected_run rejection_frame
  ends x (inl (c, e)) = rw e refl
  ends x (inr (b, r, _, _, _, e)) = rw e (_, refl, refl)

  -- For a stored approval whose run belongs to a turn, `reject_on_stream` has the result and the
  -- writes to runs, approvals and queue of `reject_approval`, and puts behind the frames of the
  -- turn the rejection and, only when it was carried out, the run: a client finds the end of the
  -- turn, with the summary of the rejected run, exactly when the rejection was carried out. The
  -- rejection is announced even when it is refused.
  pub reject_on_stream_ends :
      (r : Run)
      → get_approval i s ≡ some a
      → get_run a.run_id s ≡ some r
      → given_id r.turn_id ≡ some turn
      → Announced (reject_approval now i actor s) (reject_on_stream now i actor s)
        × EndsWith (reject_approval now i actor s).0 (new_frames (reject_approval now i actor s).0)
  reject_on_stream_ends r e f g = (
    subst (Announced (reject_approval now i actor s)) (sym (on_stream r e f g))
        (summarised_lem (reject_approval now i actor s).0 (reject_approval now i actor s).1),
    ends (reject_approval now i actor s) (reject_approval_lem now i actor s),
  )
