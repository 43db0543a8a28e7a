-- ===== src/Store/Streams.antt =====
-- store.py: the stream buffers of the turns, `stream_append` and `stream_read`.
use rya.Prelude.{ℕ, suc, ◌+◌, String, Option, none, some, List, [], ◌∷◌, ◌++◌, keep, length}
use rya.Prelude.Int.{ℤ, pos, ltb_ℤ}
use rya.Json.{Json}
use rya.Store.Docs.{Frame, Stream}
use rya.Store.Table

abbrev pub stream_id : Stream → String
stream_id d = d.turn_id

abbrev frames_of : Option Stream → List Frame
frames_of none = []
frames_of (some d) = d.frames

-- the frames of a turn's document; a turn with no document has none
abbrev pub stored_frames : String → List Stream → List Frame
stored_frames turn t = frames_of (Table.get stream_id turn t)

-- the loop of `stream_append`: the frames are numbered on from `base`
unfoldable pub numbered : ℕ → ℕ → List (String × Json) → List Frame
numbered now base [] = []
numbered now base ((kind, payload) ∷ fs) =
    (record { seq = base; kind = kind; payload = payload; ts = now }) ∷ numbered now (suc base) fs

-- stream_append, and the sequence number that comes next
unfoldable pub stream_append : ℕ → String → List (String × Json) → List Stream → ℕ × List Stream
stream_append now turn fs t =
    let old = stored_frames turn t in
    let base = length old in
    (
      base + length fs,
      Table.save stream_id (record { turn_id = turn; frames = old ++ numbered now base fs }) t,
    )

-- stream_read
unfoldable pub stream_read : String → ℤ → List Stream → List Frame
stream_read turn after t = keep (λ f. ltb_ℤ after (pos f.seq)) (stored_frames turn t)
