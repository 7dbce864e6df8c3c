-- ===== src/Harness/Worker/Waiting.antt =====
-- What a test may wait for on a worker: its frames, and the end of its read loop.
use distributed_donut.Prelude.{
  ℕ, ◌≤◌, ◌<◌, ◌≡◌, refl, List, [], ◌∷◌, ok, Option, none, some, Error, timed_out_waiting,
  connection_closed, true, false, leb-false, le→leb, arith, inl, inr, dec_lt, Bool-cases,
}
use distributed_donut.Harness.Worker.{
  Worker, Chance, run, frame_count, Ready, on_notify, on_deadline, on_done, wait_for_frames, close,
  close_returns,
}

-- From a look at the worker, notifications alone lead to its last look, each after one that found too few
-- frames; `rest` is what comes after the last.
pub data Passes (n : ℕ)
    : Worker → List (Ready × Worker) → (last : Worker) (rest : List (Ready × Worker)) → Type 0 where
  here : {w : Worker} {later : List (Ready × Worker)} → Passes n w later w later
  past :
      {w w' last : Worker} {later rest : List (Ready × Worker)}
      → frame_count w < n
      → Passes n w' later last rest
      → Passes n w ((on_notify, w') ∷ later) last rest

-- What the wait comes to at its last look, by what that finds and what the select finds after it.
pub data Waited (n : ℕ) (last : Worker)
    : List (Ready × Worker) → Option (ℕ × Option Error) → Type 0 where
  still : frame_count last < n → Waited n last [] none
  enough :
      {rest : List (Ready × Worker)}
      → n ≤ frame_count last
      → Waited n last rest (some (frame_count last, none))
  too_late :
      {again w' : Worker} {more : List (Ready × Worker)}
      → frame_count last < n
      → Waited n last
          ((on_deadline again, w') ∷ more)
          (some (frame_count w', some (timed_out_waiting n (frame_count again))))
  just_enough :
      {w' : Worker} {more : List (Ready × Worker)}
      → frame_count last < n
      → n ≤ frame_count w'
      → Waited n last ((on_done, w') ∷ more) (some (frame_count w', none))
  closed :
      {w' : Worker} {more : List (Ready × Worker)}
      → frame_count last < n
      → frame_count w' < n
      → Waited n last
          ((on_done, w') ∷ more)
          (some (frame_count w', some (connection_closed (frame_count w') n)))

enough_now :
    (n : ℕ) (w : Worker) (later : List (Ready × Worker))
    → n ≤ frame_count w
    → (last : Worker) × (rest : List (Ready × Worker)) × Passes n w later last rest
      × Waited n last rest (wait_for_frames n w later)
unfolding wait_for_frames
enough_now n w [] h = (w, [], here, rw (le→leb n (frame_count w) h) (enough h))
enough_now n w (turn ∷ later) h =
    (w, turn ∷ later, here, rw (le→leb n (frame_count w) h) (enough h))

-- WaitForFrames goes on from look to look as long as each finds too few frames and a notification follows. At
-- the last look it returns the count with no error if that is enough, and only then; with too few it still
-- waits if nothing follows, returns the count and the timeout's error if the deadline follows, and if the end
-- of the read loop follows, the count, with the error for a closed connection exactly if it is too small.
pub wait_for_frames_lem :
    (n : ℕ) (w : Worker) (later : List (Ready × Worker))
    → (last : Worker) × (rest : List (Ready × Worker)) × Passes n w later last rest
      × Waited n last rest (wait_for_frames n w later)
unfolding wait_for_frames
wait_for_frames_lem n w [] = elim (dec_lt (frame_count w) n) [
  | yes few ↦ (w, [], here, rw (leb-false n (frame_count w) few) (still few))
  | no e ↦ enough_now n w [] (omega arith)
]
wait_for_frames_lem n w ((on_notify, w') ∷ later) = elim (dec_lt (frame_count w) n) [
  | no e ↦ enough_now n w ((on_notify, w') ∷ later) (omega arith)
  | yes few ↦
      let (last, rest, passes, result) = wait_for_frames_lem n w' later in
      (last, rest, past few passes, rw (leb-false n (frame_count w) few) result)
]
wait_for_frames_lem n w ((on_deadline again, w') ∷ later) = elim (dec_lt (frame_count w) n) [
  | no e ↦ enough_now n w ((on_deadline again, w') ∷ later) (omega arith)
  | yes few ↦ (
    w,
    (on_deadline again, w') ∷ later,
    here,
    rw (leb-false n (frame_count w) few) (too_late few),
  )
]
wait_for_frames_lem n w ((on_done, w') ∷ later) = elim (dec_lt (frame_count w) n) [
  | no e ↦ enough_now n w ((on_done, w') ∷ later) (omega arith)
  | yes few ↦ elim (dec_lt (frame_count w') n) [
    | yes few' ↦ (
      w,
      (on_done, w') ∷ later,
      here,
      rw (leb-false n (frame_count w) few, leb-false n (frame_count w') few') (closed few few'),
    )
    | no e ↦ (
      w,
      (on_done, w') ∷ later,
      here,
      rw (leb-false n (frame_count w) few, le→leb n (frame_count w') (omega arith))
          (just_enough few (omega arith)),
    )
  ]
]

-- Close has run only on a closed connection.
pub IsClosable : Worker → Type 0
IsClosable w = w.close_once ≡ true → w.conn_open ≡ false

close-conn_open : (w : Worker) → IsClosable w → (close w).conn_open ≡ false
unfolding close IsClosable
close-conn_open w closable = elim (Bool-cases w.close_once) [
  | inl e ↦ rw e (closable e)
  | inr e ↦ rw e refl
]

close-close : (w : Worker) → close (close w) ≡ close w
unfolding close
close-close w = elim (Bool-cases w.close_once) [ inl e ↦ simp e | inr e ↦ simp e ]

run_closed :
    (w : Worker) (reads : List (List ℕ × Chance))
    → w.conn_open ≡ false
    → run w reads ≡ ok (record w { done = true }, [])
unfolding run
run_closed w [] e = refl
run_closed w ((msg, chance) ∷ reads) e = rw e refl

-- After Close the read loop ends at its next turn, whatever there is to read: it handles no further
-- message and writes nothing, and Close returns. A second Close changes nothing.
pub run-close :
    (w : Worker) (reads : List (List ℕ × Chance))
    → IsClosable w
    → (run (close w) reads ≡ ok (record (close w) { done = true }, []))
      × (close_returns (record (close w) { done = true }) ≡ true)
      × (close (close w) ≡ close w)
unfolding close_returns
run-close w reads closable =
    (run_closed (close w) reads (close-conn_open w closable), refl, close-close w)
