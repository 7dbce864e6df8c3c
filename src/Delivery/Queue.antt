-- ===== src/Delivery/Queue.antt =====
-- Which broadcast frames stand in a queue after each operation on it.
use distributed_donut.Prelude.{
  ℕ, List, [], ◌∷◌, ◌++◌, append-nil, append_assoc, some, Bool, true, false, if◌then◌else◌, ◌≡◌,
  refl, sym, ap, subst, ◌∙◌, arith, Bool-cases, inl, inr,
}
use distributed_donut.Protocol.{
  encode_frame_broadcast, encode_client_count, encode_buffer_fullness, encode_render_task,
}
use distributed_donut.Protocol.RoundTrip.{
  encode_client_count_layout, encode_buffer_fullness_layout, encode_frame_broadcast_layout,
  encode_render_task_layout,
}
use distributed_donut.Client.{Client, enqueue, request_work, Ready, write_pump}
use distributed_donut.Client.Messages.{write_pump_queue}
use distributed_donut.Delivery.{accepts, body_of, frames_of, accepted, broadcasts_of}

pub frames_of-append : (xs ys : List (List ℕ)) → frames_of (xs ++ ys) ≡ frames_of xs ++ frames_of ys
unfolding frames_of
frames_of-append [] ys = refl
frames_of-append (x ∷ xs) ys =
    ap (λ (t : List (List ℕ)). body_of x ++ t) (frames_of-append xs ys)
    ∙ sym (append_assoc (body_of x) (frames_of xs) (frames_of ys))

pub accepted-append :
    (log : List (Bool × List ℕ)) (taken : Bool) (frames : List ℕ)
    → accepted (log ++ (taken, frames) ∷ []) ≡ accepted log ++ (if taken then frames ∷ [] else [])
unfolding accepted
accepted-append [] true frames = refl
accepted-append [] false frames = refl
accepted-append ((true, first) ∷ log) taken frames =
    ap (λ (t : List (List ℕ)). first ∷ t) (accepted-append log taken frames)
accepted-append ((false, first) ∷ log) taken frames = accepted-append log taken frames

pub broadcasts_of-append :
    (log : List (Bool × List ℕ)) (taken : Bool) (frames : List ℕ)
    → broadcasts_of (log ++ (taken, frames) ∷ []) ≡ broadcasts_of log ++ frames ∷ []
unfolding broadcasts_of
broadcasts_of-append [] taken frames = refl
broadcasts_of-append ((b, first) ∷ log) taken frames =
    ap (λ (t : List (List ℕ)). first ∷ t) (broadcasts_of-append log taken frames)

pub body_of-encode_frame_broadcast :
    (frames : List ℕ) → body_of (encode_frame_broadcast frames) ≡ frames ∷ []
body_of-encode_frame_broadcast frames = ap body_of (encode_frame_broadcast_layout frames)

pub body_of-encode_render_task :
    (id first last : ℕ) → body_of (encode_render_task id first last) ≡ []
body_of-encode_render_task id first last = ap body_of (encode_render_task_layout id first last)

frames_of_one : (msg : List ℕ) → frames_of (msg ∷ []) ≡ body_of msg
unfolding frames_of
frames_of_one msg = append-nil (body_of msg)

-- A message in a queue adds its frames if the queue has room.
pub frames_of-enqueue :
    (c : Client) (msg : List ℕ)
    → frames_of (enqueue c msg).send ≡ frames_of c.send ++ (if accepts c then body_of msg else [])
unfolding enqueue
frames_of-enqueue c msg = elim (Bool-cases (accepts c)) [
  | inl room ↦ rw room (
      frames_of-append c.send (msg ∷ [])
      ∙ ap (λ (t : List (List ℕ)). frames_of c.send ++ t) (frames_of_one msg))
  | inr full ↦ rw full (sym (append-nil (frames_of c.send)))
]

-- A message without frames leaves them as they were.
pub frames_of-enqueue_other :
    (c : Client) (msg : List ℕ)
    → body_of msg ≡ []
    → frames_of (enqueue c msg).send ≡ frames_of c.send
frames_of-enqueue_other c msg e =
    frames_of-enqueue c msg
    ∙ ap (λ (t : List (List ℕ)). frames_of c.send ++ t) (none_taken (accepts c))
    ∙ append-nil (frames_of c.send)
  where
    none_taken : (b : Bool) → (if b then body_of msg else []) ≡ []
    none_taken true = e
    none_taken false = refl

-- A task in a queue is no frames.
pub frames_of-request_work :
    (c : Client) (id first last : ℕ)
    → frames_of (request_work some c id first last).send ≡ frames_of c.send
unfolding request_work
frames_of-request_work c id first last =
    frames_of-enqueue_other c (encode_render_task id first last)
      (body_of-encode_render_task id first last)

-- What WritePump takes from the queue it hands to the connection.
pub frames_of-write_pump :
    (c c' : Client) (r : Ready) (sent : List (List ℕ))
    → write_pump c r ≡ (true, c', sent)
    → frames_of sent ++ frames_of c'.send ≡ frames_of c.send
frames_of-write_pump c c' r sent e = elim (write_pump_queue c r) [
  | inl (_, queue, _) ↦
      sym (frames_of-append sent c'.send)
      ∙ ap frames_of (subst (λ x. x.2 ++ x.1.send ≡ c.send) e queue)
  | inr (inl (stopped, _, _, _)) ↦ absurd (ground arith)
  | inr (inr (stopped, _, _)) ↦ absurd (ground arith)
]

pub body_of-encode_client_count : (n : ℕ) → body_of (encode_client_count n) ≡ []
body_of-encode_client_count n = ap body_of (encode_client_count_layout n)

pub body_of-encode_buffer_fullness : (n : ℕ) → body_of (encode_buffer_fullness n) ≡ []
body_of-encode_buffer_fullness n = ap body_of (encode_buffer_fullness_layout n)
