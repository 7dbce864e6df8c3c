-- ===== src/Orchestrator/Pipeline/Progress/Finishes.antt =====
-- Runs of the loops, and what it is that a run brings a task of a round to its end.
use distributed_donut.Prelude.{
  ap, get_or, true, ℕ_discrete, suc, [], ◌∷◌, some, ◌==◌, false, ℕ, ◌+◌, ◌≤◌, ◌<◌, ◌≡◌, ◌≢◌, sym,
  subst, ◌∙◌, List, length, Option, arith,
}
use distributed_donut.Protocol.{batch_size}
use distributed_donut.Buffer.{max_frames}
use distributed_donut.Buffer.Floats.{Float64}
use distributed_donut.Client.Pool.{contains, wait_for_at_least_one, pick_new_client}
use distributed_donut.Orchestrator.{Config}
use distributed_donut.Orchestrator.Pipeline.{Pipeline, pool_of, Task, finished, running, update}
use distributed_donut.Orchestrator.Pipeline.Steps.{
  TaskStep, Step, task, admit, meet, spawn, advance, result, other, wake, greet, copy_frames, send,
  remove, Picks,
}

-- what a round leaves to the broadcaster
pub record Kept (s t : Pipeline) : Type 0 where
  pub head : t.batch_map.buffer.head ≡ s.batch_map.buffer.head
  pub tail : t.batch_map.buffer.tail ≡ s.batch_map.buffer.tail
  pub broadcaster : t.broadcaster ≡ s.broadcaster
  pub is_first_broadcast : t.is_first_broadcast ≡ s.is_first_broadcast
  pub stream : t.stream ≡ s.stream
  pub pool : t.pool ≡ s.pool

-- The parts that `Kept` is about, one by one.
pub keeps :
    {s t : Pipeline}
    → t.batch_map.buffer.head ≡ s.batch_map.buffer.head
    → t.batch_map.buffer.tail ≡ s.batch_map.buffer.tail
    → t.broadcaster ≡ s.broadcaster
    → t.is_first_broadcast ≡ s.is_first_broadcast
    → t.stream ≡ s.stream
    → t.pool ≡ s.pool
    → Kept s t
keeps head tail broadcaster first stream pool = record {
  head = head;
  tail = tail;
  broadcaster = broadcaster;
  is_first_broadcast = first;
  stream = stream;
  pool = pool;
}

pub Kept-trans : (s t u : Pipeline) → Kept s t → Kept t u → Kept s u
Kept-trans s t u a b = record {
  head = b.head ∙ a.head;
  tail = b.tail ∙ a.tail;
  broadcaster = b.broadcaster ∙ a.broadcaster;
  is_first_broadcast = b.is_first_broadcast ∙ a.is_first_broadcast;
  stream = b.stream ∙ a.stream;
  pool = b.pool ∙ a.pool;
}

abbrev pub moved : Pipeline → ℕ → ℕ → (ℕ → Task) → ℕ → Task → Pipeline
moved t n current tasks j next = record t { dispatcher = running n current (update tasks j next) }

index_of :
    (xs : List ℕ) (a : ℕ) → contains xs a ≡ true → (i : ℕ) × (i < length xs) × (get_or xs i 0 ≡ a)
unfolding contains get_or
index_of [] a h = absurd cc
index_of (x ∷ xs) a h = elim (ℕ_discrete x a) [
  | yes same ↦ (0, omega arith, same)
  | no ne ↦
      let h' : contains xs a ≡ true = ground arith in
      let (i, lt, e) = index_of xs a h' in (suc i, omega arith, e)
]

module _ (fl : Float64) (prepare : List ℕ → Option (List ℕ)) (cfg : Config)
    (worker : ℕ → List ℕ → Type 0) (a : ℕ) where
  -- Nobody but the client `a` returns anything in the step, and nobody joins or leaves the pool.
  abbrev pub OnlyFrom : {s t : Pipeline} → Step fl prepare cfg worker s t → Type 0
  OnlyFrom (admit e h) = Unit
  OnlyFrom (meet e m h) = Unit
  OnlyFrom (spawn e m) = Unit
  OnlyFrom (task j e lt step) = Unit
  OnlyFrom (advance e over far) = Unit
  OnlyFrom (result c r whole made h) = c ≡ a
  OnlyFrom (other clients pool same) = ⊥
  OnlyFrom (wake e h) = Unit
  OnlyFrom (greet e m h) = Unit
  OnlyFrom (copy_frames e m h) = Unit
  OnlyFrom (send e) = Unit
  OnlyFrom (remove e h) = Unit

  -- A run of such steps.
  pub data Steps (s : Pipeline) : Pipeline → Type 0 where
    stay : Steps s s
    go :
        {t u : Pipeline}
        → Steps s t
        → (step : Step fl prepare cfg worker t u) → OnlyFrom step
        → Steps s u

  pub Steps-trans : {s t u : Pipeline} → Steps s t → Steps t u → Steps s u
  Steps-trans first stay = first
  Steps-trans first (go rest step only) = go (Steps-trans first rest) step only

  -- The client `a` is in the pool.
  abbrev pub IsIn : Pipeline → Type 0
  IsIn s = contains s.pool a ≡ true

  pub IsIn-Picks : (s : Pipeline) → IsIn s → Picks s a
  unfolding pick_new_client
  IsIn-Picks s member =
      let (i, lt, e) = index_of s.pool a member in
      let some_ : (length s.pool == 0) ≡ false = ground arith in
      record { choose = λ n. i; below = lt; picks = rw some_ (ap some e) }

  pub IsIn-wait : (s : Pipeline) → IsIn s → wait_for_at_least_one (pool_of s) ≡ some tt
  unfolding wait_for_at_least_one
  IsIn-wait s member = let (i, lt, e) = index_of s.pool a member in ground arith

  -- A run from `s` after which task `j` is finished and the others are where they were.
  pub record Finishes (s : Pipeline) (n current j : ℕ) (tasks : ℕ → Task) (extra : ℕ) : Type 0 where
    pub last : Pipeline
    pub steps : Steps s last
    pub after : ℕ → Task
    pub shape : last.dispatcher ≡ running n current after
    pub over : after j ≡ finished
    pub others : (i : ℕ) → i ≢ j → after i ≡ tasks i
    pub kept : Kept s last
    pub counted :
        (i : ℕ) → (last.clients i).num_render_tasks ≤ (s.clients i).num_render_tasks + extra

  -- One step more in front.
  pub after-Step :
      (s t : Pipeline) (n current j : ℕ) (tasks tasks' : ℕ → Task) (m k : ℕ)
      → (step : Step fl prepare cfg worker s t) → OnlyFrom step
      → Kept s t
      → ((i : ℕ) → (t.clients i).num_render_tasks ≤ (s.clients i).num_render_tasks + m)
      → ((i : ℕ) → i ≢ j → tasks' i ≡ tasks i)
      → Finishes t n current j tasks' k
      → Finishes s n current j tasks (m + k)
  after-Step s t n current j tasks tasks' m k step only kept grown rest f = record {
    last = f.last;
    steps = Steps-trans (go stay step only) f.steps;
    after = f.after;
    shape = f.shape;
    over = f.over;
    others = λ i ne. f.others i ne ∙ rest i ne;
    kept = Kept-trans s t f.last kept f.kept;
    counted = λ i. omega (arith, grown i, f.counted i);
  }

  pub loosen :
      {n current j : ℕ} (s : Pipeline) (tasks : ℕ → Task) (m k : ℕ)
      → m ≤ k
      → Finishes s n current j tasks m
      → Finishes s n current j tasks k
  loosen s tasks m k le f = record {
    last = f.last;
    steps = f.steps;
    after = f.after;
    shape = f.shape;
    over = f.over;
    others = f.others;
    kept = f.kept;
    counted = λ i. omega (arith, f.counted i);
  }

  abbrev pub task_step :
      (s t : Pipeline) (n current j : ℕ) (tasks : ℕ → Task) (before next : Task)
      → s.dispatcher ≡ running n current tasks
      → j < n
      → tasks j ≡ before
      → TaskStep fl prepare cfg worker s current j before t next
      → Step fl prepare cfg worker s (moved t n current tasks j next)
  task_step s t n current j tasks before next ran lt e step =
      task j ran lt (subst (λ b. TaskStep fl prepare cfg worker s current j b t next) (sym e) step)

  -- The workers answer: for each frame of the ring there is a batch that one returns.
  abbrev pub Answers : Type 0
  Answers =
      (frame : ℕ)
      → frame < max_frames
      → (frames : List ℕ) × (length frames ≡ batch_size) × worker frame frames
