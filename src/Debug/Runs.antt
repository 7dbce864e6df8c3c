-- ===== src/Debug/Runs.antt =====
-- What the console renderer of internal/debug comes to when its frames run out.
use distributed_donut.Prelude.{
  ℕ, zero, suc, ◌*◌, ◌≤◌, ◌<◌, ◌≡◌, refl, List, [], ◌∷◌, ◌++◌, length, take, drop, replicate, ok,
  panic, out_of_range, arith, length-drop, lt→ltb, inl, inr,
}
use distributed_donut.Debug.{tick, console_drawer, on_tick}
use distributed_donut.Debug.Drawer.{IsEncoded, text, tick_lem}

drop-IsEncoded : (n : ℕ) (bs : List ℕ) → IsEncoded bs → IsEncoded (drop n bs)
unfolding drop
drop-IsEncoded zero bs h = h
drop-IsEncoded (suc n) [] h = tt
drop-IsEncoded (suc n) (b ∷ bs) h = drop-IsEncoded n bs h.2

-- every second frame, each after a cleared screen
abbrev pub every_second : List ℕ → List ℕ → ℕ → List ℕ
every_second clear_screen frames zero = []
every_second clear_screen frames (suc k) =
    clear_screen ++ text (take 880 frames) ++ every_second clear_screen (drop 1760 frames) k

tick_draws :
    (frames : List ℕ)
    → IsEncoded frames
    → 1760 ≤ length frames
    → tick frames ≡ ok (text (take 880 frames), drop 1760 frames)
tick_draws frames h many = elim (tick_lem frames h) [
  | inl (e, _) ↦ absurd (omega arith)
  | inr (inl (_, few, _)) ↦ absurd (omega arith)
  | inr (inr (_, e)) ↦ e
]

tick_panics :
    (frames : List ℕ)
    → IsEncoded frames
    → 0 < length frames
    → length frames < 1760
    → tick frames ≡ panic out_of_range
tick_panics frames h left few = elim (tick_lem frames h) [
  | inl (e, _) ↦ absurd (omega arith)
  | inr (inl (_, _, e)) ↦ e
  | inr (inr (many, _)) ↦ absurd (omega arith)
]

-- As long as two frames are left for each tick, each tick draws the first of the two.
console_drawer-ticks :
    (clear_screen farewell frames : List ℕ) (k : ℕ)
    → IsEncoded frames
    → 1760 * k ≤ length frames
    → console_drawer clear_screen farewell frames (replicate k on_tick)
      ≡ ok (every_second clear_screen frames k)
unfolding console_drawer replicate
console_drawer-ticks clear_screen farewell frames zero h enough = refl
console_drawer-ticks clear_screen farewell frames (suc k) h enough =
    rw
      (
        tick_draws frames h (omega arith),
        lt→ltb 0 (length frames) (omega arith),
        console_drawer-ticks clear_screen farewell (drop 1760 frames) k
            (drop-IsEncoded 1760 frames h) (omega (arith, length-drop 1760 frames)),
      )
      refl

-- After the last whole pair of frames a tick panics on what is left.
console_drawer-panics :
    (clear_screen farewell frames : List ℕ) (k : ℕ)
    → IsEncoded frames
    → 1760 * k < length frames
    → length frames < 1760 * suc k
    → console_drawer clear_screen farewell frames (replicate (suc k) on_tick) ≡ panic out_of_range
unfolding console_drawer replicate
console_drawer-panics clear_screen farewell frames zero h more less =
    rw (tick_panics frames h (omega arith) (omega arith)) refl
console_drawer-panics clear_screen farewell frames (suc k) h more less =
    rw
      (
        tick_draws frames h (omega arith),
        console_drawer-panics clear_screen farewell (drop 1760 frames) k
            (drop-IsEncoded 1760 frames h) (omega (arith, length-drop 1760 frames))
            (omega (arith, length-drop 1760 frames)),
      )
      refl

-- What becomes of buffered frames that do not fill up pairs of frames, when ticks alone follow: each tick
-- takes two frames and draws the first, never the second, and the tick after the last whole pair panics.
pub console_drawer_lem :
    (clear_screen farewell frames : List ℕ) (k : ℕ)
    → IsEncoded frames
    → 1760 * k < length frames
    → length frames < 1760 * suc k
    → (console_drawer clear_screen farewell frames (replicate k on_tick)
        ≡ ok (every_second clear_screen frames k))
      × (console_drawer clear_screen farewell frames (replicate (suc k) on_tick)
          ≡ panic out_of_range)
console_drawer_lem clear_screen farewell frames k h more less = (
  console_drawer-ticks clear_screen farewell frames k h (omega arith),
  console_drawer-panics clear_screen farewell frames k h more less,
)
