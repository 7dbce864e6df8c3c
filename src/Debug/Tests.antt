-- ===== src/Debug/Tests.antt =====
-- internal/debug on two short buffers.
use distributed_donut.Prelude.{
  ℕ, zero, suc, replicate, length-replicate, ◌≡◌, refl, List, [], ◌∷◌, drop, ok, panic,
  out_of_range, arith,
}
use distributed_donut.Protocol.{index}
use distributed_donut.Debug.{decode_frame, console_drawer, on_tick}
use distributed_donut.Debug.Runs.{every_second, console_drawer_lem}
use distributed_donut.Debug.Drawer.{IsEncoded}

abbrev two_bytes : List ℕ
two_bytes = 0x57 ∷ 0xcd ∷ []

decoded : decode_frame two_bytes ≡ ok (b';' ∷ b'!' ∷ 32 ∷ 10 ∷ [])
unfolding decode_frame index drop
decoded = refl

not_a_character : decode_frame (0xe0 ∷ []) ≡ panic out_of_range
unfolding decode_frame index drop
not_a_character = refl

-- three frames
abbrev three_frames : List ℕ
three_frames = replicate 2640 0x57

replicate-IsEncoded : (n : ℕ) → IsEncoded (replicate n 0x57)
unfolding replicate
replicate-IsEncoded zero = tt
replicate-IsEncoded (suc n) = (omega arith, omega arith, replicate-IsEncoded n)

console_drawer_lem_example :
    (console_drawer (12 ∷ []) [] three_frames (replicate 1 on_tick)
      ≡ ok (every_second (12 ∷ []) three_frames 1))
    × (console_drawer (12 ∷ []) [] three_frames (replicate 2 on_tick) ≡ panic out_of_range)
console_drawer_lem_example =
    console_drawer_lem (12 ∷ []) [] three_frames 1 (replicate-IsEncoded 2640)
      (omega (arith, length-replicate {A = ℕ} 2640 0x57))
      (omega (arith, length-replicate {A = ℕ} 2640 0x57))
