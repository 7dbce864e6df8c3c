-- ===== src/Debug/Drawer.antt =====
-- What the console renderer of internal/debug draws, and what it does to the frames that are left.
use distributed_donut.Prelude.{
  ℕ, zero, suc, ◌-◌, ◌*◌, ◌/◌, ◌%◌, ◌≤◌, ◌<◌, ◌≡◌, refl, ap, List, [], ◌∷◌, length, take, drop,
  get_or, ok, panic, out_of_range, ◌>>=◌, arith, min, lt→ltb, dec_lt, length-take,
  take_of_length-le, length-drop, ◌⊎◌, inl, inr,
}
use distributed_donut.Protocol.{slice, index}
use distributed_donut.Debug.{possible_characters, decode_frame, get_next_frame, tick}

-- Both halves of every byte stand for a character.
abbrev pub IsEncoded : List ℕ → Type 0
IsEncoded [] = Unit
IsEncoded (b ∷ bs) = (b / 16 < 14) × (b % 16 < 14) × IsEncoded bs

take-IsEncoded : (n : ℕ) (bs : List ℕ) → IsEncoded bs → IsEncoded (take n bs)
unfolding take
take-IsEncoded zero bs h = tt
take-IsEncoded (suc n) [] h = tt
take-IsEncoded (suc n) (b ∷ bs) h = (h.0, h.1, take-IsEncoded n bs h.2)

index_in_range : (xs : List ℕ) (i : ℕ) → i < length xs → index xs i ≡ ok (get_or xs i 0)
unfolding index drop get_or
index_in_range [] i h = absurd (omega arith)
index_in_range (x ∷ xs) zero h = refl
index_in_range (x ∷ xs) (suc i) h = index_in_range xs i (omega arith)

-- the two characters of each byte, the high half first
abbrev pub text : List ℕ → List ℕ
text [] = []
text (b ∷ bs) =
    get_or possible_characters (b / 16) 0 ∷ get_or possible_characters (b % 16) 0 ∷ text bs

-- Encoded bytes decode, each to its two characters.
pub decode_frame_lem : (bs : List ℕ) → IsEncoded bs → decode_frame bs ≡ ok (text bs)
unfolding decode_frame
decode_frame_lem [] h = refl
decode_frame_lem (b ∷ bs) h = rw (
  index_in_range possible_characters (b / 16) h.0,
  index_in_range possible_characters (b % 16) h.1,
  decode_frame_lem bs h.2,
)

length-text : (bs : List ℕ) → length (text bs) ≡ 2 * length bs
length-text [] = refl
length-text (b ∷ bs) = omega (arith, length-text bs)

next_frame_lem :
    (frames : List ℕ)
    → IsEncoded frames
    → get_next_frame frames ≡ ok (text (take (min 880 (length frames)) frames))
unfolding get_next_frame
next_frame_lem frames h =
    let n : ℕ = min 880 (length frames) in
    ground (arith, decode_frame_lem (take n frames) (take-IsEncoded n frames h))

slice_from : (b : List ℕ) (i : ℕ) → i ≤ length b → slice b i (length b) ≡ ok (drop i b)
unfolding slice
slice_from b i h =
    ground (arith, take_of_length-le (drop i b) (length b - i) (omega (arith, length-drop i b)))

slice_past : (b : List ℕ) (i : ℕ) → length b < i → slice b i (length b) ≡ panic out_of_range
unfolding slice
slice_past b i h = ground arith

shown : List ℕ → List ℕ
shown frames = text (take (min 880 (length frames)) frames)

length-shown : (frames : List ℕ) → length (shown frames) ≡ 2 * min 880 (length frames)
unfolding shown
length-shown frames = omega (
  arith,
  length-text (take (min 880 (length frames)) frames),
  length-take (min 880 (length frames)) frames,
)

tick_drawn :
    (frames : List ℕ)
    → IsEncoded frames
    → 0 < length frames
    → tick frames
      ≡ (slice frames (length (shown frames)) (length frames) >>= λ rest. ok (shown frames, rest))
unfolding tick shown
tick_drawn frames h some_left = rw (lt→ltb _ _ some_left, next_frame_lem frames h)

-- One tick on encoded bytes. With none left it does nothing. It draws the first frame, and goes on at
-- the byte whose index is the length of the drawn text, twice that of the frame: with two frames left or
-- more it skips the second, and with fewer it panics.
pub tick_lem :
    (frames : List ℕ)
    → IsEncoded frames
    → ((length frames ≡ 0) × (tick frames ≡ ok ([], frames)))
      ⊎ ((0 < length frames) × (length frames < 1760) × (tick frames ≡ panic out_of_range))
      ⊎ ((1760 ≤ length frames) × (tick frames ≡ ok (text (take 880 frames), drop 1760 frames)))
tick_lem frames h = elim (dec_lt 0 (length frames)) [
  | no e ↦ inl (omega arith, unfold tick in ground arith)
  | yes some_left ↦ elim (dec_lt (length frames) 1760) [
    | yes few ↦ inr (
        inl (
          some_left,
          few,
          rw (
            tick_drawn frames h some_left,
            slice_past frames (length (shown frames)) (omega (arith, length-shown frames)),
          ),
        ))
    | no many ↦ inr (inr (omega arith, skipped (omega arith)))
  ]
]
  where
    skipped : 1760 ≤ length frames → tick frames ≡ ok (text (take 880 frames), drop 1760 frames)
    skipped many =
        let e : min 880 (length frames) ≡ 880 = omega arith in
        let f : length (shown frames) ≡ 1760 = omega (arith, length-shown frames) in
        let g : shown frames ≡ text (take 880 frames) =
          unfold shown in ap (λ n. text (take n frames)) e in
        rw (tick_drawn frames h (omega arith), f, slice_from frames 1760 many, g)
