-- ===== src/Harness/Renderer/Verify.antt =====
-- What `VerifyContiguousFrames` accepts.
use distributed_donut.Prelude.{
  ℕ, zero, suc, ◌+◌, ◌-◌, ◌*◌, ◌/◌, ◌%◌, ◌≤◌, ◌^◌, ◌≡◌, ◌≢◌, ◌⊎◌, inl, inr, not, refl, sym, ap, ◌∙◌,
  subst, List, [], ◌∷◌, ◌++◌, length, take, drop, replicate, length-append, length-take,
  take-append, drop-append, ap₂, take-append-drop, append_assoc, arith, Outcome, ok, err, Error,
  too_few_frames, wrong_watermark, body_corrupted, ◌>>=◌, ◌>>◌, ◌==◌, ltb, if◌then◌else◌, u8, u32,
  Bool-cases,
}
use distributed_donut.Protocol.{frame_size, slice, uint32, word}
use distributed_donut.Protocol.Errors.{Bytes}
use distributed_donut.Harness.Renderer.{
  frame_watermark, check_body, verify_from, verify_contiguous_frames,
}
use distributed_donut.Harness.Renderer.Frames.{
  stamped, frames_from, length-stamped, length-frames_from, slice_inside,
}

pub Bytes-append : (xs ys : List ℕ) → Bytes (xs ++ ys) → Bytes xs × Bytes ys
Bytes-append [] ys h = (tt, h)
Bytes-append (x ∷ xs) ys h = ((h.0, (Bytes-append xs ys h.1).0), (Bytes-append xs ys h.1).1)

check_body_lem :
    (j k : ℕ) (xs : List ℕ)
    → ((xs ≡ replicate (length xs) (u8 j)) × (check_body j k xs ≡ ok tt))
      ⊎ ((e : Error) × (check_body j k xs ≡ err e) × (xs ≢ replicate (length xs) (u8 j)))
unfolding check_body replicate
check_body_lem j k [] = inl (refl, refl)
check_body_lem j k (x ∷ xs) = elim (Bool-cases (x == u8 j)) [
  | inr other ↦ inr (body_corrupted j k, rw other refl, λ e. ground arith)
  | inl hit ↦
      let head : x ≡ u8 j = ground arith in
      elim (check_body_lem j (k + 1) xs) [
        | inl (same, e) ↦ inl (ground arith, rw (hit, e) refl)
        | inr (bad, e, differs) ↦ inr (bad, rw (hit, e) refl, λ all. differs (cc all))
      ]
]

-- what the loop does with frame `j`, before it goes on to `next`
abbrev checked : ℕ → List ℕ → Outcome (Unit {0}) → Outcome (Unit {0})
checked j frame next = frame_watermark frame >>= λ got.
    (if not (got == u32 j) then err (wrong_watermark j got) else check_body j 4 (drop 4 frame))
    >> next

checked_lem :
    (j : ℕ) (frame : List ℕ) (next : Outcome (Unit {0}))
    → length frame ≡ frame_size
    → Bytes frame
    → ((frame ≡ stamped j) × (checked j frame next ≡ next))
      ⊎ ((e : Error) × (checked j frame next ≡ err e) × (frame ≢ stamped j))
unfolding frame_watermark slice uint32 take drop stamped
checked_lem j [] next e h = absurd (omega arith)
checked_lem j (a ∷ []) next e h = absurd (omega arith)
checked_lem j (a ∷ b ∷ []) next e h = absurd (omega arith)
checked_lem j (a ∷ b ∷ c ∷ []) next e h = absurd (omega arith)
checked_lem j (a ∷ b ∷ c ∷ d ∷ rest) next e (ha, (hb, (hc, (hd, _)))) =
    elim (Bool-cases (word a b c d == u32 j)) [
      | inr other ↦ inr (
        wrong_watermark j (word a b c d),
        ground arith,
        λ same.
            let a' : a ≡ j / 2 ^ 24 % 256 = cc same in
            let b' : b ≡ j / 2 ^ 16 % 256 = cc same in
            let c' : c ≡ j / 2 ^ 8 % 256 = cc same in
            let d' : d ≡ j % 256 = cc same in
            let number : word a b c d ≡ u32 j = omega arith in ground arith,
      )
      | inl hit ↦
          let number : word a b c d ≡ u32 j = ground arith in
          elim (check_body_lem j 4 rest) [
            | inl (same, e') ↦
                let a' : a ≡ j / 2 ^ 24 % 256 = omega arith in
                let b' : b ≡ j / 2 ^ 16 % 256 = omega arith in
                let c' : c ≡ j / 2 ^ 8 % 256 = omega arith in
                let d' : d ≡ j % 256 = omega arith in
                let l : length rest ≡ frame_size - 4 = omega arith in
                let body : rest ≡ replicate (frame_size - 4) (u8 j) =
                  same ∙ ap (λ k. replicate k (u8 j)) l in
                inl (cc (a', b', c', d', body), ground arith)
            | inr (bad, e', differs) ↦
                let l : length rest ≡ frame_size - 4 = omega arith in
                inr (
                  bad,
                  ground arith,
                  λ same.
                      let body : rest ≡ replicate (frame_size - 4) (u8 j) = cc same in
                      differs (body ∙ ap (λ k. replicate k (u8 j)) (sym l)),
                )
          ]
    ]

take-stamped : (j : ℕ) (ys : List ℕ) → take frame_size (stamped j ++ ys) ≡ stamped j
take-stamped j ys =
    ap (λ k. take k (stamped j ++ ys)) (sym (length-stamped j)) ∙ take-append (stamped j) ys

drop-stamped : (j : ℕ) (ys : List ℕ) → drop frame_size (stamped j ++ ys) ≡ ys
drop-stamped j ys =
    ap (λ k. drop k (stamped j ++ ys)) (sym (length-stamped j)) ∙ drop-append (stamped j) ys

-- The loop from frame `j` on: all frames are stamped, or an error.
verify_from_lem :
    (rounds j : ℕ) (pre tail : List ℕ)
    → length pre ≡ j * frame_size
    → rounds * frame_size ≤ length tail
    → Bytes tail
    → ((rest : List ℕ) × (tail ≡ frames_from j rounds ++ rest)
        × (verify_from (pre ++ tail) rounds j ≡ ok tt))
      ⊎ ((e : Error) × (verify_from (pre ++ tail) rounds j ≡ err e)
          × ((rest : List ℕ) → tail ≢ frames_from j rounds ++ rest))
unfolding verify_from frames_from
verify_from_lem zero j pre tail at long b = inl (tail, refl, refl)
verify_from_lem (suc rounds) j pre tail at long b = elim (checked_lem j frame next whole b'.0) [
  | inr (e, bad, differs) ↦ inr (e, first ∙ bad, λ rest same. differs (stamped_head rest same))
  | inl (good, passed) ↦
      elim (verify_from_lem rounds (j + 1) (pre ++ frame) others at' long' b'.1) [
        | inl (rest, same, e) ↦ inl (
          rest,
          sym split
              ∙ ap₂ (λ (f t : List ℕ). f ++ t) good same
              ∙ sym (append_assoc (stamped j) (frames_from (j + 1) rounds) rest),
          first ∙ passed ∙ again ∙ e,
        )
        | inr (e, bad, differs) ↦
            inr
              (e, first ∙ passed ∙ again ∙ bad, λ rest same. differs rest (stamped_tail rest same))
      ]
]
  where
    frame : List ℕ
    frame = take frame_size tail

    others : List ℕ
    others = drop frame_size tail

    split : frame ++ others ≡ tail
    split = take-append-drop frame_size tail

    whole : length frame ≡ frame_size
    whole = omega (arith, length-take frame_size tail)

    next : Outcome (Unit {0})
    next = verify_from (pre ++ tail) rounds (j + 1)

    b' : Bytes frame × Bytes others
    b' = Bytes-append frame others (subst Bytes (sym split) b)

    at' : length (pre ++ frame) ≡ (j + 1) * frame_size
    at' = omega (arith, length-append pre frame, whole)

    long' : rounds * frame_size ≤ length others
    long' = omega (arith, ap (λ (t : List ℕ). length t) split, length-append frame others, whole)

    first : verify_from (pre ++ tail) (suc rounds) j ≡ checked j frame next
    first =
        let part : slice (pre ++ tail) (j * frame_size) ((j + 1) * frame_size) ≡ ok frame =
          ap (λ (t : List ℕ). slice (pre ++ t) (j * frame_size) ((j + 1) * frame_size)) (sym split)
          ∙ slice_inside pre frame others (j * frame_size) ((j + 1) * frame_size) (sym at)
              (omega (arith, whole)) in
        ap (λ (o : Outcome (List ℕ)). o >>= λ f. checked j f next) part

    again : next ≡ verify_from ((pre ++ frame) ++ others) rounds (j + 1)
    again =
        ap (λ (t : List ℕ). verify_from t rounds (j + 1))
          (ap (λ (t : List ℕ). pre ++ t) (sym split) ∙ sym (append_assoc pre frame others))

    stamped_head :
        (rest : List ℕ)
        → tail ≡ (stamped j ++ frames_from (j + 1) rounds) ++ rest
        → frame ≡ stamped j
    stamped_head rest same =
        ap (take frame_size) (same ∙ append_assoc (stamped j) (frames_from (j + 1) rounds) rest)
        ∙ take-stamped j (frames_from (j + 1) rounds ++ rest)

    stamped_tail :
        (rest : List ℕ)
        → tail ≡ (stamped j ++ frames_from (j + 1) rounds) ++ rest
        → others ≡ frames_from (j + 1) rounds ++ rest
    stamped_tail rest same =
        ap (drop frame_size) (same ∙ append_assoc (stamped j) (frames_from (j + 1) rounds) rest)
        ∙ drop-stamped j (frames_from (j + 1) rounds ++ rest)

-- `VerifyContiguousFrames` passes a stream of bytes exactly when it begins with the frames 0 to n - 1 as
-- `Render` stamps them, every byte of each; on any other stream it returns an error, and it never panics.
pub verify_contiguous_frames_iff :
    (stream : List ℕ) (n : ℕ)
    → Bytes stream
    → ((rest : List ℕ) × (stream ≡ frames_from 0 n ++ rest)
        × (verify_contiguous_frames stream n ≡ ok tt))
      ⊎ ((e : Error) × (verify_contiguous_frames stream n ≡ err e)
          × ((rest : List ℕ) → stream ≢ frames_from 0 n ++ rest))
unfolding verify_contiguous_frames
verify_contiguous_frames_iff stream n b = elim (Bool-cases (ltb (length stream / frame_size) n)) [
  | inl short ↦ inr (
    too_few_frames (length stream / frame_size) n,
    rw short refl,
    λ rest same.
        let total = ap (λ (t : List ℕ). length t) same in
        ground (arith, length-append (frames_from 0 n) rest, length-frames_from 0 n),
  )
  | inr long ↦ elim (verify_from_lem n 0 [] stream refl (ground arith) b) [
    | inl (rest, same, e) ↦ inl (rest, same, rw long e)
    | inr (bad, e, differs) ↦ inr (bad, rw long e, differs)
  ]
]
