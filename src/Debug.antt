-- ===== src/Debug.antt =====
-- internal/debug/console.go: the console renderer of the debug build. Its terminal output is the text that
-- a step returns, and the ticker and what arrives are the events of its loop.
pub mod Drawer
pub mod Runs
mod Tests
use distributed_donut.Prelude.{
  ℕ, ◌+◌, ◌*◌, ◌/◌, ◌%◌, List, [], ◌∷◌, ◌++◌, length, take, drop, Outcome, ok, ◌>>=◌, ltb,
  if◌then◌else◌, Bool,
}
use distributed_donut.Protocol.{slice, index}

-- ".,-~:;=!*#$@ \n"
abbrev pub possible_characters : List ℕ
possible_characters =
    b'.' ∷ b',' ∷ b'-' ∷ b'~' ∷ b':' ∷ b';' ∷ b'=' ∷ b'!' ∷ b'*' ∷ b'#' ∷ b'$' ∷ b'@' ∷ 32 ∷ 10 ∷ []

-- `>> 4` is `/ 16`, and `& 0x0f` is `% 16`.
unfoldable pub decode_frame : List ℕ → Outcome (List ℕ)
decode_frame [] = ok []
decode_frame (current_byte ∷ encoded_frame) =
    let rest = decode_frame encoded_frame in
    index possible_characters (current_byte / 16) >>= λ high.
    index possible_characters (current_byte % 16) >>= λ low.
    rest >>= λ decoded. ok (high ∷ low ∷ decoded)

unfoldable pub get_next_frame : List ℕ → Outcome (List ℕ)
get_next_frame frames =
    let frame_size : ℕ = 880 in
    let end = if ltb (length frames) frame_size then length frames else frame_size in
    decode_frame (take end frames)

-- `frames = append(frames, newFrames...)`
unfoldable pub receive : List ℕ → List ℕ → List ℕ
receive frames new_frames = frames ++ new_frames

-- One tick: the text printed, and the frames left.
unfoldable pub tick : List ℕ → Outcome (List ℕ × List ℕ)
tick frames =
    if ltb 0 (length frames)
    then (get_next_frame frames >>= λ frame.
        slice frames (length frame) (length frames) >>= λ rest. ok (frame, rest))
    else ok ([], frames)

-- What the `select` of ConsoleDrawer found.
pub data Event : Type 0 where
  on_done : Event
  on_frames : (new_frames : List ℕ) → Event
  on_tick : Event

-- What clearing the screen prints: an escape sequence, or on Windows nothing, as a command does it there.
unfoldable get_clear_screen_command : (windows : Bool) → List ℕ
get_clear_screen_command windows = if windows then [] else 27 ∷ 91 ∷ 50 ∷ 74 ∷ 27 ∷ 91 ∷ 72 ∷ []

-- The loop, from the frames that are buffered: all that it prints until the events end. `farewell` is the
-- line that it prints at its end.
unfoldable pub console_drawer :
    (clear_screen farewell : List ℕ) → List ℕ → List Event → Outcome (List ℕ)
unfolding receive tick
console_drawer clear_screen farewell frames [] = ok []
console_drawer clear_screen farewell frames (on_done ∷ events) = ok farewell
console_drawer clear_screen farewell frames (on_frames new_frames ∷ events) =
    console_drawer clear_screen farewell (receive frames new_frames) events
console_drawer clear_screen farewell frames (on_tick ∷ events) = tick frames >>= λ (frame, rest).
    console_drawer clear_screen farewell rest events >>= λ later.
    ok (if ltb 0 (length frames) then clear_screen ++ frame ++ later else later)
