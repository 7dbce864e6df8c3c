-- ===== src/Command/Logging/Level.antt =====
-- `parseLevel` of cmd/donut-server/logging.go, on names in ASCII, as lists of their bytes.
use distributed_donut.Prelude.{
  ℕ, ◌+◌, ◌≡◌, refl, List, [], ◌∷◌, map, Bool, true, false, ◌&&◌, ◌||◌, leb, ◌==◌, if◌then◌else◌,
  arith, Bool-cases, inl, inr,
}
use distributed_donut.Command.Logging.{ℤ, pos, level_debug}
use Prim.Native.Char.{code}
use Prim.Native.String.{String}

abbrev pub bytes : String → List ℕ
bytes String.[] = []
bytes (String.◌∷◌ c s) = code c ∷ bytes s

unfoldable is_space : ℕ → Bool
is_space c = leb 9 c && leb c 13 || c == 32

unfoldable trim_left : List ℕ → List ℕ
unfolding is_space
trim_left [] = []
trim_left (c ∷ s) = let rest = trim_left s in if is_space c then rest else c ∷ s

-- A character in front of a trimmed text: a space stays only if something follows.
unfoldable pub add : ℕ → List ℕ → List ℕ
unfolding is_space
add b [] = if is_space b then [] else b ∷ []
add b (d ∷ t) = b ∷ d ∷ t

unfoldable trim_right : List ℕ → List ℕ
unfolding add
trim_right [] = []
trim_right (c ∷ s) = add c (trim_right s)

-- strings.ToLower of an ASCII character
unfoldable to_lower : ℕ → ℕ
to_lower c = if leb 65 c && leb c 90 then c + 32 else c

unfoldable is_name : List ℕ → List ℕ → Bool
is_name [] [] = true
is_name [] (b ∷ t) = false
is_name (a ∷ s) [] = false
is_name (a ∷ s) (b ∷ t) = (a == b) && is_name s t

unfoldable parse_level : List ℕ → ℤ
unfolding trim_left trim_right to_lower is_name
parse_level name =
    let word = map to_lower (trim_right (trim_left name)) in
    if is_name word (bytes "debug")
    then level_debug
    else if is_name word (bytes "warn") || is_name word (bytes "warning")
    then pos 4
    else if is_name word (bytes "error")
    then pos 8
    else pos 0

trims : parse_level (bytes " Warning ") ≡ pos 4
unfolding parse_level trim_left trim_right to_lower is_name is_space
trims = refl

unknown : parse_level (bytes "verbose") ≡ pos 0
unfolding parse_level trim_left trim_right to_lower is_name is_space
unknown = refl

to_lower_idem : (c : ℕ) → to_lower (to_lower c) ≡ to_lower c
unfolding to_lower
to_lower_idem c = ground arith

is_space-to_lower : (c : ℕ) → is_space (to_lower c) ≡ is_space c
unfolding is_space to_lower
is_space-to_lower c = ground arith

map-to_lower_idem : (s : List ℕ) → map to_lower (map to_lower s) ≡ map to_lower s
map-to_lower_idem [] = refl
map-to_lower_idem (c ∷ s) = cc (to_lower_idem c, map-to_lower_idem s)

trim_left-map : (s : List ℕ) → trim_left (map to_lower s) ≡ map to_lower (trim_left s)
unfolding trim_left
trim_left-map [] = refl
trim_left-map (c ∷ s) = elim (Bool-cases (is_space c)) [
  | inl space ↦ rw (is_space-to_lower c, space) (trim_left-map s)
  | inr other ↦ rw (is_space-to_lower c, other)
]

add-map : (c : ℕ) (s : List ℕ) → add (to_lower c) (map to_lower s) ≡ map to_lower (add c s)
unfolding add
add-map c [] = elim (Bool-cases (is_space c)) [
  | inl space ↦ rw (is_space-to_lower c, space)
  | inr other ↦ rw (is_space-to_lower c, other)
]
add-map c (d ∷ s) = refl

trim_right-map : (s : List ℕ) → trim_right (map to_lower s) ≡ map to_lower (trim_right s)
unfolding trim_right
trim_right-map [] = refl
trim_right-map (c ∷ s) = rw (trim_right-map s, add-map c (trim_right s))

-- The level does not depend on the case of the name.
parse_level-map : (name : List ℕ) → parse_level (map to_lower name) ≡ parse_level name
unfolding parse_level
parse_level-map name = rw (
  trim_left-map name,
  trim_right-map (trim_left name),
  map-to_lower_idem (trim_right (trim_left name)),
)
