-- ===== src/Stomp/Header.antt =====
-- src/broker/stomp/header.rs: headers and lists of headers.
pub mod Names
pub mod Values
pub mod Lists
pub mod Versions
use mathlib.Core.List.{reverse}
use grinbox.Prelude.{
  ℕ, zero, suc, ◌^◌, ◌≡◌, Bool, Option, none, some, List, [], ◌∷◌, ◌++◌, filter_map, length,
  if◌then◌else◌,
}
use grinbox.Prelude.Text.{Text, codes, split}
use grinbox.Prelude.Decimal.{parse_uint}
use grinbox.Stomp.Header.Names.{HeaderName, standard, heart_beat, name_eq, name_text}

-- `Header`: a name and a value. (`Header::new`, `get_key` and `get_value` are the constructor and
-- the fields.)
pub record Header : Type 0 where
  pub name : HeaderName
  pub value : Text

-- `HeaderList`, by its only field.
abbrev pub HeaderList : Type 0
HeaderList = List Header

-- `Header::get_raw`
unfoldable pub get_raw : Header → Text
get_raw h = name_text h.name ++ b':' ∷ h.value

-- `HeaderList::push`
abbrev pub push : HeaderList → Header → HeaderList
push headers header = headers ++ header ∷ []

-- `HeaderList::pop`
unfoldable pub pop : HeaderList → Option Header × HeaderList
pop [] = (none, [])
pop (h ∷ []) = (some h, [])
pop (h ∷ k ∷ hs) = let (last, front) = pop (k ∷ hs) in (last, h ∷ front)

-- `HeaderList::drain`, with the list of what the sink has received
drain_loop : ℕ → HeaderList → List Header → List Header × HeaderList
unfolding pop
drain_loop zero headers sunk = (sunk, headers)
drain_loop (suc rounds) headers sunk =
    let (last, front) = pop headers in
    elim last [ none ↦ (sunk, front) | some h ↦ drain_loop rounds front (sunk ++ h ∷ []) ]

unfoldable pub drain : HeaderList → List Header × HeaderList
unfolding drain_loop
drain headers = drain_loop (suc (length headers)) headers []

-- the loop of `HeaderList::concat`, which takes the headers of the other list from its end
concat_loop : ℕ → HeaderList → HeaderList → HeaderList × HeaderList
unfolding pop
concat_loop zero headers other = (headers, other)
concat_loop (suc rounds) headers other =
    let (last, front) = pop other in
    elim last [ none ↦ (headers, front) | some h ↦ concat_loop rounds (push headers h) front ]

-- `HeaderList::concat`: both lists, as it leaves them
unfoldable pub concat : HeaderList → HeaderList → HeaderList × HeaderList
unfolding concat_loop
concat headers other = concat_loop (suc (length other)) headers (reverse other)

-- `HeaderList::retain`
unfoldable pub retain : (Header → Bool) → HeaderList → HeaderList
retain test [] = []
retain test (h ∷ hs) = let rest = retain test hs in if test h then h ∷ rest else rest

-- `HeaderList::get`: the value of the first header of that name
unfoldable pub get : HeaderList → HeaderName → Option Text
get [] key = none
get (h ∷ hs) key = if name_eq h.name key then some h.value else get hs key

parse_all : List Text → List ℕ
parse_all [] = []
parse_all (s ∷ more) = elim (parse_uint (2 ^ 32) s) [
  | none ↦ parse_all more
  | some n ↦ n ∷ parse_all more
]

pair_of : List ℕ → Option (ℕ × ℕ)
pair_of (a ∷ b ∷ []) = some (a, b)
pair_of _ = none

-- `HeaderList::get_heart_beat`: parts that are no `u32` are dropped before they are counted
unfoldable pub get_heart_beat : HeaderList → Option (ℕ × ℕ)
unfolding parse_all pair_of get
get_heart_beat headers = elim (get headers (standard heart_beat)) [
  | none ↦ none
  | some spec ↦ let (first, more) = split b',' spec in pair_of (parse_all (first ∷ more))
]
