-- ===== src/Emitter.antt =====
-- io.EventEmitter. An emitter keeps under each name nothing, one function, or an array of functions;
-- a function is known by its identity, a number.
pub mod View
pub mod Emission
use socket_io_java.Common.{
  ℕ, Bool, true, false, ◌||◌, Option, none, some, List, [], ◌∷◌, ◌++◌, Text, Eq, ◌==◌, nat_eq,
  lookup, insert, delete, if◌then◌else◌, eqb,
}

-- `wrapper i name f` is the function `on` that `once(name, f)` makes: `i` is its own identity.
pub data Listener : Type 0 where
  plain : ℕ → Listener
  wrapper : ℕ → Text → ℕ → Listener

-- A name that is absent is undefined; `unset` is null.
pub data Slot : Type 0 where
  unset : Slot
  one : Listener → Slot
  many : List Listener → Slot

-- `$events`, which is undefined at first.
pub record Emitter : Type 0 where
  pub events : Option (List (Text × Slot))

abbrev pub new_emitter : Emitter
new_emitter = record { events = none }

abbrev pub identity : Listener → ℕ
identity (plain i) = i
identity (wrapper i name f) = i

-- `l === fn || (l.listener && l.listener === fn)`, for the function of identity `i`.
unfoldable pub matches : Listener → ℕ → Bool
matches (plain j) i = eqb j i
matches (wrapper j name f) i = eqb j i || eqb f i

abbrev pub events_or_new : Option (List (Text × Slot)) → List (Text × Slot)
events_or_new none = []
events_or_new (some es) = es

-- `this.$events[name]`, with undefined and null as one: the code only asks whether it is falsy.
abbrev pub slot_or_unset : Option Slot → Slot
slot_or_unset none = unset
slot_or_unset (some s) = s

unfoldable pub slot : Emitter → Text → Slot
unfolding lookup
slot e name = slot_or_unset (lookup name (events_or_new e.events))

abbrev pub set_slot : Emitter → Text → Slot → Emitter
set_slot e name s = record { events = some (insert name s (events_or_new e.events)) }

abbrev pub add : Slot → Listener → Slot
add unset l = one l
add (many ls) l = many (ls ++ l ∷ [])
add (one k) l = many (k ∷ l ∷ [])

unfoldable pub on : Emitter → Text → Listener → Emitter
unfolding slot insert
on e name l = set_slot e name (add (slot e name) l)

-- `once`; the identity of the new closure is an argument.
unfoldable pub once : Emitter → Text → ℕ → ℕ → Emitter
unfolding on
once e name fresh f = on e name (wrapper fresh name f)

-- `list.splice(pos, 1)` at the first match; `none` if there is no match.
unfoldable pub splice : List Listener → ℕ → Option (List Listener)
unfolding matches
splice [] i = none
splice (l ∷ ls) i =
    let later : Option (List Listener) = elim (splice ls i) [
      | none ↦ none
      | some r ↦ some (l ∷ r)
    ] in
    if matches l i then some ls else later

abbrev pub delete_slot : Emitter → Text → Emitter
delete_slot e name = record { events = some (delete name (events_or_new e.events)) }

abbrev pub put_spliced : Emitter → Text → Option (List Listener) → Emitter
put_spliced e name none = e
put_spliced e name (some []) = delete_slot e name
put_spliced e name (some (l ∷ ls)) = set_slot e name (many (l ∷ ls))

abbrev pub remove_from : Emitter → Text → ℕ → Slot → Emitter
remove_from e name i unset = e
remove_from e name i (many ls) = put_spliced e name (splice ls i)
remove_from e name i (one l) = if matches l i then delete_slot e name else e

unfoldable pub remove_listener : Emitter → Text → ℕ → Emitter
unfolding slot splice insert delete matches
remove_listener e name i = remove_from e name i (slot e name)

abbrev pub unset_slot : Emitter → Text → Slot → Emitter
unset_slot e name unset = e
unset_slot e name _ = set_slot e name unset

unfoldable pub remove_all_listeners : Emitter → Text → Emitter
unfolding slot insert
remove_all_listeners e name = unset_slot e name (slot e name)

abbrev pub to_array : Slot → List Listener
to_array unset = []
to_array (one l) = l ∷ []
to_array (many ls) = ls

-- `listeners` makes the slot an array, and returns it.
unfoldable pub listeners : Emitter → Text → Emitter × List Listener
unfolding slot insert
listeners e name = let ls = to_array (slot e name) in (set_slot e name (many ls), ls)
