-- ===== src/Emitter/View.antt =====
-- The emitter as a list of listeners for each name, and its operations on these lists.
use socket_io_java.Common.{
  ℕ, ◌≡◌, refl, ap, Option, none, some, List, [], ◌∷◌, ◌++◌, Text, ◌==◌, text_eq, nat_eq,
  lookup-insert, lookup-delete, if◌then◌else◌, arith, Bool-cases, inl, inr, sym, ◌∙◌,
}
use socket_io_java.Emitter.{
  Emitter, Listener, Slot, unset, one, many, on, slot, add, to_array, remove_listener,
  remove_all_listeners, listeners, splice, matches, remove_from, put_spliced, unset_slot,
  events_or_new, set_slot, delete_slot,
}

-- The abstract view.
abbrev pub view : Emitter → Text → List Listener
view e name = to_array (slot e name)

-- A list without the first listener that the function names.
abbrev pub remove_first : List Listener → ℕ → List Listener
remove_first [] i = []
remove_first (l ∷ ls) i = if matches l i then ls else l ∷ remove_first ls i

slot-set_slot :
    (e : Emitter) (name k : Text) (s : Slot)
    → slot (set_slot e name s) k ≡ (if name == k then s else slot e k)
unfolding slot
slot-set_slot e name k s = ground (arith, lookup-insert name k s (events_or_new e.events))

slot-delete_slot :
    (e : Emitter) (name k : Text)
    → slot (delete_slot e name) k ≡ (if name == k then unset else slot e k)
unfolding slot
slot-delete_slot e name k = ground (arith, lookup-delete name k (events_or_new e.events))

to_array-add : (s : Slot) (l : Listener) → to_array (add s l) ≡ to_array s ++ l ∷ []
to_array-add unset l = refl
to_array-add (one k) l = refl
to_array-add (many ls) l = refl

-- `on` appends the listener to the list of its name, and leaves every other name alone.
view-on :
    (e : Emitter) (name : Text) (l : Listener) (k : Text)
    → view (on e name l) k ≡ (if name == k then view e name ++ l ∷ [] else view e k)
unfolding on
view-on e name l k =
    ground (arith, slot-set_slot e name k (add (slot e name) l), to_array-add (slot e name) l)

splice-remove_first :
    (ls : List Listener) (i : ℕ)
    → (elim (splice ls i) as (λ _. List Listener) [ none ↦ ls | some r ↦ r ]) ≡ remove_first ls i
unfolding splice
splice-remove_first [] i = refl
splice-remove_first (l ∷ ls) i = ground (arith, splice-remove_first ls i)

if_same : (e : Emitter) (name k : Text) → view e k ≡ (if name == k then view e name else view e k)
if_same e name k = elim (Bool-cases (name == k)) [
  | inl same ↦ rw (same) (ap (view e) (sym ((text_eq.beq_iff name k).0 same)))
  | inr other ↦ rw other
]

view-put_spliced :
    (e : Emitter) (name k : Text) (o : Option (List Listener))
    → view (put_spliced e name o) k ≡ (
        if name == k
        then (elim o as (λ _. List Listener) [ none ↦ view e name | some r ↦ r ])
        else view e k)
view-put_spliced e name k none = if_same e name k
view-put_spliced e name k (some []) = ground (arith, slot-delete_slot e name k)
view-put_spliced e name k (some (l ∷ ls)) = ground (arith, slot-set_slot e name k (many (l ∷ ls)))

view-remove_from :
    (e : Emitter) (name : Text) (i : ℕ) (k : Text) (s : Slot)
    → slot e name ≡ s
    → view (remove_from e name i s) k
      ≡ (if name == k then remove_first (to_array s) i else view e k)
view-remove_from e name i k unset h = if_same e name k ∙ rw h
view-remove_from e name i k (one l) h = ground (arith, slot-delete_slot e name k, if_same e name k)
view-remove_from e name i k (many ls) h =
    view-put_spliced e name k (splice ls i)
    ∙ ap (λ r. if name == k then r else view e k)
        (ap (λ v. elim (splice ls i) as (λ _. List Listener) [ none ↦ v | some r ↦ r ])
            (ap to_array h)
          ∙ splice-remove_first ls i)

-- `removeListener` removes the first listener that is the function or wraps it from the list
-- of the name, and leaves every other name alone.
pub view-remove_listener :
    (e : Emitter) (name : Text) (i : ℕ) (k : Text)
    → view (remove_listener e name i) k
      ≡ (if name == k then remove_first (view e name) i else view e k)
unfolding remove_listener
view-remove_listener e name i k = view-remove_from e name i k (slot e name) refl

view-unset_slot :
    (e : Emitter) (name k : Text) (s : Slot)
    → slot e name ≡ s
    → view (unset_slot e name s) k ≡ (if name == k then [] else view e k)
view-unset_slot e name k unset h = if_same e name k ∙ rw h
view-unset_slot e name k (one l) h = ground (arith, slot-set_slot e name k unset)
view-unset_slot e name k (many ls) h = ground (arith, slot-set_slot e name k unset)

-- `removeAllListeners` empties the list of its name, and leaves every other name alone.
view-remove_all_listeners :
    (e : Emitter) (name k : Text)
    → view (remove_all_listeners e name) k ≡ (if name == k then [] else view e k)
unfolding remove_all_listeners
view-remove_all_listeners e name k = view-unset_slot e name k (slot e name) refl

-- `listeners` returns the list of the name, and changes no name's list.
view-listeners :
    (e : Emitter) (name k : Text)
    → ((listeners e name).1 ≡ view e name) × (view (listeners e name).0 k ≡ view e k)
unfolding listeners
view-listeners e name k = (
  refl,
  ap to_array (slot-set_slot e name k (many (view e name))) ∙ ground (arith, if_same e name k),
)
