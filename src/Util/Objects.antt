-- ===== src/Util/Objects.antt =====
-- io.util.merge on objects that hold objects, io.util.mixin and io.util.inherit: objects in a heap, which others may hold too.
pub mod Chains
pub mod Writes
pub mod Classes
pub mod Aliases
pub mod Methods
pub mod Mixins
use socket_io_java.Common.{
  ℕ, zero, suc, Bool, true, false, not, ◌||◌, ◌&&◌, Option, none, some, Text, List, [], ◌∷◌, ◌++◌,
  if◌then◌else◌, ◌==◌, text_eq, lookup, insert, decimal, get_elem?, length, map,
}

-- What a property holds: an object or a function, by its place in the heap; a text; or another value, by its identity, of
-- which null has typeof 'object'.
pub data Held : Type 0 where
  object : ℕ → Held
  text : Text → Held
  plain : ℕ → Held
  null undefined : Held

-- An object, with its enumerable own properties in order. A function also has a property `prototype`, which for-in leaves out.
pub record Object : Type 0 where
  pub callable : Bool
  pub own : List (Text × Held)
  pub proto : Option ℕ
  pub prototype : Held

abbrev pub Heap : Type 0
Heap = List Object

abbrev pub or_undefined : Option Held → Held
or_undefined none = undefined
or_undefined (some v) = v

-- What a search for a property looks at: the own properties and the prototype.
abbrev pub shape_of : Option Object → Option (List (Text × Held) × Option ℕ)
shape_of none = none
shape_of (some o) = some (o.own, o.proto)

abbrev pub shape : Heap → ℕ → Option (List (Text × Held) × Option ℕ)
shape h i = shape_of (get_elem? h i)

-- The prototype chain, for as many objects as the fuel says.
unfoldable pub get : ℕ → Heap → Option ℕ → Text → Held
unfolding lookup
get zero h o name = undefined
get (suc n) h none name = undefined
get (suc n) h (some i) name = elim (shape h i) [
  | none ↦ undefined
  | some (own, proto) ↦ elim (lookup name own) [ none ↦ get n h proto name | some v ↦ v ]
]

-- `object[name]`. No chain has more objects than the heap.
unfoldable pub read : Heap → ℕ → Text → Held
unfolding get
read h i name = get (suc (length h)) h (some i) name

-- `object[name] = v`.
unfoldable pub put : Heap → ℕ → Text → Held → Heap
unfolding insert
put [] i name v = []
put (o ∷ h) zero name v = record o { own = insert name v o.own } ∷ h
put (o ∷ h) (suc i) name v = o ∷ put h i name v

-- `typeof value === 'object'`.
abbrev pub is_object : Heap → Held → Bool
is_object h (object i) = elim (get_elem? h i) [ none ↦ false | some o ↦ not o.callable ]
is_object h null = true
is_object h _ = false

-- The names that for-in finds in a value, less those that it inherits.
abbrev indices : ℕ → Text → List (Text × Held)
indices n [] = []
indices n (c ∷ cs) = (decimal n, text (c ∷ [])) ∷ indices (suc n) cs

abbrev pub own_of : Heap → Held → List (Text × Held)
own_of h (object i) = elim (get_elem? h i) [ none ↦ [] | some o ↦ o.own ]
own_of h (text t) = indices 0 t
own_of h _ = []

abbrev pub names : List (Text × Held) → List Text
names = map λ e. e.0

-- `~indexOf(seen, name)`.
abbrev pub sees : List Held → Text → Bool
sees [] name = false
sees (text t ∷ vs) name = (t == name) || sees vs name
sees (v ∷ vs) name = sees vs name

pub record Merging : Type 0 where
  pub heap : Heap
  pub seen : List Held

abbrev assign : ℕ → Text → Held → Merging → Merging
assign t name v m = record { heap = put m.heap t name v; seen = m.seen ++ v ∷ [] }

abbrev pub target_of : Held → Option ℕ
target_of (object i) = some i
target_of _ = none

-- The loop over the names. `target` is null where it is none; the first name that is not seen then throws. `deep` is false at
-- depth 0, and `nested` is the call for a property that is an object.
unfoldable pub merge_each :
    (Option ℕ → Held → Merging → Option Merging)
    → Bool
    → Option ℕ
    → Held
    → List Text
    → Merging
    → Option Merging
unfolding put read lookup
merge_each nested deep target additional [] m = some m
merge_each nested deep target additional (name ∷ rest) m =
    let value = or_undefined (lookup name (own_of m.heap additional)) in
    let next = merge_each nested deep target additional rest in
    if sees m.seen name then next m else elim target [
      | none ↦ none
      | some t ↦
          let held = read m.heap t name in
          if is_object m.heap held && deep
          then elim (nested (target_of held) value m) [ none ↦ none | some m' ↦ next m' ]
          else next (assign t name value m)
    ]

unfoldable pub merge_objects : ℕ → Option ℕ → Held → Merging → Option Merging
unfolding merge_each
merge_objects zero target additional m =
    merge_each (λ t a n. some n) false target additional (names (own_of m.heap additional)) m
merge_objects (suc d) target additional m =
    merge_each (merge_objects d) true target additional (names (own_of m.heap additional)) m

abbrev pub prototype_of : Heap → ℕ → Held
prototype_of h f = elim (get_elem? h f) [ none ↦ undefined | some o ↦ o.prototype ]

-- util.mixin of two constructors: their prototypes are merged, to the depth that merge has of itself.
unfoldable pub mixin : Heap → ℕ → ℕ → Option Merging
unfolding merge_objects
mixin h c d =
    merge_objects 2 (target_of (prototype_of h c)) (prototype_of h d)
      (record { heap = h; seen = [] })

unfoldable pub set_prototype : Heap → ℕ → Held → Heap
set_prototype [] i v = []
set_prototype (o ∷ h) zero v = record o { prototype = v } ∷ h
set_prototype (o ∷ h) (suc i) v = o ∷ set_prototype h i v

-- `new f`. Without an object to inherit from, it inherits from Object.prototype, which is the first of the heap.
abbrev new_from : Held → Object
new_from (object r) = record { callable = false; own = []; proto = some r; prototype = undefined }
new_from _ = record { callable = false; own = []; proto = some 0; prototype = undefined }

-- util.inherit of two constructors: the prototype of the first is a new object.
unfoldable pub inherit : Heap → ℕ → ℕ → Heap
unfolding set_prototype
inherit h c d = set_prototype (h ++ new_from (prototype_of h d) ∷ []) c (object (length h))
