-- ===== src/Tests/Holding.antt =====
-- Objects in a heap: a socket's options, and constructors that inherit.
use socket_io_java.Common.{
  ℕ, zero, suc, ◌+◌, true, false, Option, none, some, ◌≡◌, refl, arith, Text, List, [], ◌∷◌, codes,
  if◌then◌else◌, ◌==◌, text_eq, nat_eq, lookup,
}
use mathlib.Core.Path.{subst}
use socket_io_java.Util.Objects.{
  Held, object, text, plain, undefined, Object, Heap, shape, read, put, prototype_of, inherit,
  Merging, merge_objects, mixin,
}
use socket_io_java.Util.Objects.Chains.{IsOlder, IsOrdered, found_in}
use socket_io_java.Util.Objects.Writes.{Write, puts}
use socket_io_java.Util.Objects.Classes.{inherit_late}
use socket_io_java.Util.Objects.Aliases.{merge_shared}
use socket_io_java.Util.Objects.Mixins.{mixin_methods}

-- The order of a heap, by its objects.
abbrev IsEachOlder : ℕ → Heap → Type 0
IsEachOlder n [] = Unit {0}
IsEachOlder n (o ∷ h) = IsOlder n o.proto × IsEachOlder (suc n) h

each-IsOlder :
    (n : ℕ) (h : Heap) (i : ℕ) (own : List (Text × Held)) (o : Option ℕ)
    → IsEachOlder n h
    → shape h i ≡ some (own, o)
    → IsOlder (n + i) o
each-IsOlder n [] i own o a e = cc
each-IsOlder n (x ∷ h) zero own o a e =
    subst (λ k. IsOlder k o) (omega arith) (subst (IsOlder n) (same e) a.0)
  where
    same : shape (x ∷ h) 0 ≡ some (own, o) → x.proto ≡ o
    same f = cc
each-IsOlder n (x ∷ h) (suc i) own o a e =
    subst (λ k. IsOlder k o) (omega arith) (each-IsOlder (suc n) h i own o a.1 e)

each-IsOrdered : (h : Heap) → IsEachOlder 0 h → IsOrdered h
each-IsOrdered h a = record {
  older = λ i own o e. subst (λ k. IsOlder k o) (omega arith) (each-IsOlder 0 h i own o a e);
}

abbrev plain_object : List (Text × Held) → Object
plain_object own = record { callable = false; own = own; proto = some 0; prototype = undefined }

abbrev root : Object
root = record { callable = false; own = []; proto = none; prototype = undefined }

-- io.transports is the second object, io the third; a socket's options are the fourth, and the page's options the last.
abbrev page_heap : Heap
page_heap =
    root
    ∷ plain_object
        ((codes "0", text (codes "websocket")) ∷ (codes "1", text (codes "xhr-polling")) ∷ [])
    ∷ plain_object ((codes "transports", object 1) ∷ [])
    ∷ plain_object ((codes "port", plain 80) ∷ (codes "transports", object 1) ∷ [])
    ∷ plain_object ((codes "0", text (codes "jsonp-polling")) ∷ [])
    ∷ plain_object ((codes "transports", object 4) ∷ [])
    ∷ []

merge_shared_example :
    (m : Merging) × (merge_objects 2 (some 3) (object 5) (record { heap = page_heap; seen = [] })
      ≡ some m)
    × (read m.heap 2 (codes "transports") ≡ object 1)
    × ((asked : Text)
        → read m.heap 1 asked
          ≡ (if codes "0" == asked then text (codes "jsonp-polling") else read page_heap 1 asked))
unfolding read
merge_shared_example =
    merge_shared page_heap 3 5 4 1 2 (codes "transports") (codes "0") (codes "jsonp-polling") _ _ _
      _
      (each-IsOrdered page_heap
        (tt, (omega arith, (omega arith, (omega arith, (omega arith, (omega arith, tt)))))))
      refl refl refl refl refl refl refl refl refl

-- Two constructors, as XHR and XHRPolling, with their prototypes.
abbrev constructor : ℕ → Object
constructor p = record { callable = true; own = []; proto = some 0; prototype = object p }

abbrev two_classes : Heap
two_classes = root ∷ constructor 2 ∷ plain_object [] ∷ constructor 4 ∷ plain_object [] ∷ []

-- XHR gets a method `get` behind the call, and XHRPolling overrides it.
abbrev later : List Write
later =
    record { place = 2; name = codes "get"; value = object 1 }
    ∷ record { place = 5; name = codes "open"; value = object 3 }
    ∷ []

inherit_late_example :
    let g = puts (inherit two_classes 3 1) later in
    (prototype_of g 3 ≡ object 5)
    × (read g 5 (codes "get") ≡ read g 2 (codes "get"))
    × (read (put g 5 (codes "get") (object 3)) 5 (codes "get") ≡ object 3)
inherit_late_example =
    inherit_late two_classes 3 1 2 later (codes "get") (object 3)
      (each-IsOrdered two_classes
        (tt, (omega arith, (omega arith, (omega arith, (omega arith, tt))))))
      refl (omega arith) (omega arith) (refl, (refl, tt))

late_get : read (puts (inherit two_classes 3 1) later) 5 (codes "get") ≡ object 1
unfolding read inherit put
late_get = refl

-- io.EventEmitter and io.Socket, with two of the methods.
abbrev emitter_methods : List (Text × Held)
emitter_methods = (codes "on", object 5) ∷ (codes "emit", object 6) ∷ []

abbrev emitter_heap : Heap
emitter_heap =
    root
    ∷ constructor 2
    ∷ plain_object emitter_methods
    ∷ constructor 4
    ∷ plain_object ((codes "on", object 6) ∷ [])
    ∷ constructor 0
    ∷ constructor 0
    ∷ []

emitter_heap_mixed :
    (m : Merging) × (mixin emitter_heap 3 1 ≡ some m)
    × ((asked : Text)
        → read m.heap 4 asked ≡ found_in (read emitter_heap 4 asked) (lookup asked emitter_methods))
unfolding read lookup
emitter_heap_mixed =
    mixin_methods emitter_heap 3 1 4 2 emitter_methods ((codes "on", object 6) ∷ []) (some 0)
      (each-IsOrdered emitter_heap (
        tt,
        (
          omega arith,
          (omega arith, (omega arith, (omega arith, (omega arith, (omega arith, tt))))),
        ),
      ))
      refl refl refl refl refl (refl, (refl, tt)) ((5, refl, refl), ((6, refl, refl), tt))
      (refl, (refl, tt))
