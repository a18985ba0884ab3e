-- ===== src/Util/Objects/Mixins.antt =====
-- What io.util.mixin copies: the methods of a prototype.
use socket_io_java.Common.{
  ℕ, Bool, true, false, Option, none, some, ◌≡◌, refl, sym, ap, ◌∙◌, arith, Text, List, [], ◌∷◌,
  ◌++◌, if◌then◌else◌, ◌==◌, text_eq, lookup, eqb, All, Bool-cases, inl, inr,
}
use socket_io_java.Util.Objects.{
  Held, object, Heap, read, put, is_object, shape, own_of, names, sees, or_undefined, target_of,
  prototype_of, Merging, merge_each, merge_objects, mixin,
}
use socket_io_java.Util.Objects.Chains.{IsOrdered, found_in}
use socket_io_java.Util.Objects.Writes.{read-put}
use socket_io_java.Util.Objects.Methods.{
  AreOf, lookup-AreOf, AreMethods, sees-object, is_object-put, IsReady, put-IsReady, IsMixed,
}

each_step :
    (nested : Option ℕ → Held → Merging → Option Merging) (h : Heap) (vs : List Held) (t q : ℕ)
    (k : Text) (v : Held) (rest : List Text)
    → sees vs k ≡ false
    → is_object h (read h t k) ≡ false
    → or_undefined (lookup k (own_of h (object q))) ≡ v
    → merge_each nested true (some t) (object q) (k ∷ rest) (record { heap = h; seen = vs })
      ≡ merge_each nested true
          (some t)
          (object q)
          rest
          (record { heap = put h t k v; seen = vs ++ v ∷ [] })
unfolding merge_each
each_step nested h vs t q k v rest s n e = rw s (
    rw n (
      ap
        (λ w.
          merge_each nested true (some t) (object q) rest
            (record { heap = put h t k w; seen = vs ++ w ∷ [] }))
        e))

put-AreMethods :
    (h : Heap) (t : ℕ) (k : Text) (v : Held) (ms : List (Text × Held))
    → AreMethods h ms
    → AreMethods (put h t k v) ms
put-AreMethods h t k v [] a = tt
put-AreMethods h t k v ((j, w) ∷ ms) ((f, e, n), a) =
    ((f, e, is_object-put h t k v (object f) ∙ n), put-AreMethods h t k v ms a)

-- The target holds no object under the names of a list.
abbrev pub AreFree : Heap → ℕ → List (Text × Held) → Type 0
AreFree h t = All λ e. is_object h (read h t e.0) ≡ false

put-AreFree :
    (h : Heap) (t q : ℕ) (ms : List (Text × Held)) (k : Text) (v : Held) (rest : List (Text × Held))
    → IsReady h t q ms
    → is_object h v ≡ false
    → AreFree h t rest
    → AreFree (put h t k v) t rest
put-AreFree h t q ms k v [] r n a = tt
put-AreFree h t q ms k v ((j, w) ∷ rest) r n (m, a) = (
  is_object-put h t k v (read (put h t k v) t j)
      ∙ ap (is_object h) (read-put h t r.own r.proto k v j r.ordered r.shape_eq)
      ∙ either (k == j),
  put-AreFree h t q ms k v rest r n a,
)
  where
    either : (b : Bool) → is_object h (if b then v else read h t j) ≡ false
    either true = n
    either false = m

-- What one method and then the others make of a property.
next_mixed :
    (ms rest : List (Text × Held)) (k asked : Text) (v w : Held)
    → lookup k ms ≡ some v
    → AreOf ms rest
    → found_in (if k == asked then v else w) (lookup asked rest)
      ≡ found_in w (lookup asked ((k, v) ∷ rest))
unfolding lookup
next_mixed ms rest k asked v w e a =
    elim (Bool-cases (k == asked))
      as (λ _.
        found_in (if k == asked then v else w) (lookup asked rest)
        ≡ found_in w (if k == asked then some v else lookup asked rest)) [
          | inl f ↦ rw f (
              found (lookup asked rest) λ u g.
                some_inj (
                  sym (lookup-AreOf ms rest asked u a g)
                  ∙ ap (λ j. lookup j ms) (sym (same f))
                  ∙ e))
          | inr f ↦ rw f refl
        ]
  where
    same : (k == asked) ≡ true → k ≡ asked
    same f = ground (arith, text_eq.beq_iff k asked, f)

    some_inj : {a b : Held} → some a ≡ some b → a ≡ b
    some_inj q = cc

    found : (o : Option Held) → ((u : Held) → o ≡ some u → u ≡ v) → found_in v o ≡ v
    found none h = refl
    found (some u) h = h u refl

each_method :
    (nested : Option ℕ → Held → Merging → Option Merging) (h : Heap) (vs : List Held) (t q : ℕ)
    (ms rest : List (Text × Held))
    → eqb t q ≡ false
    → IsReady h t q ms
    → AreOf ms rest
    → AreMethods h rest
    → ((name : Text) → sees vs name ≡ false)
    → AreFree h t rest
    → (m : Merging) × (merge_each nested true
          (some t)
          (object q)
          (names rest)
          (record { heap = h; seen = vs })
        ≡ some m)
      × IsMixed h t rest m
unfolding merge_each lookup
each_method nested h vs t q ms [] e r a b s n =
    (record { heap = h; seen = vs }, refl, λ asked. refl)
each_method nested h vs t q ms ((k, v) ∷ rest) e r a b s n =
    let (f, fe, fn) = b.0 in
    let free : is_object h v ≡ false = ap (is_object h) fe ∙ fn in
    let quiet : (name : Text) → sees (vs ++ v ∷ []) name ≡ false =
      λ name. ap (λ w. sees (vs ++ w ∷ []) name) fe ∙ sees-object vs f name ∙ s name in
    let (m, me, mixed) =
      each_method nested (put h t k v) (vs ++ v ∷ []) t q ms rest e (put-IsReady h t q ms k v e r)
        a.1 (put-AreMethods h t k v rest b.1) quiet (put-AreFree h t q ms k v rest r free n.1) in
    (
      m,
      each_step nested h vs t q k v (names rest) (s k) n.0
            (ap (λ own. or_undefined (lookup k own)) r.source ∙ ap or_undefined a.0)
          ∙ me,
      λ asked.
          mixed asked
          ∙ ap (λ w. found_in w (lookup asked rest))
              (read-put h t r.own r.proto k v asked r.ordered r.shape_eq)
          ∙ next_mixed ms rest k asked v (read h t asked) a.0 a.1,
    )

-- The prototype of a constructor reads, behind mixin, each method of the other prototype under its name, and all else as before. The
-- two prototypes are different objects, all own properties of the other one are functions with names of their own, the first one
-- holds no object under these names, and prototypes are older than what inherits from them.
pub mixin_methods :
    (h : Heap) (c d t q : ℕ) (ms own : List (Text × Held)) (o : Option ℕ)
    → IsOrdered h
    → prototype_of h c ≡ object t
    → prototype_of h d ≡ object q
    → shape h t ≡ some (own, o)
    → own_of h (object q) ≡ ms
    → eqb t q ≡ false
    → AreOf ms ms
    → AreMethods h ms
    → AreFree h t ms
    → (m : Merging) × (mixin h c d ≡ some m)
      × ((asked : Text) → read m.heap t asked ≡ found_in (read h t asked) (lookup asked ms))
unfolding mixin merge_objects
mixin_methods h c d t q ms own o r pc pd st sq n a b f =
    let (m, e, mixed) =
      each_method (merge_objects 1) h [] t q ms ms n
        (record { ordered = r; own = own; proto = o; shape_eq = st; source = sq }) a b
        (λ name. refl) f in
    (
      m,
      ap (λ v. merge_objects 2 (target_of v) (prototype_of h d) (record { heap = h; seen = [] })) pc
          ∙ ap (λ w. merge_objects 2 (some t) w (record { heap = h; seen = [] })) pd
          ∙ ap
              (λ l.
                merge_each (merge_objects 1) true (some t) (object q) (names l)
                  (record { heap = h; seen = [] }))
              sq
          ∙ e,
      mixed,
    )
