-- ===== src/Util/Objects/Classes.antt =====
-- What the object reads that io.util.inherit makes.
use socket_io_java.Common.{
  ℕ, zero, suc, ◌<◌, Bool, true, false, ◌&&◌, none, some, ◌≡◌, ◌⊎◌, refl, sym, ap, ◌∙◌, arith, Text,
  List, [], ◌∷◌, ◌++◌, if◌then◌else◌, ◌==◌, text_eq, lookup, insert, lookup-insert, length,
  length-append, eqb, Bool-cases, inl, inr, beq_refl, All,
}
use mathlib.Core.Path.{subst}
use socket_io_java.Util.Objects.{
  Held, object, Object, Heap, read, put, shape, shape_of, prototype_of, set_prototype, new_from,
  inherit,
}
use socket_io_java.Util.Objects.Chains.{
  Shape, IsOlder, IsOrdered, read-inherits, put_shape, shape-put_same, shape-put_other, length-put,
}
use socket_io_java.Util.Objects.Writes.{Write, puts, put-IsOrdered, read-put}

set_prototype-shape :
    (h : Heap) (c : ℕ) (v : Held) (i : ℕ) → shape (set_prototype h c v) i ≡ shape h i
unfolding set_prototype
set_prototype-shape [] c v i = refl
set_prototype-shape (o ∷ h) zero v zero = refl
set_prototype-shape (o ∷ h) zero v (suc i) = refl
set_prototype-shape (o ∷ h) (suc c) v zero = refl
set_prototype-shape (o ∷ h) (suc c) v (suc i) = set_prototype-shape h c v i

set_prototype-prototype :
    (h : Heap) (c : ℕ) (v : Held) → c < length h → prototype_of (set_prototype h c v) c ≡ v
unfolding set_prototype
set_prototype-prototype [] c v l = ground (arith, l)
set_prototype-prototype (o ∷ h) zero v l = refl
set_prototype-prototype (o ∷ h) (suc c) v l = set_prototype-prototype h c v (omega (arith, l))

length-set_prototype : (h : Heap) (c : ℕ) (v : Held) → length (set_prototype h c v) ≡ length h
unfolding set_prototype
length-set_prototype [] c v = refl
length-set_prototype (o ∷ h) zero v = refl
length-set_prototype (o ∷ h) (suc c) v = ap suc (length-set_prototype h c v)

put-prototype :
    (h : Heap) (t : ℕ) (name : Text) (v : Held) (c : ℕ)
    → prototype_of (put h t name v) c ≡ prototype_of h c
unfolding put
put-prototype [] t name v c = refl
put-prototype (o ∷ h) zero name v zero = refl
put-prototype (o ∷ h) zero name v (suc c) = refl
put-prototype (o ∷ h) (suc t) name v zero = refl
put-prototype (o ∷ h) (suc t) name v (suc c) = put-prototype h t name v c

-- The shapes of a heap with one object more.
shape-append :
    (h : Heap) (x : Object) (i : ℕ) (s : Shape)
    → shape (h ++ x ∷ []) i ≡ some s
    → (shape h i ≡ some s) ⊎ ((i ≡ length h) × (shape_of (some x) ≡ some s))
shape-append [] x zero s e = inr (refl, e)
shape-append [] x (suc i) s e = cc
shape-append (o ∷ h) x zero s e = inl e
shape-append (o ∷ h) x (suc i) s e = elim (shape-append h x i s e) [
  | inl f ↦ inl f
  | inr (l, f) ↦ inr (ap suc l, f)
]

shape-last : (h : Heap) (x : Object) → shape (h ++ x ∷ []) (length h) ≡ shape_of (some x)
shape-last [] x = refl
shape-last (o ∷ h) x = shape-last h x

inherit-shape :
    (h : Heap) (c d r i : ℕ) (s : Shape)
    → prototype_of h d ≡ object r
    → shape (inherit h c d) i ≡ some s
    → (shape h i ≡ some s) ⊎ ((i ≡ length h) × (s ≡ ([], some r)))
unfolding inherit
inherit-shape h c d r i s p e =
    elim (shape-append h (new_from (prototype_of h d)) i s (
      sym (set_prototype-shape (h ++ new_from (prototype_of h d) ∷ []) c (object (length h)) i)
      ∙ e)) [
        | inl f ↦ inl f
        | inr (l, f) ↦ inr (l, some_inj (sym f ∙ ap (λ v. shape_of (some (new_from v))) p))
      ]
  where
    some_inj : {a b : Shape} → some a ≡ some b → a ≡ b
    some_inj q = cc

inherit-IsOrdered :
    (h : Heap) (c d r : ℕ)
    → IsOrdered h
    → prototype_of h d ≡ object r
    → r < length h
    → IsOrdered (inherit h c d)
inherit-IsOrdered h c d r o p l = record {
  older = λ i own q e. elim (inherit-shape h c d r i (own, q) p e) [
    | inl f ↦ o.older i own q f
    | inr (m, f) ↦ subst (IsOlder i) (sym (ap (λ s. s.1) f)) (subst (λ k. r < k) (sym m) l)
  ];
}

-- An object that has no property of a name, with the one it inherits from.
record IsChild (h : Heap) (p r : ℕ) (name : Text) : Type 0 where
  ordered : IsOrdered h
  own : List (Text × Held)
  shape_eq : shape h p ≡ some (own, some r)
  absent : lookup name own ≡ none
  bound : p < length h

inherit-IsChild :
    (h : Heap) (c d r : ℕ) (name : Text)
    → IsOrdered h
    → prototype_of h d ≡ object r
    → r < length h
    → IsChild (inherit h c d) (length h) r name
unfolding inherit lookup
inherit-IsChild h c d r name o p l = record {
  ordered = inherit-IsOrdered h c d r o p l;
  own = [];
  shape_eq =
      set_prototype-shape g c (object (length h)) (length h)
      ∙ shape-last h x
      ∙ ap (λ v. shape_of (some (new_from v))) p;
  absent = refl;
  bound = omega (arith, length-set_prototype g c (object (length h)), length-append h (x ∷ []));
}
  where
    x : Object
    x = new_from (prototype_of h d)

    g : Heap
    g = h ++ x ∷ []

-- Writes that spare one property of one object.
abbrev pub IsSparing : ℕ → Text → List Write → Type 0
IsSparing p name = All λ w. (eqb w.place p && (w.name == name)) ≡ false

and_right : (a b : Bool) → a ≡ true → (a && b) ≡ false → b ≡ false
and_right a b e f = ground arith

put-IsChild :
    (h : Heap) (p r : ℕ) (name : Text) (w : Write)
    → (eqb w.place p && (w.name == name)) ≡ false
    → IsChild h p r name
    → IsChild (put h w.place w.name w.value) p r name
put-IsChild h p r name w s k = elim (Bool-cases (eqb w.place p)) [
  | inl e ↦ record {
    ordered = put-IsOrdered h w.place w.name w.value k.ordered;
    own = insert w.name w.value k.own;
    shape_eq =
        subst (λ t. shape (put h t w.name w.value) p ≡ some (insert w.name w.value k.own, some r))
          (sym (ground (arith, e)))
          (shape-put_same h p w.name w.value ∙ ap (put_shape w.name w.value) k.shape_eq);
    absent =
        lookup-insert w.name name w.value k.own
        ∙ ap (λ b. if b then some w.value else lookup name k.own)
            (and_right (eqb w.place p) (w.name == name) e s)
        ∙ k.absent;
    bound = omega (arith, k.bound, length-put h w.place w.name w.value);
  }
  | inr e ↦ record {
    ordered = put-IsOrdered h w.place w.name w.value k.ordered;
    own = k.own;
    shape_eq = shape-put_other h w.place w.name w.value p e ∙ k.shape_eq;
    absent = k.absent;
    bound = omega (arith, k.bound, length-put h w.place w.name w.value);
  }
]

puts-IsChild :
    (h : Heap) (p r : ℕ) (name : Text) (ws : List Write)
    → IsSparing p name ws
    → IsChild h p r name
    → IsChild (puts h ws) p r name
puts-IsChild h p r name [] s k = k
puts-IsChild h p r name (w ∷ ws) s k =
    puts-IsChild (put h w.place w.name w.value) p r name ws s.1 (put-IsChild h p r name w s.0 k)

puts-prototype :
    (h : Heap) (ws : List Write) (c : ℕ) → prototype_of (puts h ws) c ≡ prototype_of h c
puts-prototype h [] c = refl
puts-prototype h (w ∷ ws) c =
    puts-prototype (put h w.place w.name w.value) ws c ∙ put-prototype h w.place w.name w.value c

-- The prototype that inherit gives to a constructor is a new object. Whatever is written then, it reads each property that was not
-- written to itself as the prototype of the other constructor reads it at that time, and one that is written to it after that
-- as what was written. Both constructors are in the heap, the other one's prototype is an object of it, and prototypes are older than
-- what inherits from them.
pub inherit_late :
    (h : Heap) (c d r : ℕ) (ws : List Write) (name : Text) (v : Held)
    → IsOrdered h
    → prototype_of h d ≡ object r
    → r < length h
    → c < length h
    → IsSparing (length h) name ws
    → let g = puts (inherit h c d) ws in
      let p = length h in
      (prototype_of g c ≡ object p)
      × (read g p name ≡ read g r name)
      × (read (put g p name v) p name ≡ v)
unfolding inherit
inherit_late h c d r ws name v o e l m s =
    let x = new_from (prototype_of h d) in
    let p = length h in
    let g = puts (inherit h c d) ws in
    let k = puts-IsChild (inherit h c d) p r name ws s (inherit-IsChild h c d r name o e l) in
    (
      puts-prototype (inherit h c d) ws c
          ∙ set_prototype-prototype (h ++ x ∷ []) c (object p)
              (omega (arith, m, length-append h (x ∷ []))),
      read-inherits g p r k.own name k.ordered k.shape_eq k.absent k.bound,
      read-put g p k.own (some r) name v name k.ordered k.shape_eq
          ∙ ap (λ b. if b then v else read g p name) (beq_refl name),
    )
