-- ===== src/Client/Publishing/Order.antt =====
-- The order of the calls that a publication makes.
use socket_io_java.Common.{
  ℕ, true, false, ◌≡◌, refl, ap, ◌∙◌, arith, Text, List, [], ◌∷◌, ◌++◌, map, ◌==◌, text_eq, nat_eq,
  All, Bool-cases, inl, inr,
}
use socket_io_java.Emitter.{Emitter, Listener, plain, wrapper, remove_listener}
use socket_io_java.Emitter.View.{view}
use socket_io_java.Emitter.Emission.{called}
use socket_io_java.Client.Publishing.{
  Family, Place, at_socket, at_name, same_place, emitter_named, emitter_at, change_named, change_at,
  names_of, call_in, call_each, emit_in, emit_named, publish,
}

-- A function changes no emitter but the one it is called by, and makes no namespace.
pub record IsPrivate {ℓ} {A : Type ℓ} (effect : Place → ℕ → A → Family → Family) : Type ℓ where
  pub others :
      (p q : Place) (f : ℕ) (a : A) (s : Family)
      → same_place p q ≡ false
      → emitter_at (effect p f a s) q ≡ emitter_at s q
  pub names : (p : Place) (f : ℕ) (a : A) (s : Family) → names_of (effect p f a s) ≡ names_of s

-- A list of names of which no two are the same.
abbrev pub IsDistinct : List Text → Type 0
IsDistinct [] = Unit {0}
IsDistinct (n ∷ ns) = All (λ m. (n == m) ≡ false) ns × IsDistinct ns

change_named-other :
    (ns : List (Text × Emitter)) (n m : Text) (e : Emitter)
    → (n == m) ≡ false
    → emitter_named (change_named ns n e) m ≡ emitter_named ns m
change_named-other [] n m e h = refl
change_named-other ((own, x) ∷ ns) n m e h = elim (Bool-cases (own == n)) [
  | inl f ↦ rw f (rw (ap (λ k. k == m) (same f) ∙ h) refl)
  | inr f ↦ rw f (elim (Bool-cases (own == m)) [
    | inl g ↦ rw g refl
    | inr g ↦ rw g (change_named-other ns n m e h)
  ])
]
  where
    same : (own == n) ≡ true → own ≡ n
    same f = ground (arith, text_eq.beq_iff own n, f)

names-change_named :
    (ns : List (Text × Emitter)) (n : Text) (e : Emitter)
    → map (λ x. x.0) (change_named ns n e) ≡ map (λ x. x.0) ns
names-change_named [] n e = refl
names-change_named ((own, x) ∷ ns) n e = elim (Bool-cases (own == n)) [
  | inl f ↦ rw f refl
  | inr f ↦ rw f (ap (◌∷◌ own) (names-change_named ns n e))
]

pub change_at-other :
    (s : Family) (p q : Place) (e : Emitter)
    → same_place p q ≡ false
    → emitter_at (change_at s p e) q ≡ emitter_at s q
change_at-other s at_socket at_socket e h = cc
change_at-other s at_socket (at_name m) e h = refl
change_at-other s (at_name n) at_socket e h = refl
change_at-other s (at_name n) (at_name m) e h = change_named-other s.namespaces n m e h

pub names-change_at :
    (s : Family) (p : Place) (e : Emitter) → names_of (change_at s p e) ≡ names_of s
names-change_at s at_socket e = refl
names-change_at s (at_name n) e = names-change_named s.namespaces n e

module _ {ℓ} {A : Type ℓ} (args : A) where
  -- The calls of an emission at a place: the listeners there, in order.
  abbrev pub calls_at : Family → Text → Place → List (Place × ℕ × A)
  calls_at s name p = map (λ l. (p, called l, args)) (view (emitter_at s p) name)

  abbrev pub calls_named : Family → Text → List Text → List (Place × ℕ × A)
  calls_named s name [] = []
  calls_named s name (n ∷ ns) = calls_at s name (at_name n) ++ calls_named s name ns

  -- Names that are not the first ones of a list.
  calls_named-same :
      (s t : Family) (name : Text) (ns : List Text)
      → All (λ n. emitter_at s (at_name n) ≡ emitter_at t (at_name n)) ns
      → calls_named s name ns ≡ calls_named t name ns
  calls_named-same s t name [] a = refl
  calls_named-same s t name (n ∷ ns) (h, a) =
      ap (λ e. map (λ l. (at_name n, called l, args)) (view e name) ++ calls_named s name ns) h
      ∙ ap (λ cs. calls_at t name (at_name n) ++ cs) (calls_named-same s t name ns a)

module _ {ℓ} {A : Type ℓ} (effect : Place → ℕ → A → Family → Family) (args : A)
    (private : IsPrivate effect) where
  call_in-other :
      (p q : Place) (s : Family) (l : Listener)
      → same_place p q ≡ false
      → emitter_at (call_in effect args p s l) q ≡ emitter_at s q
  unfolding call_in
  call_in-other p q s (plain i) h = private.others p q i args s h
  call_in-other p q s (wrapper i name f) h =
      private.others p q f args (change_at s p (remove_listener (emitter_at s p) name i)) h
      ∙ change_at-other s p q (remove_listener (emitter_at s p) name i) h

  names-call_in :
      (p : Place) (s : Family) (l : Listener) → names_of (call_in effect args p s l) ≡ names_of s
  unfolding call_in
  names-call_in p s (plain i) = private.names p i args s
  names-call_in p s (wrapper i name f) =
      private.names p f args (change_at s p (remove_listener (emitter_at s p) name i))
      ∙ names-change_at s p (remove_listener (emitter_at s p) name i)

  call_each-other :
      (p q : Place) (s : Family) (ls : List Listener)
      → same_place p q ≡ false
      → emitter_at (call_each effect args p s ls).family q ≡ emitter_at s q
  unfolding call_each
  call_each-other p q s [] h = refl
  call_each-other p q s (l ∷ ls) h =
      call_each-other p q (call_in effect args p s l) ls h ∙ call_in-other p q s l h

  names-call_each :
      (p : Place) (s : Family) (ls : List Listener)
      → names_of (call_each effect args p s ls).family ≡ names_of s
  unfolding call_each
  names-call_each p s [] = refl
  names-call_each p s (l ∷ ls) =
      names-call_each p (call_in effect args p s l) ls ∙ names-call_in p s l

  calls-call_each :
      (p : Place) (s : Family) (ls : List Listener)
      → (call_each effect args p s ls).calls ≡ map (λ l. (p, called l, args)) ls
  unfolding call_each
  calls-call_each p s [] = refl
  calls-call_each p s (l ∷ ls) =
      ap (◌∷◌ (p, called l, args)) (calls-call_each p (call_in effect args p s l) ls)

  calls-emit_named :
      (s : Family) (name : Text) (ns : List Text)
      → IsDistinct ns
      → (emit_named effect args s name ns).calls ≡ calls_named args s name ns
  unfolding emit_named emit_in
  calls-emit_named s name [] d = refl
  calls-emit_named s name (n ∷ ns) (h, d) =
      let here = call_each effect args (at_name n) s (view (emitter_at s (at_name n)) name) in
      ap (λ cs. cs ++ (emit_named effect args here.family name ns).calls)
        (calls-call_each (at_name n) s (view (emitter_at s (at_name n)) name))
      ∙ ap (λ cs. calls_at args s name (at_name n) ++ cs)
          (calls-emit_named here.family name ns d
            ∙ calls_named-same args here.family s name ns (
                others n ns h (λ m e.
                  call_each-other (at_name n) (at_name m) s (view (emitter_at s (at_name n)) name)
                    e)))
    where
      others :
          (n : Text) (ns : List Text)
          → All (λ m. (n == m) ≡ false) ns
          → {P : Text → Type 0} → ((m : Text) → (n == m) ≡ false → P m)
          → All P ns
      others n [] a f = tt
      others n (m ∷ ns) (e, a) f = (f m e, others n ns a f)

  -- A publication calls the listeners that the socket has for the name when it begins, and then those of each namespace,
  -- in the order in which the namespaces were made, each once. The functions change no emitter but their own and make no
  -- namespace, and no two namespaces have the same name.
  pub calls-publish :
      (s : Family) (name : Text)
      → IsDistinct (names_of s)
      → (publish effect args s name).calls
        ≡ calls_at args s name at_socket ++ calls_named args s name (names_of s)
  unfolding publish emit_in
  calls-publish s name d =
      let own = call_each effect args at_socket s (view s.socket name) in
      ap (λ cs. cs ++ (emit_named effect args own.family name (names_of own.family)).calls)
        (calls-call_each at_socket s (view s.socket name))
      ∙ ap (λ cs. calls_at args s name at_socket ++ cs)
          (ap (λ ns. (emit_named effect args own.family name ns).calls)
              (names-call_each at_socket s (view s.socket name))
            ∙ calls-emit_named own.family name (names_of s) d
            ∙ calls_named-same args own.family s name (names_of s) (
                all (names_of s)
                  (λ n. call_each-other at_socket (at_name n) s (view s.socket name) refl)))
    where
      all : (ns : List Text) → {P : Text → Type 0} → ((m : Text) → P m) → All P ns
      all [] f = tt
      all (m ∷ ns) f = (f m, all ns f)
