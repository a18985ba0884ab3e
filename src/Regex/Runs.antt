-- ===== src/Regex/Runs.antt =====
-- Groups around a run of a class: what they keep, whether the rest can match inside the run or not.
use socket_io_java.Common.{
  ℕ, Bool, true, Option, none, some, ◌≡◌, refl, sym, ap, ◌∙◌, Text, [], ◌∷◌, if◌then◌else◌, eqb,
  length, take_while, drop_while, take_while-drop_while, take_while-InClass, drop_while-Stops, inl,
  inr, Bool-cases,
}
use mathlib.Core.Path.{subst}
use socket_io_java.Regex.{maybe, group, Groups, Rest, between, or_else, unless_empty, match, plus}
use socket_io_java.Regex.Laws.{
  star-exact, between-append, group-through, plus-through, optional-through, unless_empty-shorter,
  if_none,
}

pub or_none : (o : Option Groups) → or_else o none ≡ o
or_none none = refl
or_none (some d) = refl

-- The groups of an optional run: one that took nothing is not among them.
abbrev pub with_group : ℕ → Text → Groups → Groups
with_group n [] c = c
with_group n (x ∷ t) c = (n, x ∷ t) ∷ c

pub between-drop_while : (p : ℕ → Bool) (s : Text) → between s (drop_while p s) ≡ take_while p s
between-drop_while p s =
    subst (λ v. between v (drop_while p s) ≡ take_while p s) (take_while-drop_while p s)
      (between-append (take_while p s) (drop_while p s))

-- What follows never fails.
abbrev pub Total : Rest → Type 0
Total k = (c : Groups) (s : Text) → (d : Groups) × (k c s ≡ some d)

optional_run-step :
    (p : ℕ → Bool) (n : ℕ) (k : Rest) (c : Groups) (x : ℕ) (s : Text) (d : Groups)
    → p x ≡ true
    → k ((n, x ∷ take_while p s) ∷ c) (drop_while p s) ≡ some d
    → match (maybe (group n (plus p))) k c (x ∷ s) ≡ some d
optional_run-step p n k c x s d h e =
    subst (λ v. match (maybe (group n (plus p))) k c (x ∷ v) ≡ some d) (take_while-drop_while p s)
      (optional-through (group n (plus p)) k c _ x (take_while p s) (drop_while p s) d
        (λ l f.
          group-through (plus p) n l c c (x ∷ take_while p s) (drop_while p s) (some d)
            (λ m g.
              plus-through p m c x (take_while p s) (drop_while p s) d (h, take_while-InClass p s)
                (drop_while-Stops p s) g)
            f)
        e)

at_run :
    (p : ℕ → Bool) (n : ℕ) (k : Rest) (c : Groups) (x : ℕ) (s : Text)
    → p x ≡ true
    → k (with_group n (take_while p (x ∷ s)) c) (drop_while p (x ∷ s))
      ≡ k ((n, x ∷ take_while p s) ∷ c) (drop_while p s)
at_run p n k c x s e = rw e refl

-- `([p]+)` where the rest cannot begin inside the class.
pub run-exact :
    (p : ℕ → Bool) (n : ℕ) (k : Rest) (c : Groups) (x : ℕ) (s : Text)
    → ((d : Groups) (y : ℕ) (t : Text) → p y ≡ true → k d (y ∷ t) ≡ none)
    → match (group n (plus p)) k c (x ∷ s)
      ≡ (if p x then k ((n, x ∷ take_while p s) ∷ c) (drop_while p s) else none)
unfolding match
run-exact p n k c x s h =
    elim (Bool-cases (p x))
      as (λ _.
        match (group n (plus p)) k c (x ∷ s)
        ≡ (if p x then k ((n, x ∷ take_while p s) ∷ c) (drop_while p s) else none)) [
          | inl e ↦ rw e (
              star-exact p (λ d t. k ((n, between (x ∷ s) t) ∷ d) t) c s (λ y t f. h _ y t f)
              ∙ ap (λ w. k ((n, w) ∷ c) (drop_while p s)) (whole e))
          | inr e ↦ rw e refl
        ]
  where
    whole : p x ≡ true → between (x ∷ s) (drop_while p s) ≡ x ∷ take_while p s
    whole e =
        subst (λ v. between (x ∷ v) (drop_while p s) ≡ x ∷ take_while p s)
          (take_while-drop_while p s) (between-append (x ∷ take_while p s) (drop_while p s))

-- `([p]+)?` takes the whole run, if what follows matches everywhere.
pub optional_run-Total :
    (p : ℕ → Bool) (n : ℕ) (k : Rest) (c : Groups) (s : Text)
    → Total k
    → match (maybe (group n (plus p))) k c s ≡ k (with_group n (take_while p s) c) (drop_while p s)
unfolding match
optional_run-Total p n k c [] h = refl
optional_run-Total p n k c (x ∷ s) h =
    elim (Bool-cases (p x))
      as (λ _.
        match (maybe (group n (plus p))) k c (x ∷ s)
        ≡ k (with_group n (take_while p (x ∷ s)) c) (drop_while p (x ∷ s))) [
          | inl e ↦
              let (d, f) = h ((n, x ∷ take_while p s) ∷ c) (drop_while p s) in
              optional_run-step p n k c x s d e f ∙ sym f ∙ sym (at_run p n k c x s e)
          | inr e ↦ rw e refl
        ]

-- The same if what follows matches nowhere inside the class.
pub optional_run-exact :
    (p : ℕ → Bool) (n : ℕ) (k : Rest) (c : Groups) (s : Text)
    → ((d : Groups) (y : ℕ) (t : Text) → p y ≡ true → k d (y ∷ t) ≡ none)
    → match (maybe (group n (plus p))) k c s ≡ k (with_group n (take_while p s) c) (drop_while p s)
unfolding match
optional_run-exact p n k c [] h = refl
optional_run-exact p n k c (x ∷ s) h =
    elim (Bool-cases (p x))
      as (λ _.
        match (maybe (group n (plus p))) k c (x ∷ s)
        ≡ k (with_group n (take_while p (x ∷ s)) c) (drop_while p (x ∷ s))) [
          | inl e ↦
              ap (λ o. or_else o (k c (x ∷ s))) (taken e)
              ∙ ap (or_else _) (h c x s e)
              ∙ or_none _
              ∙ sym (at_run p n k c x s e)
          | inr e ↦ rw e refl
        ]
  where
    not_inside :
        (d : Groups) (y : ℕ) (t : Text) → p y ≡ true → unless_empty (x ∷ s) k d (y ∷ t) ≡ none
    not_inside d y t f = if_none (eqb (length (x ∷ s)) (length (y ∷ t))) _ _ refl (h d y t f)

    taken :
        p x ≡ true
        → match (group n (plus p)) (unless_empty (x ∷ s) k) c (x ∷ s)
          ≡ k ((n, x ∷ take_while p s) ∷ c) (drop_while p s)
    taken e =
        run-exact p n (unless_empty (x ∷ s) k) c x s not_inside
        ∙ rw e (
            subst
              (λ v.
                unless_empty (x ∷ v) k ((n, x ∷ take_while p s) ∷ c) (drop_while p s)
                ≡ k ((n, x ∷ take_while p s) ∷ c) (drop_while p s))
              (take_while-drop_while p s)
              (unless_empty-shorter x (take_while p s) (drop_while p s) k _))
