-- ===== src/Regex/Laws.antt =====
-- What is used of the search: where it finds nothing, where it finds something, and what a greedy loop takes.
use socket_io_java.Common.{
  ℕ, ◌-◌, Bool, true, false, ◌&&◌, Option, none, some, ◌≡◌, refl, ap, ◌∙◌, arith, Text, [], ◌∷◌,
  ◌++◌, if◌then◌else◌, length, take, length-append, take-length_append, InClass, Stops, drop_while,
  inl, inr, Bool-cases, eqb,
}
use socket_io_java.Regex.{
  Regex, one, many, then_, either, maybe, group, unless, finish, nothing, Groups, Rest, between,
  ends, is_none, or_else, unless_empty, repeat, match, star, plus,
}

pub if_none : (b : Bool) (x y : Option Groups) → x ≡ none → y ≡ none → (if b then x else y) ≡ none
if_none true x y h k = h
if_none false x y h k = k

or_else-none : (x y : Option Groups) → x ≡ none → y ≡ none → or_else x y ≡ none
or_else-none x y h k = ap (λ o. or_else o y) h ∙ k

-- A predicate on texts that holds of every rest of a text, if it holds of the text.
module _ (P : Text → Type 0) (tail : (x : ℕ) (s : Text) → P (x ∷ s) → P s) where
  repeat-none :
      (p : ℕ → Bool) (clear : Text → Bool) (k : Rest) (c : Groups) (s : Text)
      → ((c : Groups) (t : Text) → P t → k c t ≡ none)
      → P s
      → repeat p clear k c s ≡ none
  unfolding repeat
  repeat-none p clear k c [] h i = h c [] i
  repeat-none p clear k c (x ∷ s) h i =
      let last = h c (x ∷ s) i in
      if_none (p x) _ _
        (if_none (clear s) _ _ (or_else-none _ _ (repeat-none p clear k c s h (tail x s i)) last)
          last)
        last

  -- If the rest is found nowhere, no part before it changes that.
  pub match-none :
      (r : Regex) (k : Rest) (c : Groups) (s : Text)
      → ((c : Groups) (t : Text) → P t → k c t ≡ none)
      → P s
      → match r k c s ≡ none
  unfolding match
  match-none (one p) k c [] h i = refl
  match-none (one p) k c (x ∷ s) h i = if_none (p x) _ _ (h c s (tail x s i)) refl
  match-none (many p a) k c s h i = repeat-none p _ k c s h i
  match-none (then_ r q) k c s h i =
      match-none r (match q k) c s (λ d t j. match-none q k d t h j) i
  match-none (either r q) k c s h i =
      or_else-none _ _ (match-none r k c s h i) (match-none q k c s h i)
  match-none (maybe r) k c s h i =
      or_else-none _ _
        (match-none r (unless_empty s k) c s
          (λ d t j. if_none (eqb (length s) (length t)) _ _ refl (h d t j)) i)
        (h c s i)
  match-none (group n r) k c s h i = match-none r _ c s (λ d t j. h ((n, between s t) ∷ d) t j) i
  match-none (unless r) k c s h i = if_none (is_none (match r ends c s)) _ _ (h c s i) refl
  match-none finish k c [] h i = h c [] i
  match-none finish k c (x ∷ s) h i = refl
  match-none nothing k c s h i = refl

abbrev pub IsSome : Option Groups → Type 0
IsSome o = (c : Groups) × (o ≡ some c)

-- An expression of which every part may be left out.
abbrev pub is_optional : Regex → Bool
is_optional (many p a) = true
is_optional (maybe r) = true
is_optional (then_ r q) = is_optional r && is_optional q
is_optional (group n r) = is_optional r
is_optional _ = false

or_else-IsSome : (x y : Option Groups) → IsSome y → IsSome (or_else x y)
or_else-IsSome none y h = h
or_else-IsSome (some c) y h = (c, refl)

if-IsSome : (b : Bool) (x y : Option Groups) → IsSome x → IsSome y → IsSome (if b then x else y)
if-IsSome true x y h k = h
if-IsSome false x y h k = k

repeat-IsSome :
    (p : ℕ → Bool) (clear : Text → Bool) (k : Rest) (c : Groups) (s : Text)
    → ((c : Groups) (t : Text) → IsSome (k c t))
    → IsSome (repeat p clear k c s)
unfolding repeat
repeat-IsSome p clear k c [] h = h c []
repeat-IsSome p clear k c (x ∷ s) h =
    let last = h c (x ∷ s) in
    if-IsSome (p x) _ _ (if-IsSome (clear s) _ _ (or_else-IsSome _ _ last) last) last

-- Such an expression matches every text, if what follows it does.
pub match-IsSome :
    (r : Regex) (k : Rest) (c : Groups) (s : Text)
    → is_optional r ≡ true
    → ((c : Groups) (t : Text) → IsSome (k c t))
    → IsSome (match r k c s)
unfolding match
match-IsSome (one p) k c s o h = cc
match-IsSome (many p a) k c s o h = repeat-IsSome p _ k c s h
match-IsSome (then_ r q) k c s o h =
    match-IsSome r (match q k) c s (ground arith) (λ d t. match-IsSome q k d t (ground arith) h)
match-IsSome (either r q) k c s o h = cc
match-IsSome (maybe r) k c s o h = or_else-IsSome _ _ (h c s)
match-IsSome (group n r) k c s o h = match-IsSome r _ c s o (λ d t. h ((n, between s t) ∷ d) t)
match-IsSome (unless r) k c s o h = cc
match-IsSome finish k c s o h = cc
match-IsSome nothing k c s o h = cc

pub between-append : (t u : Text) → between (t ++ u) u ≡ t
between-append t u = ap (λ n. take n (t ++ u)) same ∙ take-length_append t u
  where
    same : length (t ++ u) - length u ≡ length t
    same = omega (arith, length-append {0} t u)

-- What a loop passes: code units of its class, with nothing behind them that stops it.
abbrev pub Passes : (ℕ → Bool) → (Text → Bool) → Text → Text → Type 0
Passes p clear [] u = Unit {0}
Passes p clear (x ∷ t) u = (p x ≡ true) × (clear (t ++ u) ≡ true) × Passes p clear t u

pub repeat-through :
    (p : ℕ → Bool) (clear : Text → Bool) (k : Rest) (c : Groups) (t u : Text) (d : Groups)
    → Passes p clear t u
    → Stops p u
    → k c u ≡ some d
    → repeat p clear k c (t ++ u) ≡ some d
unfolding repeat
repeat-through p clear k c [] [] d h s e = e
repeat-through p clear k c [] (x ∷ u) d h s e = rw s e
repeat-through p clear k c (x ∷ t) u d (hp, hc, h) s e =
    rw hp
      (rw hc (ap (λ o. or_else o (k c (x ∷ (t ++ u)))) (repeat-through p clear k c t u d h s e)))

-- `[p]*`, `([p]*)` and `([p]+)` take the whole run, if the rest then matches.
pub star-through :
    (p : ℕ → Bool) (k : Rest) (c : Groups) (t u : Text) (d : Groups)
    → InClass p t
    → Stops p u
    → k c u ≡ some d
    → match (star p) k c (t ++ u) ≡ some d
unfolding match
star-through p k c t u d h s e = repeat-through p (λ v. true) k c t u d (passes t h) s e
  where
    passes : (t : Text) → InClass p t → Passes p (λ v. true) t u
    passes [] h = tt
    passes (x ∷ t) h = (h.0, refl, passes t h.1)

-- A group around an expression keeps the text that it takes.
pub group-through :
    (r : Regex) (n : ℕ) (k : Rest) (c c' : Groups) (t u : Text) (o : Option Groups)
    → ((l : Rest) → l c' u ≡ o → match r l c (t ++ u) ≡ o)
    → k ((n, t) ∷ c') u ≡ o
    → match (group n r) k c (t ++ u) ≡ o
unfolding match
group-through r n k c c' t u o h e =
    h (λ d v. k ((n, between (t ++ u) v) ∷ d) v)
      (ap (λ w. k ((n, w) ∷ c') u) (between-append t u) ∙ e)

pub plus-through :
    (p : ℕ → Bool) (k : Rest) (c : Groups) (x : ℕ) (t u : Text) (d : Groups)
    → InClass p (x ∷ t)
    → Stops p u
    → k c u ≡ some d
    → match (plus p) k c ((x ∷ t) ++ u) ≡ some d
unfolding match
plus-through p k c x t u d h s e = rw h.0 (star-through p k c t u d h.1 s e)

-- An optional part that takes something, and one that cannot match.
pub maybe-through :
    (r : Regex) (k : Rest) (c : Groups) (s : Text) (d : Groups)
    → match r (unless_empty s k) c s ≡ some d
    → match (maybe r) k c s ≡ some d
unfolding match
maybe-through r k c s d h = ap (λ o. or_else o (k c s)) h

pub maybe-skip :
    (r : Regex) (k : Rest) (c : Groups) (s : Text)
    → match r (unless_empty s k) c s ≡ none
    → match (maybe r) k c s ≡ k c s
unfolding match
maybe-skip r k c s h = ap (λ o. or_else o (k c s)) h

-- Where the rest cannot begin inside the class, a loop takes the whole run, whether the rest matches or not.
pub star-exact :
    (p : ℕ → Bool) (k : Rest) (c : Groups) (s : Text)
    → ((x : ℕ) (t : Text) → p x ≡ true → k c (x ∷ t) ≡ none)
    → match (star p) k c s ≡ k c (drop_while p s)
unfolding match repeat
star-exact p k c [] h = refl
star-exact p k c (x ∷ s) h = elim (Bool-cases (p x)) [
  | inl e ↦ rw e (rw (h x s e) (or_none (match (star p) k c s) ∙ star-exact p k c s h))
  | inr e ↦ rw e
]
  where
    or_none : (o : Option Groups) → or_else o none ≡ o
    or_none none = refl
    or_none (some d) = refl

pub unless_empty-shorter :
    (x : ℕ) (t u : Text) (k : Rest) (c : Groups) → unless_empty (x ∷ (t ++ u)) k c u ≡ k c u
unless_empty-shorter x t u k c = rw shorter refl
  where
    shorter : eqb (length (x ∷ (t ++ u))) (length u) ≡ false
    shorter = ground (arith, length-append {0} t u)

-- An optional part that takes at least one code unit.
pub optional-through :
    (r : Regex) (k : Rest) (c c' : Groups) (x : ℕ) (t u : Text) (d : Groups)
    → ((l : Rest) → l c' u ≡ some d → match r l c (x ∷ (t ++ u)) ≡ some d)
    → k c' u ≡ some d
    → match (maybe r) k c (x ∷ (t ++ u)) ≡ some d
optional-through r k c c' x t u d h e =
    maybe-through r k c (x ∷ (t ++ u)) d
      (h (unless_empty (x ∷ (t ++ u)) k) (unless_empty-shorter x t u k c' ∙ e))

-- An optional part that begins with a code unit that is not there.
pub optional-skip :
    (p : ℕ → Bool) (r : Regex) (k : Rest) (c : Groups) (u : Text)
    → Stops p u
    → match (maybe (then_ (one p) r)) k c u ≡ k c u
unfolding match
optional-skip p r k c [] s = refl
optional-skip p r k c (x ∷ u) s = rw s

pub optional-skip_one :
    (p : ℕ → Bool) (k : Rest) (c : Groups) (u : Text)
    → Stops p u
    → match (maybe (one p)) k c u ≡ k c u
unfolding match
optional-skip_one p k c [] s = refl
optional-skip_one p k c (x ∷ u) s = rw s

-- A loop whose rest begins at no code unit of a text, nor behind it.
pub star-none :
    (p q : ℕ → Bool) (k : Rest) (c : Groups) (t u : Text)
    → InClass q t
    → ((x : ℕ) (v : Text) → q x ≡ true → k c (x ∷ v) ≡ none)
    → Stops p u
    → k c u ≡ none
    → match (star p) k c (t ++ u) ≡ none
unfolding match repeat
star-none p q k c [] [] i h s e = e
star-none p q k c [] (x ∷ u) i h s e = rw s e
star-none p q k c (x ∷ t) u i h s e =
    if_none (p x) _ _ (or_else-none _ _ (star-none p q k c t u i.1 h s e) (h x (t ++ u) i.0))
      (h x (t ++ u) i.0)
