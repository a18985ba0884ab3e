-- ===== src/Common/Dict.antt =====
-- A plain object used as a map: its own properties in the order of insertion.
use mathlib.Core.Path.{ap, ◌∙◌, ◌≡◌, refl, sym}
use mathlib.Core.Bool.{Bool, true, false}
use mathlib.Core.Logic.{◌≢◌}
use mathlib.Core.List.{List, [], ◌∷◌}
use mathlib.Core.Option.{Option, none, some, some-injective}
use native.Mathlib.Omega.{arith}
use socket_io_java.Common.Tests.{if◌then◌else◌}
use socket_io_java.Common.Equality.{◌==◌, text_eq}
use socket_io_java.Common.Texts.{Text}
use socket_io_java.Common.Lists.{All, All-weaken}

module _ {ℓ} {V : Type ℓ} where
  -- `o[k]`; a property that is not there is undefined.
  unfoldable pub lookup : Text → List (Text × V) → Option V
  lookup name [] = none
  lookup name ((own, value) ∷ rest) = if own == name then some value else lookup name rest

  -- `o[k] = v`.
  unfoldable pub insert : Text → V → List (Text × V) → List (Text × V)
  insert name new [] = (name, new) ∷ []
  insert name new ((own, value) ∷ rest) =
      if own == name then (own, new) ∷ rest else (own, value) ∷ insert name new rest

  -- `delete o[k]`.
  unfoldable pub delete : Text → List (Text × V) → List (Text × V)
  delete name [] = []
  delete name ((own, value) ∷ rest) =
      if own == name then delete name rest else (own, value) ∷ delete name rest

  pub lookup-insert :
      (name asked : Text) (new : V) (o : List (Text × V))
      → lookup asked (insert name new o) ≡ (if name == asked then some new else lookup asked o)
  unfolding lookup insert
  lookup-insert name asked new [] = refl
  lookup-insert name asked new ((own, value) ∷ rest) = ground (
    arith,
    lookup-insert name asked new rest,
    text_eq.beq_iff own asked,
    text_eq.beq_iff own name,
    text_eq.beq_iff name asked,
  )

  pub lookup-delete :
      (name asked : Text) (o : List (Text × V))
      → lookup asked (delete name o) ≡ (if name == asked then none else lookup asked o)
  unfolding lookup delete
  lookup-delete name asked [] = ground arith
  lookup-delete name asked ((own, value) ∷ rest) = ground (
    arith,
    lookup-delete name asked rest,
    text_eq.beq_iff own asked,
    text_eq.beq_iff own name,
    text_eq.beq_iff name asked,
  )

  -- What holds of every property, where one is set, deleted or not there.
  module _ {κ} (Holds : Text × V → Type κ) where
    pub All-insert :
        (name : Text) (new : V) (o : List (Text × V))
        → Holds (name, new)
        → All Holds o
        → All Holds (insert name new o)
    unfolding insert
    All-insert name new [] h a = (h, tt)
    All-insert name new ((own, value) ∷ rest) h a =
        inserted (own == name) (λ e. (text_eq.beq_iff own name).0 e)
          (All-insert name new rest h a.1)
      where
        inserted :
            (b : Bool)
            → (b ≡ true → own ≡ name)
            → All Holds (insert name new rest)
            → All Holds (if b then (own, new) ∷ rest else (own, value) ∷ insert name new rest)
        inserted true e r = (rw (e refl) h, a.1)
        inserted false e r = (a.0, r)

    pub All-delete : (name : Text) (o : List (Text × V)) → All Holds o → All Holds (delete name o)
    unfolding delete
    All-delete name [] a = tt
    All-delete name ((own, value) ∷ rest) a = deleted (own == name) (All-delete name rest a.1)
      where
        deleted :
            (b : Bool)
            → All Holds (delete name rest)
            → All Holds (if b then delete name rest else (own, value) ∷ delete name rest)
        deleted true r = r
        deleted false r = (a.0, r)

    found_by :
        (own name : Text) (value v : V) (b : Bool) (o : Option V)
        → (b ≡ true → own ≡ name)
        → Holds (own, value)
        → (o ≡ some v → Holds (name, v))
        → (if b then some value else o) ≡ some v
        → Holds (name, v)
    found_by own name value v true o e h k p = rw (sym (e refl), sym (some-injective value v p)) h
    found_by own name value v false o e h k p = k p

    pub All-lookup :
        (name : Text) (v : V) (o : List (Text × V))
        → All Holds o
        → lookup name o ≡ some v
        → Holds (name, v)
    unfolding lookup
    All-lookup name v [] a e = absurd (cc e)
    All-lookup name v ((own, value) ∷ rest) a e =
        found_by own name value v (own == name) (lookup name rest)
          (λ b. (text_eq.beq_iff own name).0 b) a.0 (All-lookup name v rest a.1) e

  pub lookup-absent :
      (name : Text) (o : List (Text × V)) → All (λ e. e.0 ≢ name) o → lookup name o ≡ none
  unfolding lookup
  lookup-absent name [] a = refl
  lookup-absent name ((own, value) ∷ rest) a =
      ground (arith, lookup-absent name rest a.1, text_eq.beq_iff own name)

  pub lookup-none :
      (name : Text) (o : List (Text × V)) → lookup name o ≡ none → All (λ e. e.0 ≢ name) o
  unfolding lookup
  lookup-none name [] a = tt
  lookup-none name ((own, value) ∷ rest) a =
      ground (arith, lookup-none name rest, text_eq.beq_iff own name)

  -- No name stands twice.
  unfoldable pub IsObject : List (Text × V) → Type ℓ
  unfolding lookup
  IsObject [] = Unit
  IsObject ((own, value) ∷ rest) = (lookup own rest ≡ none) × IsObject rest

  pub insert-IsObject :
      (name : Text) (new : V) (o : List (Text × V)) → IsObject o → IsObject (insert name new o)
  unfolding lookup insert IsObject
  insert-IsObject name new [] h = (refl, tt)
  insert-IsObject name new ((own, value) ∷ rest) h = ground (
    arith,
    insert-IsObject name new rest h.1,
    lookup-insert name own new rest,
    text_eq.beq_iff own name,
    text_eq.beq_iff name own,
  )

  -- What is found under a name is all that stands there.
  pub lookup-only :
      (name : Text) (v : V) (o : List (Text × V))
      → IsObject o
      → lookup name o ≡ some v
      → All (λ e. e.0 ≡ name → e.1 ≡ v) o
  unfolding lookup IsObject
  lookup-only name v [] h e = tt
  lookup-only name v ((own, value) ∷ rest) h e =
      found (own == name) (λ b. (text_eq.beq_iff own name).0 b)
        (λ b q. absurd (cc (b, (text_eq.beq_iff own name).1 q))) e (lookup-only name v rest h.1)
    where
      found :
          (b : Bool)
          → (b ≡ true → own ≡ name)
          → (b ≡ false → own ≢ name)
          → (if b then some value else lookup name rest) ≡ some v
          → (lookup name rest ≡ some v → All (λ e. e.0 ≡ name → e.1 ≡ v) rest)
          → All (λ e. e.0 ≡ name → e.1 ≡ v) ((own, value) ∷ rest)
      found true o d p k = (
        λ q. some-injective value v p,
        All-weaken (λ e q r. absurd (q r)) rest
            (lookup-none name rest (ap (λ k. lookup k rest) (sym (o refl)) ∙ h.0)),
      )
      found false o d p k = (λ q. absurd (d refl q), k p)
