-- ===== src/Client/Form.antt =====
-- JSONPPolling.post: the form through which a page posts without a request, and its iframes.
use mathlib.Core.Path.{subst}
use socket_io_java.Common.{
  ℕ, suc, Bool, true, false, ◌≡◌, refl, sym, ap, ◌∙◌, ◌⊎◌, inl, inr, arith, Option, none, some,
  Text, List, [], ◌∷◌, ◌++◌, codes, decimal, if◌then◌else◌, eqb,
}

-- An iframe in the form, and whether the handler `complete` is set on it.
pub record Iframe : Type 0 where
  pub identity : ℕ
  pub name : Text
  pub handled : Bool

-- The transport and its form: `action`, `area` and `children` are the form's, once it is made; `iframe` is the iframe of
-- the transport, and `submitted` has what was sent, with the address. `buffering` is what setBuffer sets last.
pub record Poster : Type 0 where
  pub index : ℕ
  pub has_form : Bool
  pub action : Text
  pub area : Text
  pub children : List Iframe
  pub iframe : Option ℕ
  pub next_iframe : ℕ
  pub submitted : List (Text × Text)
  pub buffering : Bool

-- `iframeId`.
abbrev pub iframe_id : Poster → Text
iframe_id p = codes "socketio_iframe_" ++ decimal p.index

abbrev pub without_child : ℕ → List Iframe → List Iframe
without_child i [] = []
without_child i (c ∷ cs) =
    let rest = without_child i cs in if eqb c.identity i then rest else c ∷ rest

-- `removeChild`, of an iframe that is in the form.
abbrev pub remove_iframe : Option ℕ → List Iframe → List Iframe
remove_iframe none cs = cs
remove_iframe (some i) cs = without_child i cs

unfoldable pub init_iframe : Poster → Poster
init_iframe p = record p {
  children =
      remove_iframe p.iframe p.children
      ++ record { identity = p.next_iframe; name = iframe_id p; handled = false } ∷ [];
  iframe = some p.next_iframe;
  next_iframe = suc p.next_iframe;
}

abbrev pub with_handler : Option ℕ → List Iframe → List Iframe
with_handler none cs = cs
with_handler (some i) [] = []
with_handler (some i) (c ∷ cs) =
    let rest = with_handler (some i) cs in
    if eqb c.identity i then record c { handled = true } ∷ rest else c ∷ rest

-- The form is made at the first post.
abbrev pub make_form : Poster → Poster
make_form p = if p.has_form then p else record p { has_form = true; children = []; area = [] }

-- What is done with a form that is there.
unfoldable pub fill : (Text → Text) → Text → Text → Poster → Poster
unfolding init_iframe
fill stringify url text p =
    let q = init_iframe (record p { action = url }) in
    record q {
      area = stringify text;
      submitted = q.submitted ++ (q.action, stringify text) ∷ [];
      children = with_handler q.iframe q.children;
      buffering = true;
    }

-- `post(data)`, where `stringify` is JSON.stringify on a text and `url` is what prepareUrl and the query give.
unfoldable pub post : (Text → Text) → Text → Text → Poster → Poster
unfolding fill
post stringify url text p = fill stringify url text (make_form p)

-- `complete`. What setBuffer(false) finds in the buffer is the next post.
unfoldable pub complete : Poster → Poster
unfolding init_iframe
complete p = record (init_iframe p) { buffering = false }

abbrev pub is_handled : ℕ → List Iframe → Bool
is_handled i [] = false
is_handled i (c ∷ cs) = let rest = is_handled i cs in if eqb c.identity i then c.handled else rest

-- An iframe of the form has loaded.
unfoldable pub iframe_loads : ℕ → Poster → Poster
unfolding complete
iframe_loads i p = if is_handled i p.children then complete p else p

-- What happens to a form: posts, and loads of iframes, also of those that are gone.
pub data Act : Type 0 where
  posts : Text → Text → Act
  loads : ℕ → Act

module _ (stringify : Text → Text) where
  abbrev pub act : Act → Poster → Poster
  act (posts url text) p = post stringify url text p
  act (loads i) p = iframe_loads i p

  abbrev pub acts : List Act → Poster → Poster
  acts [] p = p
  acts (a ∷ rest) p = acts rest (act a p)

-- Before the first post there is no form. Then the form has one iframe, the transport's, with its name, and the handler is on it
-- exactly while the socket holds its packets back.
abbrev pub IsTidy : Poster → Type 0
IsTidy p =
    ((p.has_form ≡ false) × (p.children ≡ []) × (p.iframe ≡ none) × (p.buffering ≡ false))
    ⊎ ((i : ℕ) × (p.has_form ≡ true)
        × (p.iframe ≡ some i)
        × (p.children ≡ record { identity = i; name = iframe_id p; handled = p.buffering } ∷ []))

eqb_same : (n : ℕ) → eqb n n ≡ true
eqb_same n = ground arith

-- Whatever was there, a new iframe takes the place of the only one.
init_iframe-children :
    (p : Poster) (i : ℕ) (h : Bool)
    → p.iframe ≡ some i
    → p.children ≡ record { identity = i; name = iframe_id p; handled = h } ∷ []
    → (init_iframe p).children
      ≡ record { identity = p.next_iframe; name = iframe_id p; handled = false } ∷ []
unfolding init_iframe
init_iframe-children p i h e c =
    ap (λ o. remove_iframe o p.children ++ fresh) e
    ∙ ap (λ cs. without_child i cs ++ fresh) c
    ∙ ap
        (λ b.
          (if b then [] else record { identity = i; name = iframe_id p; handled = h } ∷ [])
          ++ fresh)
        (eqb_same i)
  where
    fresh : List Iframe
    fresh = record { identity = p.next_iframe; name = iframe_id p; handled = false } ∷ []

with_handler-one :
    (i : ℕ) (name : Text) (cs : List Iframe)
    → cs ≡ record { identity = i; name = name; handled = false } ∷ []
    → with_handler (some i) cs ≡ record { identity = i; name = name; handled = true } ∷ []
with_handler-one i name cs c =
    ap (with_handler (some i)) c
    ∙ ap
        (λ b.
          if b
          then record { identity = i; name = name; handled = true } ∷ []
          else record { identity = i; name = name; handled = false } ∷ [])
        (eqb_same i)

fill-IsTidy :
    (stringify : Text → Text) (url text : Text) (p : Poster)
    → p.has_form ≡ true
    → (init_iframe p).children
      ≡ record { identity = p.next_iframe; name = iframe_id p; handled = false } ∷ []
    → IsTidy (fill stringify url text p)
unfolding init_iframe fill
fill-IsTidy stringify url text p f c = inr (
  p.next_iframe,
  f,
  refl,
  with_handler-one p.next_iframe (iframe_id p) (init_iframe p).children c,
)

post-IsTidy :
    (stringify : Text → Text) (url text : Text) (p : Poster)
    → IsTidy p
    → IsTidy (post stringify url text p)
unfolding post init_iframe
post-IsTidy stringify url text p (inl (f, c, e, b)) =
    let m = record p { has_form = true; children = []; area = [] } in
    subst (λ h. IsTidy (fill stringify url text (if h then p else m))) (sym f)
      (fill-IsTidy stringify url text m refl (
        ap
          (λ o.
            remove_iframe o []
            ++ record { identity = p.next_iframe; name = iframe_id p; handled = false } ∷ [])
          e))
post-IsTidy stringify url text p (inr (i, f, e, c)) =
    let m = record p { has_form = true; children = []; area = [] } in
    subst (λ h. IsTidy (fill stringify url text (if h then p else m))) (sym f)
      (fill-IsTidy stringify url text p f (init_iframe-children p i p.buffering e c))

complete-IsTidy :
    (p : Poster) (i : ℕ)
    → p.has_form ≡ true
    → p.iframe ≡ some i
    → p.children ≡ record { identity = i; name = iframe_id p; handled = p.buffering } ∷ []
    → IsTidy (complete p)
unfolding complete init_iframe
complete-IsTidy p i f e c = inr (p.next_iframe, f, refl, init_iframe-children p i p.buffering e c)

if-IsTidy : (b : Bool) (p q : Poster) → IsTidy p → IsTidy q → IsTidy (if b then p else q)
if-IsTidy true p q h k = h
if-IsTidy false p q h k = k

act-IsTidy :
    (stringify : Text → Text) (a : Act) (p : Poster) → IsTidy p → IsTidy (act stringify a p)
unfolding iframe_loads
act-IsTidy stringify (posts url text) p h = post-IsTidy stringify url text p h
act-IsTidy stringify (loads i) p (inl (f, c, e, b)) =
    subst (λ cs. IsTidy (if is_handled i cs then complete p else p)) (sym c) (inl (f, c, e, b))
act-IsTidy stringify (loads i) p (inr (j, f, e, c)) =
    if-IsTidy (is_handled i p.children) (complete p) p (complete-IsTidy p j f e c)
      (inr (j, f, e, c))

-- Over any posts and loads of iframes, of old ones too, the form has one iframe, the transport's own, once there is a form; and
-- `complete` waits for it exactly while the socket holds its packets back.
pub acts-IsTidy :
    (stringify : Text → Text) (run : List Act) (p : Poster)
    → IsTidy p
    → IsTidy (acts stringify run p)
acts-IsTidy stringify [] p h = h
acts-IsTidy stringify (a ∷ rest) p h =
    acts-IsTidy stringify rest (act stringify a p) (act-IsTidy stringify a p h)
