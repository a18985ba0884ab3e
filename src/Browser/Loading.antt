-- ===== src/Browser/Loading.antt =====
-- util.on, util.load and util.defer, and Transport.ready with what the classes put in its place: functions that wait for the page.
use socket_io_java.Common.{
  ℕ, suc, ◌+◌, Bool, true, false, not, ◌||◌, ◌≡◌, refl, arith, List, [], ◌∷◌, ◌++◌, map, eqb,
  if◌then◌else◌, ap,
}
use socket_io_java.Client.State.{
  TransportKind, websocket, flashsocket, htmlfile, xhr_polling, jsonp_polling,
}

-- What a listener of the page does: it runs a function, or sets a timer of 100 ms for it.
pub data Task : Type 0 where
  runs delays : ℕ → Task

-- The page, with the functions that wait for its load event, those with a timer, and those that were run. `webkit`,
-- `import_scripts` and `indicator` are what the source tests of the browser, `has_body` whether document.body is there, and `attach_event` and
-- `add_event_listener` whether the window has those methods.
pub record Page : Type 0 where
  pub complete : Bool
  pub page_loaded : Bool
  pub webkit : Bool
  pub import_scripts : Bool
  pub indicator : Bool
  pub has_body : Bool
  pub attach_event : Bool
  pub add_event_listener : Bool
  pub listeners : List Task
  pub timers : List ℕ
  pub ran : List ℕ

abbrev perform : Task → Page → Page
perform (runs f) p = record p { ran = p.ran ++ f ∷ [] }
perform (delays f) p = record p { timers = p.timers ++ f ∷ [] }

-- util.on for the load event of the window; a window with neither method takes no listener.
abbrev pub listen : Task → Page → Page
listen t p =
    let q = record p { listeners = p.listeners ++ t ∷ [] } in
    if p.attach_event then q else if p.add_event_listener then q else p

abbrev pub TakesListeners : Page → Type 0
TakesListeners p = (p.attach_event || p.add_event_listener) ≡ true

unfoldable pub load : Task → Page → Page
load t p = if p.complete || p.page_loaded then perform t p else listen t p

unfoldable pub defer : ℕ → Page → Page
unfolding load
defer f p = if not p.webkit || p.import_scripts then perform (runs f) p else load (delays f) p

-- `ready` of each class of transports, with the function that opens it.
unfoldable pub ready : TransportKind → ℕ → Page → Page
unfolding load defer
ready websocket f p = perform (runs f) p
ready flashsocket f p = if p.has_body then perform (runs f) p else load (runs f) p
ready htmlfile f p = perform (runs f) p
ready xhr_polling f p = defer f p
ready jsonp_polling f p = if p.indicator then load (runs f) p else perform (runs f) p

-- The load event calls the listeners in order, and the timers end in order.
unfoldable pub performs : List Task → Page → Page
performs [] p = p
performs (t ∷ ts) p = performs ts (perform t p)

unfoldable pub page_loads : Page → Page
unfolding performs
page_loads p =
    performs p.listeners
      (record p { complete = true; page_loaded = true; has_body = true; listeners = [] })

unfoldable pub timers_end : Page → Page
timers_end p = record p { ran = p.ran ++ p.timers; timers = [] }

-- How often a function stands in a list.
abbrev pub count : ℕ → List ℕ → ℕ
count f [] = 0
count f (g ∷ gs) = if eqb f g then suc (count f gs) else count f gs

abbrev pub of_task : Task → ℕ
of_task (runs f) = f
of_task (delays f) = f

-- How often a function was run, or will be.
abbrev pub due : ℕ → Page → ℕ
due f p = count f p.ran + count f p.timers + count f (map of_task p.listeners)

count-append : (f : ℕ) (xs ys : List ℕ) → count f (xs ++ ys) ≡ count f xs + count f ys
count-append f [] ys = omega arith
count-append f (x ∷ xs) ys = ground (arith, count-append f xs ys)

map-of_task-append :
    (ts : List Task) (t : Task) → map of_task (ts ++ t ∷ []) ≡ map of_task ts ++ of_task t ∷ []
map-of_task-append [] t = refl
map-of_task-append (u ∷ ts) t = ap (◌∷◌ (of_task u)) (map-of_task-append ts t)

due-perform :
    (f : ℕ) (t : Task) (p : Page) → due f (perform t p) ≡ due f p + count f (of_task t ∷ [])
due-perform f (runs g) p = omega (arith, count-append f p.ran (g ∷ []))
due-perform f (delays g) p = omega (arith, count-append f p.timers (g ∷ []))

due-listen :
    (f : ℕ) (t : Task) (p : Page)
    → TakesListeners p
    → due f (listen t p) ≡ due f p + count f (of_task t ∷ [])
due-listen f t p h = listens p.attach_event p.add_event_listener h
  where
    q : Page
    q = record p { listeners = p.listeners ++ t ∷ [] }

    waits : due f q ≡ due f p + count f (of_task t ∷ [])
    waits = omega (
      arith,
      ap (count f) (map-of_task-append p.listeners t),
      count-append f (map of_task p.listeners) (of_task t ∷ []),
    )

    listens :
        (b c : Bool)
        → (b || c) ≡ true
        → due f (if b then q else if c then q else p) ≡ due f p + count f (of_task t ∷ [])
    listens true c h = waits
    listens false true h = waits
    listens false false h = cc

due-load :
    (f : ℕ) (t : Task) (p : Page)
    → TakesListeners p
    → due f (load t p) ≡ due f p + count f (of_task t ∷ [])
unfolding load
due-load f t p h = loaded (p.complete || p.page_loaded)
  where
    loaded :
        (b : Bool)
        → due f (if b then perform t p else listen t p) ≡ due f p + count f (of_task t ∷ [])
    loaded true = due-perform f t p
    loaded false = due-listen f t p h

due-if :
    (b : Bool) (f n : ℕ) (p q : Page) → due f p ≡ n → due f q ≡ n → due f (if b then p else q) ≡ n
due-if true f n p q h k = h
due-if false f n p q h k = k

due-defer : (f g : ℕ) (p : Page) → TakesListeners p → due f (defer g p) ≡ due f p + count f (g ∷ [])
unfolding defer
due-defer f g p h =
    due-if (not p.webkit || p.import_scripts) f _ _ _ (due-perform f (runs g) p)
      (due-load f (delays g) p h)

-- Whatever the class of the transport, `ready` makes its function due once more, and changes nothing of the others.
due-ready :
    (k : TransportKind) (f g : ℕ) (p : Page)
    → TakesListeners p
    → due f (ready k g p) ≡ due f p + count f (g ∷ [])
unfolding ready
due-ready websocket f g p h = due-perform f (runs g) p
due-ready flashsocket f g p h =
    due-if p.has_body f _ _ _ (due-perform f (runs g) p) (due-load f (runs g) p h)
due-ready htmlfile f g p h = due-perform f (runs g) p
due-ready xhr_polling f g p h = due-defer f g p h
due-ready jsonp_polling f g p h =
    due-if p.indicator f _ _ _ (due-load f (runs g) p h) (due-perform f (runs g) p)

due-performs :
    (f : ℕ) (ts : List Task) (p : Page) → due f (performs ts p) ≡ due f p + count f (map of_task ts)
unfolding performs
due-performs f [] p = omega arith
due-performs f (t ∷ ts) p = ground (arith, due-performs f ts (perform t p), due-perform f t p)

performs-listeners : (ts : List Task) (p : Page) → (performs ts p).listeners ≡ p.listeners
unfolding performs
performs-listeners [] p = refl
performs-listeners (runs f ∷ ts) p = performs-listeners ts (perform (runs f) p)
performs-listeners (delays f ∷ ts) p = performs-listeners ts (perform (delays f) p)

page_loads-listeners : (p : Page) → (page_loads p).listeners ≡ []
unfolding page_loads
page_loads-listeners p = performs-listeners p.listeners _

due-page_loads : (f : ℕ) (p : Page) → due f (page_loads p) ≡ due f p
unfolding page_loads
due-page_loads f p = omega (
  arith,
  due-performs f p.listeners
      (record p { complete = true; page_loaded = true; has_body = true; listeners = [] }),
)

-- Once the page is loaded and the timers have ended, a function handed to `ready` has been run once more than it had been or
-- was due before, for every class of transports, and every other function as often as it was due. The window has a method
-- that adds listeners.
pub ready_runs_once :
    (k : TransportKind) (f g : ℕ) (p : Page)
    → TakesListeners p
    → count f (timers_end (page_loads (ready k g p))).ran ≡ due f p + count f (g ∷ [])
unfolding timers_end
ready_runs_once k f g p h =
    let q = page_loads (ready k g p) in
    omega (
      arith,
      count-append f q.ran q.timers,
      due-page_loads f (ready k g p),
      due-ready k f g p h,
      ap (λ ts. count f (map of_task ts)) (page_loads-listeners (ready k g p)),
    )
