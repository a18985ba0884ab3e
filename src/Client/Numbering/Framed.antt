-- ===== src/Client/Numbering/Framed.antt =====
-- The client's smallest steps keep the numbering of a namespace.
use socket_io_java.Common.{
  Bool, true, false, none, some, List, ◌≡◌, ap, sym, ◌∙◌, Text, All, All-insert, lookup, insert,
  lookup-insert, IsObject, insert-IsObject, if◌then◌else◌, ◌==◌, text_eq, nat_eq,
}
use socket_io_java.Client.State.{Client, Namespace}
use socket_io_java.Client.Buffer.{packet, set_buffer, on_close}
use socket_io_java.Client.Close.{has_iframe, reconnect}
use socket_io_java.Client.Namespaces.{new_namespace}
use socket_io_java.Client.Opening.{settle, arrive}
use socket_io_java.Client.Frame.{Frame, Naming}
use socket_io_java.Client.Frame.Buffering.{packet-buffered, set_buffer-buffered, arrive-buffered}
use socket_io_java.Client.Frame.Attached.{Rel-mark_closed, Rel-release, Rel-closes_up}
use socket_io_java.Client.Numbering.{
  IsNumbered, Counts, with_callback-IsNumbered, delete-IsNumbered, with_callback-Counts,
  delete-Counts,
}

-- The namespaces of a client, where the one of the key `followed` was n at first.
module _ (followed : Text) (n : Namespace) where
  abbrev pub FitsAt : Text → Namespace → Type 0
  FitsAt key m = IsNumbered m × (key ≡ followed → Counts n m)

  pub record Knows (ns : List (Text × Namespace)) : Type 0 where
    pub object : IsObject ns
    pub all : All (λ e. FitsAt e.0 e.1) ns
    pub made : lookup followed ns ≡ none → (name : Text) → Counts n (new_namespace name)

  abbrev pub KnowsFrom : Client → Client → Type 0
  KnowsFrom s t = Knows s.namespaces → Knows t.namespaces

  pub still : (s t : Client) → t.namespaces ≡ s.namespaces → KnowsFrom s t
  still s t e k = rw e k

  pub KnowsFrom-names :
      (key : Text) (m : Namespace) (ns : List (Text × Namespace))
      → FitsAt key m
      → Knows ns
      → Knows (insert key m ns)
  KnowsFrom-names key m ns f k = record {
    object = insert-IsObject key m ns k.object;
    all = All-insert (λ e. FitsAt e.0 e.1) key m ns f k.all;
    made = λ e. k.made (absent (key == followed) (sym (lookup-insert key followed m ns) ∙ e));
  }
    where
      absent :
          (b : Bool) → (if b then some m else lookup followed ns) ≡ none → lookup followed ns ≡ none
      absent true e = absurd (cc e)
      absent false e = e

  abbrev pub numbered : Naming KnowsFrom
  numbered = record {
    Fits = FitsAt;
    Knows = λ s. Knows s.namespaces;
    knows_all = λ s k. k.all;
    new_fits = λ s key name k e. (tt, λ q. k.made (rw (sym q) e) name);
    flag_fits =
        λ b key m f. (f.0, λ q. let g = f.1 q in record { count = g.count; waits = g.waits });
    callback_fits =
        λ fn key m f. (with_callback-IsNumbered fn m f.0, λ q. with_callback-Counts fn n m (f.1 q));
    delete_fits = λ id key m f. (delete-IsNumbered id m f.0, λ q. delete-Counts id n m (f.1 q));
    assumes = λ s t k h. k h h;
  }

  unfoldable pub numbering : Frame
  unfolding settle reconnect on_close
  numbering = record {
    Rel = KnowsFrom;
    naming = numbered;
    same = λ s h. h;
    chain = λ s t u g k h. k (g h);
    puts = λ o s e h. h;
    raises = λ s h. h;
    sends = λ p s. still s (packet p s) (ap (λ u. u.namespaces) (packet-buffered p s));
    flushes = λ v s. still s (set_buffer v s) (ap (λ u. u.namespaces) (set_buffer-buffered v s));
    names = λ key m f s. KnowsFrom-names key m s.namespaces f;
    closes_up = Rel-closes_up KnowsFrom (λ s h. h) (λ s t h. h) (λ s t u g k h. k (g h)) (λ s h. h);
    drops_iframe = Rel-release KnowsFrom (λ s h. h) (λ s t h. h) has_iframe;
    times = λ b s t e h. h;
    marks = Rel-mark_closed KnowsFrom (λ s h. h) (λ s t h. h);
    reconnects = λ s h. h;
    shuts = λ s h. h;
    settles = λ c s h. h;
    arrives = λ s e. still s (arrive s) (ap (λ u. u.namespaces) (arrive-buffered s));
    connects = λ s h. h;
    beats_on = λ b s h. h;
    calms = λ s h. h;
    posts = λ s h. h;
  }
