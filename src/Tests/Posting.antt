-- ===== src/Tests/Posting.antt =====
-- A form of a page that posts, at a few posts and loads.
use socket_io_java.Common.{false, none, ◌≡◌, refl, inl, Text, List, [], ◌∷◌, codes}
use socket_io_java.Client.Form.{
  Poster, Act, posts, loads, acts, IsTidy, acts-IsTidy, post, iframe_loads,
}

abbrev quote : Text → Text
quote t = b'"' ∷ t

abbrev unused : Poster
unused = record {
  index = 2;
  has_form = false;
  action = [];
  area = [];
  children = [];
  iframe = none;
  next_iframe = 0;
  submitted = [];
  buffering = false;
}

-- The second load is of an iframe that is gone.
abbrev traffic : List Act
traffic = posts (codes "/a") (codes "x") ∷ loads 0 ∷ loads 0 ∷ posts (codes "/b") (codes "y") ∷ []

acts-IsTidy_example : IsTidy (acts quote traffic unused)
acts-IsTidy_example = acts-IsTidy quote traffic unused (inl (refl, refl, refl, refl))

submissions :
    (acts quote traffic unused).submitted
    ≡ (codes "/a", codes "\"x") ∷ (codes "/b", codes "\"y") ∷ []
unfolding post iframe_loads
submissions = refl
