-- ===== src/Graph/Counter.antt =====
-- InteractionCounter of graph-ic.js: the counts that it keeps, what it draws at each tick, and the total that it shows.
use socket_io_java.Common.{
  ℕ, suc, Bool, true, not, Option, none, some, List, [], ◌∷◌, ◌++◌, map, if◌then◌else◌, leb, drop,
}

-- `d3.range` and `d3.max`.
pub record Arrays : Type 0 where
  pub range : ℕ → List ℕ
  pub max : List ℕ → ℕ

-- One drawing of the line: the time, the upper end of the vertical axis, the counts from the left, and the colour, which is
-- blue or red.
pub record Frame : Type 0 where
  pub now : ℕ
  pub top : ℕ
  pub line : List ℕ
  pub blue : Bool

-- The variables that change, with the array `data` as `counts`, the text of the element countTotal if it was set, and the drawings so far.
pub record Counter : Type 0 where
  pub color_change : Bool
  pub total : ℕ
  pub count : ℕ
  pub counts : List ℕ
  pub shown : Option ℕ
  pub frames : List Frame

abbrev pub points : ℕ
points = 243

unfoldable pub new_counter : Arrays → Counter
new_counter d3 = record {
  color_change = true;
  total = 1;
  count = 0;
  counts = map (λ i. 0) (d3.range points);
  shown = none;
  frames = [];
}

-- `Math.min(100, count)`.
abbrev pub capped : ℕ → ℕ
capped count = if leb count 100 then count else 100

-- `tick` at a time. The end of the line's transition calls it again.
unfoldable pub tick : Arrays → ℕ → Counter → Counter
tick d3 now c =
    let pushed = c.counts ++ capped c.count ∷ [] in
    record c {
      count = 0;
      counts = drop 1 pushed;
      frames =
          c.frames
          ++ record { now = now; top = d3.max c.counts; line = pushed; blue = c.color_change } ∷ [];
    }

-- The handler of 'data'.
unfoldable pub on_data : Counter → Counter
on_data c = record c { shown = some c.total; total = suc c.total; count = suc c.count }

-- The handler of 'reset'.
unfoldable pub on_reset : Counter → Counter
on_reset c = record c { count = 0; total = 0; color_change = not c.color_change; shown = some 0 }

pub data Step : Type 0 where
  ticks : ℕ → Step
  receives resets : Step

unfoldable pub step : Arrays → Counter → Step → Counter
unfolding tick on_data on_reset
step d3 c (ticks now) = tick d3 now c
step d3 c receives = on_data c
step d3 c resets = on_reset c

unfoldable pub run : Arrays → Counter → List Step → Counter
run d3 c [] = c
run d3 c (s ∷ steps) = run d3 (step d3 c s) steps

-- The page when it is loaded: the first tick is made at once.
unfoldable pub start : Arrays → ℕ → Counter
unfolding tick new_counter
start d3 now = tick d3 now (new_counter d3)
