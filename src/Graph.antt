-- ===== src/Graph.antt =====
-- The page that draws how many events arrive: samples/d3/src/main/webapp/graph/graph-ic.js.
pub mod Counter
pub mod Window
pub mod Total
