-- ===== src/Tests/Querying.antt =====
-- Query strings.
use socket_io_java.Common.{none, some, ◌≡◌, refl, [], ◌∷◌, codes, lookup, insert, text_eq, nat_eq}
use socket_io_java.Util.Query.{Params, query}

abbrev time_query : Params
time_query = (codes "a", some (codes "2")) ∷ (codes "t", some (codes "1")) ∷ []

abbrev own_query : Params
own_query = (codes "a", some (codes "1")) ∷ []

time_query_text :
    query (some (codes "a=1&&b")) (some (codes "t=1=2&a=3")) ≡ codes "?a=3&b=undefined&t=1"
unfolding query lookup insert
time_query_text = refl

lost_text : query none (some (codes "b=c&c=5")) ≡ codes "?b=c"
unfolding query
lost_text = refl
