-- ===== src/Tests/Searching.antt =====
-- The array utilities at concrete arrays.
use socket_io_java.Common.{ℕ, ◌≡◌, refl, List, [], ◌∷◌, some, length, nat_eq}
use socket_io_java.Util.Indexing.{negsuc, index_of, first_index, IsFirst, index_of-IsFirst}
use socket_io_java.Util.Intersect.{intersect}

abbrev digits : List ℕ
digits = 4 ∷ 7 ∷ 4 ∷ 9 ∷ []

digits_found :
    IsFirst digits 4
      (first_index (length digits) (some (negsuc 2)))
      (index_of digits 4 (some (negsuc 2)))
digits_found = index_of-IsFirst digits 4 (some (negsuc 2))

index_of_from_end : index_of digits 4 (some (negsuc 2)) ≡ some 2
unfolding index_of
index_of_from_end = refl

intersect_order : intersect digits (9 ∷ 7 ∷ []) ≡ 9 ∷ 7 ∷ []
unfolding intersect index_of
intersect_order = refl
