-- ===== src/Util/Address/Paths.antt =====
-- The path and the query of an address under the expression of parseUri.
use mathlib.Core.Path.{subst}
use socket_io_java.Common.{
  ℕ, Bool, true, false, Option, none, some, ◌≡◌, refl, sym, ap, ◌∙◌, arith, Text, [], ◌∷◌, ◌++◌,
  codes, eqb, InClass, Stops, append-nil,
}
use socket_io_java.Regex.{
  Regex, one, many, then_, either, maybe, group, finish, Groups, Rest, ends, is_none, match, star,
  plus,
}
use socket_io_java.Regex.Laws.{
  repeat-through, star-through, group-through, optional-through, optional-skip_one, star-none,
  Passes,
}
use socket_io_java.Util.Address.{
  among, none_of, char, extension, path_part, query_part, anchor_part, relative,
}

abbrev pub query_text : Option Text → Text
query_text none = []
query_text (some t) = b'?' ∷ t

abbrev pub query_groups : Option Text → Groups → Groups
query_groups none c = c
query_groups (some t) c = (12, t) ∷ c

abbrev pub IsQuery : Option Text → Type 0
IsQuery none = Unit {0}
IsQuery (some t) = InClass (none_of (codes "#")) t

abbrev pub path_text : Option Text → Text
path_text none = []
path_text (some t) = b'/' ∷ t

abbrev pub path_groups : Option Text → Groups → Groups
path_groups none c = (11, []) ∷ c
path_groups (some t) c = (11, []) ∷ (10, b'/' ∷ t) ∷ c

abbrev pub IsPath : Option Text → Type 0
IsPath none = Unit {0}
IsPath (some t) = InClass (none_of (codes "?#.")) t

query-Stops : (p : ℕ → Bool) (q : Option Text) → p b'?' ≡ false → Stops p (query_text q)
query-Stops p none h = tt
query-Stops p (some t) h = h

query-through :
    (k : Rest) (c : Groups) (q : Option Text) (d : Groups)
    → IsQuery q
    → k (query_groups q c) [] ≡ some d
    → match (then_ query_part anchor_part) k c (query_text q) ≡ some d
unfolding match
query-through k c none d h e = e
query-through k c (some t) d h e =
    subst (λ v. match (then_ query_part anchor_part) k c (b'?' ∷ v) ≡ some d) (append-nil t)
      (optional-through (then_ (char b'?') (group 12 (star (none_of (codes "#")))))
        (match anchor_part k) c ((12, t) ∷ c) b'?' t [] d
        (λ l.
          group-through (star (none_of (codes "#"))) 12 l c c t [] (some d)
            (λ m. star-through (none_of (codes "#")) m c t [] d h tt))
        e)

file-through :
    (k : Rest) (c : Groups) (q : Option Text) (d : Groups)
    → k ((11, []) ∷ c) (query_text q) ≡ some d
    → match (group 11 (star (none_of (codes "?#/")))) k c (query_text q) ≡ some d
file-through k c q d e =
    group-through (star (none_of (codes "?#/"))) 11 k c c [] (query_text q) (some d)
      (λ l.
        star-through (none_of (codes "?#/")) l c [] (query_text q) d tt
          (query-Stops (none_of (codes "?#/")) q refl))
      e

abbrev name_end : Regex
name_end = then_ (plus (none_of (codes "?#/."))) (either (one (among (codes "?#"))) finish)

abbrev directory : Regex
directory = then_ (char b'/') (then_ (many (none_of (codes "?#")) extension) (maybe (char b'/')))

-- A path without a dot has no extension anywhere.
extension-none :
    (c : Groups) (t : Text) (q : Option Text)
    → InClass (none_of (codes "?#.")) t
    → match extension ends c (t ++ query_text q) ≡ none
unfolding match
extension-none c t q h =
    star-none (none_of (codes "?#/")) (none_of (codes "?#."))
      (match (then_ (char b'.') name_end) ends) c t (query_text q) h no_dot
      (query-Stops (none_of (codes "?#/")) q refl) (behind q)
  where
    no_dot :
        (x : ℕ) (v : Text)
        → none_of (codes "?#.") x ≡ true
        → match (then_ (char b'.') name_end) ends c (x ∷ v) ≡ none
    no_dot x v i = ground arith

    behind : (q : Option Text) → match (then_ (char b'.') name_end) ends c (query_text q) ≡ none
    behind none = refl
    behind (some t) = refl

path-Passes :
    (c : Groups) (t : Text) (q : Option Text)
    → InClass (none_of (codes "?#.")) t
    → Passes (none_of (codes "?#")) (λ v. is_none (match extension ends c v)) t (query_text q)
path-Passes c [] q h = tt
path-Passes c (x ∷ t) q h =
    (ground (arith, h.0), ap is_none (extension-none c t q h.1), path-Passes c t q h.1)

directory-through :
    (k : Rest) (c : Groups) (t : Text) (q : Option Text) (d : Groups)
    → InClass (none_of (codes "?#.")) t
    → k c (query_text q) ≡ some d
    → match directory k c (b'/' ∷ (t ++ query_text q)) ≡ some d
unfolding match
directory-through k c t q d h e =
    repeat-through (none_of (codes "?#")) (λ v. is_none (match extension ends c v))
      (match (maybe (char b'/')) k) c t (query_text q) d (path-Passes c t q h)
      (query-Stops (none_of (codes "?#")) q refl)
      (optional-skip_one (λ x. eqb x b'/') k c (query_text q) (query-Stops (λ x. eqb x b'/') q refl)
        ∙ e)

abbrev file_part : Regex
file_part = group 11 (star (none_of (codes "?#/")))

no_directory :
    (k : Rest) (c : Groups) (q : Option Text)
    → match (maybe (group 10 directory)) k c (query_text q) ≡ k c (query_text q)
unfolding match
no_directory k c none = refl
no_directory k c (some t) = refl

path_inside :
    (l : Rest) (c : Groups) (o q : Option Text) (d : Groups)
    → IsPath o
    → l (path_groups o c) (query_text q) ≡ some d
    → match (then_ (maybe (group 10 directory)) file_part) l c (path_text o ++ query_text q)
      ≡ some d
unfolding match
path_inside l c none q d h f = no_directory (match file_part l) c q ∙ file-through l c q d f
path_inside l c (some t) q d h f =
    optional-through (group 10 directory) (match file_part l) c ((10, b'/' ∷ t) ∷ c) b'/' t
      (query_text q) d
      (λ m.
        group-through directory 10 m c c (b'/' ∷ t) (query_text q) (some d)
          (λ n. directory-through n c t q d h))
      (file-through l ((10, b'/' ∷ t) ∷ c) q d f)

path-through :
    (k : Rest) (c : Groups) (o q : Option Text) (d : Groups)
    → IsPath o
    → k ((9, path_text o) ∷ path_groups o c) (query_text q) ≡ some d
    → match path_part k c (path_text o ++ query_text q) ≡ some d
path-through k c o q d h e =
    group-through (then_ (maybe (group 10 directory)) file_part) 9 k c (path_groups o c)
      (path_text o) (query_text q) (some d) (λ l. path_inside l c o q d h) e

pub relative-through :
    (k : Rest) (c : Groups) (o q : Option Text) (d : Groups)
    → IsPath o
    → IsQuery q
    → k ((8, path_text o ++ query_text q) ∷ query_groups q ((9, path_text o) ∷ path_groups o c)) []
      ≡ some d
    → match relative k c (path_text o ++ query_text q) ≡ some d
unfolding match
relative-through k c o q d h hq e =
    subst (λ v. match relative k c v ≡ some d) whole
      (group-through (then_ path_part (then_ query_part anchor_part)) 8 k c
        (query_groups q ((9, path_text o) ∷ path_groups o c)) (path_text o ++ query_text q) []
        (some d)
        (λ l f.
          subst (λ v. match (then_ path_part (then_ query_part anchor_part)) l c v ≡ some d)
            (sym whole)
            (path-through (match (then_ query_part anchor_part) l) c o q d h
              (query-through l ((9, path_text o) ∷ path_groups o c) q d hq f)))
        e)
  where
    whole : (path_text o ++ query_text q) ++ [] ≡ path_text o ++ query_text q
    whole = append-nil (path_text o ++ query_text q)
