-- ===== src/Parser/Expression/Captures.antt =====
-- The pieces of a packet of decodePacket, from the groups that took part.
use socket_io_java.Common.{
  ℕ, true, false, none, ◌≡◌, refl, ap, ◌∙◌, Text, [], ◌∷◌, eqb, text_eq, inl, inr, Bool-cases,
}
use socket_io_java.Regex.{Groups, text_of, group_of}
use socket_io_java.Regex.Runs.{with_group}
use socket_io_java.Parser.Decode.{starts_with}
use socket_io_java.Parser.Expression.{is_there, pieces_of}
use socket_io_java.Parser.Expression.Parts.{with_plus}

other_text :
    (n m : ℕ) (t : Text) (c : Groups) → eqb m n ≡ false → text_of n (with_group m t c) ≡ text_of n c
other_text n m [] c h = refl
other_text n m (x ∷ t) c h = rw h refl

own_text :
    (n : ℕ) (t : Text) (c : Groups)
    → eqb n n ≡ true
    → text_of n c ≡ []
    → text_of n (with_group n t c) ≡ t
own_text n [] c h e = e
own_text n (x ∷ t) c h e = rw h refl

plus_text :
    (n : ℕ) (s : Text) (c : Groups) → eqb 3 n ≡ false → text_of n (with_plus s c) ≡ text_of n c
plus_text n [] c h = refl
plus_text n (x ∷ s) c h =
    elim (Bool-cases (eqb x b'+')) as (λ _. text_of n (with_plus (x ∷ s) c) ≡ text_of n c) [
      | inl e ↦ rw e (rw h refl)
      | inr e ↦ rw e refl
    ]

other_group :
    (n m : ℕ) (t : Text) (c : Groups)
    → eqb m n ≡ false
    → group_of n (with_group m t c) ≡ group_of n c
other_group n m [] c h = refl
other_group n m (x ∷ t) c h = rw h refl

plus_group :
    (s : Text) (c : Groups)
    → group_of 3 c ≡ none
    → is_there (group_of 3 (with_plus s c)) ≡ starts_with b'+' s
plus_group [] c h = ap is_there h
plus_group (x ∷ s) c h =
    elim (Bool-cases (eqb x b'+'))
      as (λ _. is_there (group_of 3 (with_plus (x ∷ s) c)) ≡ starts_with b'+' (x ∷ s)) [
        | inl e ↦ rw e refl
        | inr e ↦ rw e (ap is_there h)
      ]

-- The packet's pieces, from the groups in the order they were set.
module _ (g n i s e r : Text) where
  abbrev with_id : Groups
  with_id = with_group 2 i ((1, n) ∷ [])

  abbrev with_sign : Groups
  with_sign = with_plus s with_id

  abbrev with_endpoint : Groups
  with_endpoint = with_group 4 e with_sign

  abbrev with_rest : Groups
  with_rest = (0, g) ∷ with_group 5 r with_endpoint

  number_lem : text_of 1 with_rest ≡ n
  number_lem =
      other_text 1 5 r with_endpoint refl
      ∙ other_text 1 4 e with_sign refl
      ∙ plus_text 1 s with_id refl
      ∙ other_text 1 2 i _ refl

  id_text_lem : text_of 2 with_rest ≡ i
  id_text_lem =
      other_text 2 5 r with_endpoint refl
      ∙ other_text 2 4 e with_sign refl
      ∙ plus_text 2 s with_id refl
      ∙ own_text 2 i _ refl refl

  sign_lem : is_there (group_of 3 with_rest) ≡ starts_with b'+' s
  sign_lem =
      ap is_there (other_group 3 5 r with_endpoint refl ∙ other_group 3 4 e with_sign refl)
      ∙ plus_group s with_id (other_group 3 2 i _ refl)

  endpoint_lem : text_of 4 with_rest ≡ e
  endpoint_lem =
      other_text 4 5 r with_endpoint refl
      ∙ own_text 4 e with_sign refl (plus_text 4 s with_id refl ∙ other_text 4 2 i _ refl)

  rest_text_lem : text_of 5 with_rest ≡ r
  rest_text_lem =
      own_text 5 r with_endpoint refl
        (other_text 5 4 e with_sign refl ∙ plus_text 5 s with_id refl ∙ other_text 5 2 i _ refl)

  pub pieces-groups :
      pieces_of with_rest
      ≡ record { number = n; id = i; plus = starts_with b'+' s; endpoint = e; rest = r }
  pieces-groups =
      rw number_lem (rw id_text_lem (rw sign_lem (rw endpoint_lem (rw rest_text_lem refl))))
