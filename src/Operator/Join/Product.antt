-- ===== src/Operator/Join/Product.antt =====
-- A join hands out each tuple of the left child with each tuple of a round of the right one.
use miniob_basic.Base.{
  ℕ, ◌≡◌, refl, sym, ap, subst, ◌∙◌, Bool, true, false, some, List, [], ◌∷◌, ◌++◌, map,
}
use miniob_basic.Rc.{success, record_eof}
use miniob_basic.Operator.Tuple.{Tuple, joined_tuple}
use miniob_basic.Operator.Stream.{
  PhysicalOperator, ◌>>=◌, Closes, Yields, finished, yielded, Produces,
}
use miniob_basic.Operator.Join.{next_round, join_next, after_right, join_tuple}
use miniob_basic.Operator.Join.Steps.{
  Join, FreshSide, RoundSide, op, JoinClosed, fresh_closes, round_closes, Closes-join, left_end,
  left_row, next-done, next-inside,
}
use miniob_basic.Operator.Join.Round.{
  Side, fresh_cached, fresh_closed, fresh_ended, round_cached, round_child, Gives, gives_end,
  gives_tuple, Fresh-Gives, round-Gives,
}

-- Every tuple of the first list with every tuple of the second.
abbrev pub product : {V : Type 0} → List (Tuple V) → List (Tuple V) → List (Tuple V)
product [] rs = []
product (l ∷ ls) rs = map (joined_tuple l) rs ++ product ls rs

product-nil : {V : Type 0} (ls : List (Tuple V)) → product ls [] ≡ []
product-nil [] = refl
product-nil (l ∷ ls) = product-nil ls

module _ {V : Type 0} (left right : PhysicalOperator (Tuple V)) (is_table_scan : Bool)
    (table_name : List ℕ) (field_name : ℕ → List ℕ) (LeftClosed : left.State → Type 0)
    (RightClosed : right.State → Type 0) (rs out : List (Tuple V))
    (p : Produces right RightClosed rs) (fuel : ℕ) where
  abbrev pub Joined : Type 0
  Joined = Join left right is_table_scan table_name field_name LeftClosed RightClosed rs

  abbrev pub Yield : Joined → List (Tuple V) → Type 0
  Yield =
      Yields (op left right is_table_scan table_name field_name LeftClosed RightClosed rs fuel)
        (JoinClosed left right is_table_scan table_name field_name LeftClosed RightClosed rs)

  -- Inside a round, behind the left tuple `l`: what is left of the round and what follows it.
  abbrev Inside : Tuple V → List (Tuple V) → Type 0
  Inside l ls =
      (ts : List (Tuple V)) (j : Joined)
      → RoundSide left right is_table_scan table_name field_name LeftClosed RightClosed rs
          j.right_side out ts
      → j.left_tuple ≡ some l
      → Closes left LeftClosed j.left_state
      → Yields left LeftClosed j.left_state ls
      → Yield j (map (joined_tuple l) ts ++ product ls out)

  abbrev InsideFirst : List (Tuple V) → Type 0
  InsideFirst [] = Unit
  InsideFirst (l ∷ ls) = Inside l ls

  both :
      (j : Joined) (l t : Tuple V)
      → j.left_tuple ≡ some l
      → j.right_side.right_tuple ≡ some t
      → join_tuple left right is_table_scan table_name field_name j ≡ some (joined_tuple l t)
  unfolding join_tuple
  both j l t h h' =
      ap (λ m. m >>= λ a. j.right_side.right_tuple >>= λ b. some (joined_tuple a b)) h
      ∙ ap (λ m. m >>= λ b. some (joined_tuple l b)) h'

  -- A call of `next` that goes on as behind a round that is done.
  begin :
      (ls : List (Tuple V)) (j j0 : Joined)
      → join_next left right is_table_scan table_name field_name j0
        ≡ next_round left right is_table_scan table_name field_name j
      → FreshSide left right is_table_scan table_name field_name LeftClosed RightClosed rs
          j.right_side out
      → Yields left LeftClosed j.left_state ls
      → InsideFirst ls
      → Yield j0 (product ls out)
  begin [] j j0 q f (finished s e k) ih =
      finished record j { left_state = s }
        (q
          ∙ left_end left right is_table_scan table_name field_name LeftClosed RightClosed rs j s e)
        (Closes-join left right is_table_scan table_name field_name LeftClosed RightClosed rs fuel
          record j { left_state = s } k
          (fresh_closes left right is_table_scan table_name field_name LeftClosed RightClosed rs
            j.right_side out f))
  begin (l ∷ ls) j j0 q f (yielded s e h k y) ih =
      row out
        (Fresh-Gives left right is_table_scan table_name field_name RightClosed rs j.right_side out
          p f)
        refl
    where
      row :
          (ts : List (Tuple V))
          → Gives left right is_table_scan table_name field_name RightClosed rs j.right_side out ts
          → out ≡ ts
          → Yield j0 (product (l ∷ ls) out)
      row [] (gives_end r e' f') g =
          let j' : Joined = record j {
            left_state = s;
            left_tuple = left.current_tuple s;
            right_side = r;
          } in
          subst (λ o. Yield j0 (product (l ∷ ls) o)) (sym g)
            (subst (Yield j0) (sym (product-nil (l ∷ ls))) (
              finished j'
                (q
                  ∙ left_row left right is_table_scan table_name field_name LeftClosed RightClosed
                      rs j s record_eof r e e')
                (Closes-join left right is_table_scan table_name field_name LeftClosed RightClosed
                  rs fuel j' k
                  (fresh_closes left right is_table_scan table_name field_name LeftClosed
                    RightClosed rs r out f'))))
      row (t ∷ ts) (gives_tuple r e' h' i) g =
          let j' : Joined = record j {
            left_state = s;
            left_tuple = left.current_tuple s;
            right_side = r;
          } in
          subst (λ o. Yield j0 (map (joined_tuple l) o ++ product ls out)) (sym g)
            (yielded j'
              (q
                ∙ left_row left right is_table_scan table_name field_name LeftClosed RightClosed rs
                    j s success r e e')
              (both j' l t h h')
              (Closes-join left right is_table_scan table_name field_name LeftClosed RightClosed rs
                fuel j' k
                (round_closes left right is_table_scan table_name field_name LeftClosed RightClosed
                  rs r out ts i))
              (ih ts j' i h k y))

  round_not_done :
      (r : Side left right is_table_scan table_name field_name RightClosed rs) (ts : List (Tuple V))
      → RoundSide left right is_table_scan table_name field_name LeftClosed RightClosed rs r out ts
      → r.round_done ≡ false
  round_not_done r ts (round_cached c d k e q) = d
  round_not_done r ts (round_child c d f k y e) = d

  inside : (l : Tuple V) (ls : List (Tuple V)) → InsideFirst ls → Inside l ls
  unfolding after_right
  inside l ls ih [] j i h k y =
      elim (round-Gives left right is_table_scan table_name field_name RightClosed rs j.right_side
        out [] i) [
          | gives_end r e f ↦
              begin ls record j { right_side = r } j
                (next-inside left right is_table_scan table_name field_name LeftClosed RightClosed
                  rs j (record_eof, r) (round_not_done j.right_side [] i) e)
                f y ih
        ]
  inside l ls ih (t ∷ ts) j i h k y =
      elim (round-Gives left right is_table_scan table_name field_name RightClosed rs j.right_side
        out (t ∷ ts) i) [
          | gives_tuple r e h' i' ↦
              let j' : Joined = record j { right_side = r } in
              yielded j'
                (next-inside left right is_table_scan table_name field_name LeftClosed RightClosed
                  rs j (success, r) (round_not_done j.right_side (t ∷ ts) i) e)
                (both j' l t h h')
                (Closes-join left right is_table_scan table_name field_name LeftClosed RightClosed
                  rs fuel j' k
                  (round_closes left right is_table_scan table_name field_name LeftClosed
                    RightClosed rs r out ts i'))
                (inside l ls ih ts j' i' h k y)
        ]

  inside_all : (ls : List (Tuple V)) → InsideFirst ls
  inside_all [] = tt
  inside_all (l ∷ ls) = inside l ls (inside_all ls)

  -- A join that is open hands out the product of what the left child still yields and a round.
  pub Yields-product :
      (ls : List (Tuple V)) (j : Joined)
      → FreshSide left right is_table_scan table_name field_name LeftClosed RightClosed rs
          j.right_side out
      → Yields left LeftClosed j.left_state ls
      → Yield j (product ls out)
  Yields-product ls j f y =
      begin ls j j
        (next-done left right is_table_scan table_name field_name LeftClosed RightClosed rs j
          (fresh_done j.right_side f))
        f y (inside_all ls)
    where
      fresh_done :
          (r : Side left right is_table_scan table_name field_name RightClosed rs)
          → FreshSide left right is_table_scan table_name field_name LeftClosed RightClosed rs r out
          → r.round_done ≡ true
      fresh_done r (fresh_cached c d k e) = d
      fresh_done r (fresh_closed c d f k e) = d
      fresh_done r (fresh_ended c d f k e) = d
