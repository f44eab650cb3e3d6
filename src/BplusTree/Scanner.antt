-- ===== src/BplusTree/Scanner.antt =====
-- bplus_tree.cpp: BplusTreeScanner, which goes along the leaves from the first key of a range to its
-- last.
pub mod Fix
pub mod Step
pub mod Next
mod Tests
pub mod Retry
pub mod Collect
use miniob_basic.Base.{
  ℕ, zero, suc, ◌+◌, ◌-◌, Bool, true, false, not, ◌||◌, Option, none, some, List, [], ◌∷◌, ◌==◌,
  ltb, leb, if◌then◌else◌,
}
use miniob_basic.Base.Int.{ℤ}
use miniob_basic.Rc.{
  Rc, Run, success, empty, invalid_argument, record_eof, locked_need_wait, is_success,
}
use miniob_basic.LowerBound.{Sign, below, equal, above, sign}
use miniob_basic.BplusTree.Block.{Block, item_at}
use miniob_basic.BplusTree.Node.{
  leaf, internal, LeafIndexNode, InternalIndexNode, IndexNode, lookup_leaf,
}
use miniob_basic.BplusTree.Tree.{
  Handler, BplusTree, Result, Op, ok, failed, ◌>>=◌, ◌>>◌, pure, fail, read_leaf, find_leaf,
  left_most_page,
}
use miniob_basic.BplusTree.Tree.Insert.{asserted, key_at}

-- `current_frame_` is the page of a leaf.
pub record BplusTreeScanner {ℓ} (K : Type ℓ) : Type ℓ where
  pub inited : Bool
  pub current : Option ℕ
  pub right_key : Option K
  pub iter_index : ℕ
  pub first_emitted : Bool

abbrev pub is_above : Sign → Bool
is_above below = false
is_above equal = false
is_above above = true

module _ {ℓ κ μ} {K : Type ℓ} {R : Type κ} {P : Type μ} (h : Handler K R P) where
  abbrev pub is_past : Option K → Run K → Run Bool
  is_past none this_key = some false
  is_past (some right) none = none
  is_past (some right) (some this_key) = some (is_above (sign (h.key_comparator this_key right)))

  abbrev pub touch_end : BplusTreeScanner K → LeafIndexNode K R → Run Bool
  touch_end s node = is_past s.right_key (key_at node.block s.iter_index)

  abbrev pub fetch_item : BplusTreeScanner K → LeafIndexNode K R → Run R
  fetch_item s node = elim (item_at node.block s.iter_index) [
    | none ↦ none
    | some item ↦ some item.1
  ]

  -- `LatchMemo::get_page`, with its code as the result.
  abbrev pub page_code : ℕ → Op (BplusTree K R P) Rc
  page_code p t =
      let (rc, s) = h.disk_buffer_pool.get_page t.pages p in some (ok rc, record t { pages = s })

  -- At an item: the end of the range, or the item.
  abbrev pub emit :
      BplusTreeScanner K
      → LeafIndexNode K R
      → Bool
      → Op (BplusTree K R P) (Rc × Option R × BplusTreeScanner K)
  emit here node true = pure (record_eof, none, here)
  emit here node false = do rid ← asserted (fetch_item here node); pure (success, some rid, here)

  -- Behind the items of a leaf, with its next page. `next` goes on there.
  abbrev pub next_leaf :
      (try_slatch : ℕ → Bool)
      → (next : ℕ → Op (BplusTree K R P) (Rc × Option R × BplusTreeScanner K)) → BplusTreeScanner K
      → Option ℕ
      → Op (BplusTree K R P) (Rc × Option R × BplusTreeScanner K)
  next_leaf try_slatch next here none = pure (record_eof, none, here)
  next_leaf try_slatch next here (some next_page) = do
    rc ← page_code next_page
    if not (is_success rc)
        then pure (rc, none, record here { current = none })
        else if try_slatch next_page
        then next next_page
        else pure (locked_need_wait, none, record here { current = some next_page })

  abbrev pub next_in_leaf :
      (try_slatch : ℕ → Bool)
      → (next : ℕ → Op (BplusTree K R P) (Rc × Option R × BplusTreeScanner K)) → BplusTreeScanner K
      → LeafIndexNode K R
      → (inside : Bool) → Op (BplusTree K R P) (Rc × Option R × BplusTreeScanner K)
  next_in_leaf try_slatch next here node true = do
    at_end ← asserted (touch_end here node)
    emit here node at_end
  next_in_leaf try_slatch next here node false = next_leaf try_slatch next here node.next_brother

  -- From the item at an index of a leaf on. `try_slatch` tells which pages can be latched at once;
  -- the fuel is for the leaves that are passed.
  unfoldable pub next_from :
      ℕ
      → (try_slatch : ℕ → Bool) → BplusTreeScanner K
      → ℕ
      → ℕ
      → Op (BplusTree K R P) (Rc × Option R × BplusTreeScanner K)
  next_from zero try_slatch s page index = λ t. none
  next_from (suc fuel) try_slatch s page index =
      let next = λ (p : ℕ). next_from fuel try_slatch s p 0 in
      read_leaf page >>= λ node.
      next_in_leaf try_slatch next (record s { current = some page; iter_index = index }) node
        (ltb index node.block.size)

  -- With the page and `first_emitted` of the scanner.
  abbrev pub entry_from :
      ℕ
      → (try_slatch : ℕ → Bool) → BplusTreeScanner K
      → Option ℕ
      → Bool
      → Op (BplusTree K R P) (Rc × Option R × BplusTreeScanner K)
  entry_from fuel try_slatch s none emitted = pure (record_eof, none, s)
  entry_from fuel try_slatch s (some page) true =
      next_from fuel try_slatch s page (s.iter_index + 1)
  entry_from fuel try_slatch s (some page) false = do
    node ← read_leaf page
    rid ← asserted (fetch_item s node)
    pure (success, some rid, record s { first_emitted = true })

  unfoldable pub next_entry :
      ℕ
      → (try_slatch : ℕ → Bool) → BplusTreeScanner K
      → Op (BplusTree K R P) (Rc × Option R × BplusTreeScanner K)
  next_entry fuel try_slatch s = entry_from fuel try_slatch s s.current s.first_emitted

  -- Behind a call of `next_entry`; `more` is the rest of the loop.
  abbrev pub collected :
      (more : BplusTreeScanner K → Op (BplusTree K R P) (Rc × List R))
      → Rc × Option R × BplusTreeScanner K
      → Op (BplusTree K R P) (Rc × List R)
  collected more (rc, none, s) = pure (rc, [])
  collected more (rc, some rid, s) = more s >>= λ rest. pure (rest.0, rid ∷ rest.1)

  -- The loop of `get_entry`, with fuel for the entries.
  unfoldable pub collect :
      ℕ → ℕ → (try_slatch : ℕ → Bool) → BplusTreeScanner K → Op (BplusTree K R P) (Rc × List R)
  collect zero fuel try_slatch s = λ t. none
  collect (suc rounds) fuel try_slatch s =
      next_entry fuel try_slatch s >>= collected (collect rounds fuel try_slatch)

-- The result of an operation, where its code is looked at.
abbrev pub tried {ℓ κ} : {S : Type ℓ} {A : Type κ} → Op S A → Op S (Result A)
tried m t = elim (m t) [ none ↦ none | some (r, t') ↦ some (ok r, t') ]

-- `EMPTY` means that there is nothing to scan.
abbrev pub none_of_empty {ℓ} : {A : Type ℓ} → Rc → Result (Option A)
none_of_empty empty = ok none
none_of_empty rc = failed rc

-- `fixed` is `fix_user_key` for an attribute of characters, and gives the key as it is for others.
module _ {ℓ κ μ} {U : Type ℓ} {R : Type κ} {P : Type μ} (h : Handler (U × R) R P)
    (attr_comparator : U → U → ℤ) (min_rid max_rid : R)
    (fixed : U → (want_greater : Bool) → Result (U × Bool)) where
  -- Whether the bounds of a range are in the wrong order.
  abbrev pub is_invalid_range : Option U → Bool → Option U → Bool → Bool
  is_invalid_range none left_inclusive right right_inclusive = false
  is_invalid_range (some left) left_inclusive none right_inclusive = false
  is_invalid_range (some left) left_inclusive (some right) right_inclusive =
      elim (sign (attr_comparator left right)) [
        | below ↦ false
        | equal ↦ not left_inclusive || not right_inclusive
        | above ↦ true
      ]

  -- The place of a key in its leaf, or the start of the next leaf.
  abbrev pub place_of_left : U × R → ℕ → Op (BplusTree (U × R) R P) (Result (Option (ℕ × ℕ)))
  place_of_left left_key page = do
    node ← read_leaf page
    let left_index = (lookup_leaf h.key_comparator node.block left_key).0
    if ltb left_index node.block.size
        then pure (ok (some (page, left_index)))
        else elim node.next_brother [
          | none ↦ pure (ok none)
          | some next_page ↦ do
            rc ← page_code h next_page
            pure (if is_success rc then ok (some (next_page, 0)) else failed rc)
        ]

  -- The page and the place where the scan starts, if there is one.
  unfoldable pub open_left :
      ℕ → Option U → Bool → Op (BplusTree (U × R) R P) (Result (Option (ℕ × ℕ)))
  open_left fuel none left_inclusive = do
    r ← tried (left_most_page h fuel)
    elim r [ ok page ↦ pure (ok (some (page, 0))) | failed rc ↦ pure (failed rc) ]
  open_left fuel (some left) left_inclusive = elim (fixed left true) [
    | failed rc ↦ pure (failed rc)
    | ok (key, inclusive) ↦ do
      let left_key : U × R = (key, if left_inclusive || inclusive then min_rid else max_rid)
      r ← tried (find_leaf h fuel left_key)
      elim r [ ok page ↦ place_of_left left_key page | failed rc ↦ pure (none_of_empty rc) ]
  ]

  unfoldable pub open_right : Option U → Bool → Result (Option (U × R))
  open_right none right_inclusive = ok none
  open_right (some right) right_inclusive = elim (fixed right false) [
    | failed rc ↦ failed rc
    | ok (key, inclusive) ↦
        ok (some (key, if right_inclusive || inclusive then max_rid else min_rid))
  ]

  unfoldable pub open_scanner :
      ℕ
      → Option U
      → Bool
      → Option U
      → Bool
      → BplusTreeScanner (U × R)
      → Op (BplusTree (U × R) R P) (Rc × BplusTreeScanner (U × R))
  open_scanner fuel left left_inclusive right right_inclusive s =
      if s.inited then pure (Rc.internal, s) else do
        let s' = record s { inited = true; first_emitted = false }
        if is_invalid_range left left_inclusive right right_inclusive
            then pure (invalid_argument, s')
            else do
              r ← open_left fuel left left_inclusive
              elim r [
                | failed rc ↦ pure (rc, s')
                | ok start ↦ elim start [
                  | none ↦ pure (success, record s' { current = none })
                  | some (page, index) ↦
                      let there = record s' { current = some page; iter_index = index } in
                      elim (open_right right right_inclusive) [
                        | failed rc ↦ pure (rc, there)
                        | ok right_key ↦ do
                          let bounded = record there { right_key = right_key }
                          node ← read_leaf page
                          at_end ← asserted (touch_end h bounded node)
                          pure (
                            success,
                            if at_end then record bounded { current = none } else bounded,
                          )
                      ]
                ]
              ]

  abbrev pub success_of_eof : Rc → Rc
  success_of_eof record_eof = success
  success_of_eof rc = rc

  -- A new scanner that goes over the entries of one key.
  unfoldable pub get_entry :
      (rounds fuel : ℕ) → (try_slatch : ℕ → Bool) → U → Op (BplusTree (U × R) R P) (Rc × List R)
  get_entry rounds fuel try_slatch user_key = do
    r ← open_scanner fuel (some user_key) true (some user_key) true record {
      inited = false;
      current = none;
      right_key = none;
      iter_index = 0;
      first_emitted = false;
    }
    if not (is_success r.0) then pure (r.0, []) else do
      entries ← collect h rounds fuel try_slatch r.1
      pure (success_of_eof entries.0, entries.1)
