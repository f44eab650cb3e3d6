-- ===== src/BplusTree/Block.antt =====
-- bplus_tree.cpp, what LeafIndexNodeHandler and InternalIndexNodeHandler do with their items, which
-- lie in a row from the start of a page. `none` is a run that an `assert` stops or that goes to an
-- item that is not there.
pub mod Laws
pub mod Moves
use miniob_basic.Base.{
  ℕ, zero, suc, ◌+◌, ◌-◌, ◌/◌, Bool, true, false, not, Option, none, some, ltb, ◌==◌, if◌then◌else◌,
}
use miniob_basic.Rc.{Run}
use miniob_basic.BplusTree.Array.{memcpy, write}

-- `key_num` and `array`
pub record Block {ℓ} (A : Type ℓ) : Type ℓ where
  pub size : ℕ
  pub array : ℕ → A

module _ {ℓ} {A : Type ℓ} where
  unfoldable pub item_at : Block A → ℕ → Run A
  item_at b index = if ltb index b.size then some (b.array index) else none

  unfoldable pub insert_at : Block A → ℕ → A → Block A
  insert_at b index item =
      let moved =
        if ltb index b.size
        then memcpy b.array (index + 1) b.array index (b.size - index)
        else b.array in
      record { size = b.size + 1; array = write moved index item }

  unfoldable pub remove_at : Block A → ℕ → Run (Block A)
  remove_at b index =
      if not (ltb index b.size)
      then none
      else some record {
        size = b.size - 1;
        array =
            if ltb index (b.size - 1)
            then memcpy b.array index b.array (index + 1) (b.size - index - 1)
            else b.array;
      }

  unfoldable pub append : Block A → A → Block A
  append b item = record { size = b.size + 1; array = write b.array b.size item }

  unfoldable pub preappend : Block A → A → Block A
  preappend b item =
      let moved = if ltb 0 b.size then memcpy b.array 1 b.array 0 b.size else b.array in
      record { size = b.size + 1; array = write moved 0 item }

  -- `copy_from`, and the `memcpy` of `move_to`: `num` items of another node from `start` on.
  unfoldable pub copy_from : Block A → Block A → (start num : ℕ) → Block A
  copy_from b other start num = record {
    size = b.size + num;
    array = memcpy b.array b.size other.array start num;
  }

  -- This node and the other one, which is empty.
  unfoldable pub move_half_to : Block A → Block A → Block A × Block A
  move_half_to b other =
      let move_index = b.size / 2 in
      (
        record b { size = b.size - (b.size - move_index) },
        copy_from other b move_index (b.size - move_index),
      )

  unfoldable pub move_first_to_end : Block A → Block A → Run (Block A × Block A)
  move_first_to_end b other =
      if b.size == 0
      then none
      else some (
        record { size = b.size - 1; array = memcpy b.array 0 b.array 1 (b.size - 1) },
        append other (b.array 0),
      )

  unfoldable pub move_last_to_front : Block A → Block A → Run (Block A × Block A)
  move_last_to_front b other =
      if b.size == 0
      then none
      else some (record b { size = b.size - 1 }, preappend other (b.array (b.size - 1)))

  unfoldable pub move_to : Block A → Block A → Block A × Block A
  move_to b other = (record b { size = b.size - b.size }, copy_from other b 0 b.size)
