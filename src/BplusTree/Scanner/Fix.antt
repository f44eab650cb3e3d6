-- ===== src/BplusTree/Scanner/Fix.antt =====
-- bplus_tree.cpp: BplusTreeScanner::fix_user_key, which brings a string to the length of the
-- attribute.
use miniob_basic.Base.{
  ℕ, zero, suc, ◌+◌, ◌-◌, ◌%◌, Bool, true, false, not, none, some, List, [], ◌∷◌, ◌++◌, ◌==◌, leb,
  if◌then◌else◌, get_or, replicate,
}
use miniob_basic.Rc.{Run}

-- The first `n` bytes.
abbrev pub take_bytes : ℕ → List ℕ → List ℕ
take_bytes zero cs = []
take_bytes (suc n) [] = []
take_bytes (suc n) (c ∷ cs) = c ∷ take_bytes n cs

-- `strlen`: the bytes before the first one that is 0.
abbrev pub strlen : List ℕ → ℕ
strlen [] = 0
strlen (c ∷ cs) = let rest = strlen cs in if c == 0 then 0 else suc rest

-- `key_buf[n - 1]++` for a key of n bytes
abbrev pub last_up : List ℕ → List ℕ
last_up [] = []
last_up (c ∷ []) = ((c + 1) % 256) ∷ []
last_up (c ∷ d ∷ cs) = c ∷ last_up (d ∷ cs)

-- The key, and `should_inclusive`.
unfoldable pub fix_user_key :
    (attr_length : ℕ)
    → (user_key : List ℕ) → (key_len : ℕ) → (want_greater : Bool) → Run (List ℕ × Bool)
fix_user_key attr_length user_key key_len want_greater =
    if leb key_len attr_length
    then some (
      take_bytes key_len user_key
          ++ replicate (attr_length - key_len) (if want_greater then 0 else 255),
      false,
    )
    else if not (leb key_len (strlen user_key))
    then none
    else let key_buf = take_bytes attr_length user_key in
      if get_or user_key attr_length 0 == 0
      then some (key_buf, false)
      else some (if want_greater then last_up key_buf else key_buf, true)
