-- ===== src/BplusTree/IndexFile.antt =====
-- bplus_tree.cpp: how BplusTreeHandler creates, opens, closes and writes back the header of its file,
-- which lies in the first page.
use miniob_basic.Base.{
  ℕ, ◌+◌, ◌≡◌, refl, sym, ap, ◌∙◌, ◌⊎◌, inl, inr, Bool, true, false, not, ◌&&◌, ◌||◌, Option, none,
  some, ◌==◌, if◌then◌else◌, Bool-cases,
}
use mathlib.Core.Bool.{false≢true}
use miniob_basic.Rc.{Rc, success, nomem, record_openned, is_success}
use miniob_basic.BplusTree.Node.{
  IndexFileHeader, calc_internal_page_capacity, calc_leaf_page_capacity, rid_size,
}

abbrev pub first_index_page : ℕ
first_index_page = 1

-- What the handler asks of BufferPoolManager, of the pool of its file, and of the memory pool of keys.
-- `get_this_page` also tells whether the page was in memory, `flush_all_pages` whether a run that failed
-- had written the first page, and `close_file` whether it could purge the frame of the first page, which it
-- does not when the frame is pinned more than once.
pub record Files {ℓ} (P : Type ℓ) : Type ℓ where
  pub create_file : P → Rc × P
  pub open_file : P → Rc × P
  pub allocate_first : P → Rc × ℕ × P
  pub get_this_page : P → ℕ → Rc × Bool × P
  pub flush_all_pages : P → Rc × Bool × P
  pub close_file : P → Bool × P
  pub init_keys : P → (key_length : ℕ) → Bool

-- `frame_page` is the first page as the pool gives it and `frame_dirty` the flag of its frame, `on_disk` is
-- what the file holds of that page; `is_open` tells that there is a pool.
pub record IndexFile {ℓ} (P : Type ℓ) : Type ℓ where
  pub file_header : IndexFileHeader
  pub is_dirty : Bool
  pub frame_page : IndexFileHeader
  pub frame_dirty : Bool
  pub on_disk : IndexFileHeader
  pub is_open : Bool
  pub files : P

module _ {ℓ} {P : Type ℓ} (io : Files P) where
  -- The frame of the first page is written to the file.
  abbrev pub write_back : IndexFile P → Bool → IndexFile P
  write_back t true = record t { on_disk = t.frame_page; frame_dirty = false }
  write_back t false = t

  -- The first page comes from the file unless it is in memory.
  abbrev pub load_first : IndexFile P → Bool → IndexFile P
  load_first t true = t
  load_first t false = record t { frame_page = t.on_disk; frame_dirty = false }

  abbrev pub write_first : IndexFile P → Rc × Bool × P → IndexFile P
  write_first t (rc, cached, p) =
      if is_success rc
      then record t { frame_page = t.file_header; frame_dirty = true; is_dirty = false; files = p }
      else record t { files = p }

  abbrev pub write_header : IndexFile P → Bool → IndexFile P
  write_header t true = write_first t (io.get_this_page t.files first_index_page)
  write_header t false = t

  abbrev flushed : IndexFile P → Rc × Bool × P → Rc × IndexFile P
  flushed t (rc, written, p) = (rc, write_back (record t { files = p }) (is_success rc || written))

  abbrev pub sync : IndexFile P → Rc × IndexFile P
  sync t = let t' = write_header t t.is_dirty in flushed t' (io.flush_all_pages t'.files)

  abbrev purged : IndexFile P → Bool × P → IndexFile P
  purged t (free, p) = write_back (record t { is_open = false; files = p }) (free && t.frame_dirty)

  abbrev pub close_open : IndexFile P → Bool → IndexFile P
  close_open t true = purged t (io.close_file t.files)
  close_open t false = record t { is_open = false }

  abbrev pub close_handler : IndexFile P → IndexFile P
  close_handler t = close_open t t.is_open

  abbrev pub open_keys : IndexFile P → Bool → Rc × IndexFile P
  open_keys t true = (success, t)
  open_keys t false = (nomem, close_handler t)

  abbrev pub open_loaded : IndexFile P → Rc × IndexFile P
  open_loaded t =
      open_keys record t { file_header = t.frame_page; is_dirty = false; is_open = true }
        (io.init_keys t.files t.frame_page.key_length)

  abbrev pub open_first : IndexFile P → Rc × Bool × P → Rc × IndexFile P
  open_first t (rc, cached, p) =
      if is_success rc
      then open_loaded (load_first (record t { files = p }) cached)
      else (rc, record t { files = (io.close_file p).1 })

  abbrev pub open_closed : IndexFile P → Rc × P → Rc × IndexFile P
  open_closed t (rc, p) =
      if is_success rc
      then open_first (record t { files = p }) (io.get_this_page p first_index_page)
      else (rc, record t { files = p })

  abbrev pub open_index : IndexFile P → Bool → Rc × IndexFile P
  open_index t true = (record_openned, t)
  open_index t false = open_closed t (io.open_file t.files)

  abbrev pub open_handler : IndexFile P → Rc × IndexFile P
  open_handler t = open_index t t.is_open

  abbrev pub new_header : ℕ → (internal_max_size leaf_max_size : Option ℕ) → IndexFileHeader
  new_header attr_length internal_max_size leaf_max_size = record {
    root_page = none;
    internal_max_size = elim internal_max_size [
      | none ↦ calc_internal_page_capacity attr_length
      | some n ↦ n
    ];
    leaf_max_size = elim leaf_max_size [ none ↦ calc_leaf_page_capacity attr_length | some n ↦ n ];
    attr_length = attr_length;
    key_length = attr_length + rid_size;
  }

  abbrev pub create_keys : IndexFile P → Bool → Rc × IndexFile P
  create_keys t true = (success, (sync t).1)
  create_keys t false = (nomem, close_handler t)

  -- A size that is not given is that of a page.
  unfoldable pub create :
      ℕ → (internal_max_size leaf_max_size : Option ℕ) → IndexFile P → Rc × IndexFile P
  create attr_length internal_max_size leaf_max_size t =
      let (rc, p) = io.create_file t.files in
      if not (is_success rc)
      then (rc, record t { files = p })
      else let (rc, p) = io.open_file p in
        if not (is_success rc)
        then (rc, record t { files = p })
        else let (rc, page, p) = io.allocate_first p in
          if not (is_success rc)
          then (rc, record t { files = (io.close_file p).1 })
          else if not (page == first_index_page)
          then (Rc.internal, record t { files = (io.close_file p).1 })
          else let header = new_header attr_length internal_max_size leaf_max_size in
            create_keys
              record {
                file_header = header;
                is_dirty = false;
                frame_page = header;
                frame_dirty = true;
                on_disk = t.on_disk;
                is_open = true;
                files = p;
              }
              (io.init_keys p header.key_length)

  -- A header that is not marked as changed is that of the first page, and a frame that is not marked is as
  -- the file has it.
  abbrev pub IsClean : IndexFile P → Type 0
  IsClean t =
      (t.is_dirty ≡ false → t.frame_page ≡ t.file_header)
      × (t.frame_dirty ≡ false → t.on_disk ≡ t.frame_page)

  -- A handler whose header is in the frame of the first page, and in the file unless the frame is marked.
  abbrev IsStored : IndexFileHeader → IndexFile P → Type 0
  IsStored h t = (t.frame_page ≡ h) × (t.frame_dirty ≡ false → t.on_disk ≡ h) × (t.is_open ≡ true)

  write_header-IsStored :
      (t : IndexFile P) (dirty : Bool)
      → IsClean t
      → t.is_open ≡ true
      → t.is_dirty ≡ dirty
      → ((p : P) (q : ℕ) → is_success ((io.get_this_page p q).0) ≡ true)
      → IsStored t.file_header (write_header t dirty)
  write_header-IsStored t true c e d g =
      rw (g t.files first_index_page) (refl, (λ h. absurd (false≢true (sym h))), e)
  write_header-IsStored t false c e d g = (c.0 d, (λ h. c.1 h ∙ c.0 d), e)

  write_back-IsStored :
      (h : IndexFileHeader) (t : IndexFile P) (b : Bool)
      → IsStored h t
      → IsStored h (write_back t b)
  write_back-IsStored h t true (f, d, e) = (f, (λ n. f), e)
  write_back-IsStored h t false c = c

  and_false : (b : Bool) → (b && false) ≡ false
  and_false true = refl
  and_false false = refl

  write_back-kept :
      (t : IndexFile P) (b : Bool)
      → ((write_back t b).frame_page ≡ t.frame_page) × ((write_back t b).is_open ≡ t.is_open)
  write_back-kept t true = (refl, refl)
  write_back-kept t false = (refl, refl)

  flushed-on_disk :
      (t : IndexFile P) (a : Rc × Bool × P)
      → is_success (a.0) ≡ true
      → (flushed t a).1.on_disk ≡ t.frame_page
  flushed-on_disk t (rc, written, p) e = rw e refl

  -- A close that has flushed the frame, or can purge it, leaves the header in the file.
  purged-on_disk :
      (h : IndexFileHeader) (t : IndexFile P) (a : Bool × P)
      → IsStored h t
      → (t.on_disk ≡ h) ⊎ (a.0 ≡ true)
      → (purged t a).on_disk ≡ h
  purged-on_disk h t (free, p) (f, d, e) k = elim (Bool-cases t.frame_dirty) [
    | inr n ↦ rw (n, and_false free) (d n)
    | inl y ↦ elim (Bool-cases free) [
      | inl u ↦ rw (y, u) f
      | inr u ↦ rw u (elim k [ inl w ↦ w | inr w ↦ absurd (false≢true (sym u ∙ w)) ])
    ]
  ]

  open_loaded-header :
      (t : IndexFile P) (cached : Bool) (h : IndexFileHeader)
      → t.frame_page ≡ h
      → t.on_disk ≡ h
      → ((p : P) (n : ℕ) → io.init_keys p n ≡ true)
      → ((open_loaded (load_first t cached)).0 ≡ success)
        × ((open_loaded (load_first t cached)).1.file_header ≡ h)
  open_loaded-header t true h f d k = rw (k t.files t.frame_page.key_length) (refl, f)
  open_loaded-header t false h f d k = rw (k t.files t.on_disk.key_length) (refl, d)

  open_index-closed :
      (t : IndexFile P) (h : IndexFileHeader)
      → t.frame_page ≡ h
      → t.on_disk ≡ h
      → is_success ((io.open_file t.files).0) ≡ true
      → ((p : P) (q : ℕ) → is_success ((io.get_this_page p q).0) ≡ true)
      → ((p : P) (n : ℕ) → io.init_keys p n ≡ true)
      → ((open_index t false).0 ≡ success) × ((open_index t false).1.file_header ≡ h)
  open_index-closed t h f d o g k =
      let p = (io.open_file t.files).1 in
      let a = io.get_this_page p first_index_page in
      rw (o, g p first_index_page) (open_loaded-header (record t { files = a.2 }) (a.1) h f d k)

  -- When the first page can be got, the file opened and the pool of keys made, and either `sync` succeeds or
  -- the close can purge the frame of the first page: behind `sync` and `close` the file holds the header that
  -- the handler had, its root page included, and a handler that is opened again has it, whether or not the
  -- page is still in memory.
  pub open_handler-sync :
      (t : IndexFile P)
      → IsClean t
      → t.is_open ≡ true
      → ((p : P) → is_success ((io.open_file p).0) ≡ true)
      → ((p : P) (q : ℕ) → is_success ((io.get_this_page p q).0) ≡ true)
      → ((p : P) (n : ℕ) → io.init_keys p n ≡ true)
      → (is_success ((sync t).0) ≡ true) ⊎ ((io.close_file (sync t).1.files).0 ≡ true)
      → ((close_handler (sync t).1).on_disk ≡ t.file_header)
        × ((open_handler (close_handler (sync t).1)).0 ≡ success)
        × ((open_handler (close_handler (sync t).1)).1.file_header ≡ t.file_header)
  open_handler-sync t c e o g k w =
      let t0 = write_header t t.is_dirty in
      let a = io.flush_all_pages t0.files in
      let stored0 = write_header-IsStored t t.is_dirty c e refl g in
      let t1 = (sync t).1 in
      let stored =
        write_back-IsStored t.file_header (record t0 { files = a.2 }) (is_success (a.0) || a.1)
          stored0 in
      let t2 = purged t1 (io.close_file t1.files) in
      let closed : close_handler t1 ≡ t2 = ap (close_open t1) (stored.2) in
      let disk =
        purged-on_disk t.file_header t1 (io.close_file t1.files) stored
          (elim w [ inl u ↦ inl (flushed-on_disk t0 a u ∙ stored0.0) | inr u ↦ inr u ]) in
      let b = (io.close_file t1.files).0 && t1.frame_dirty in
      let (kept, shut) =
        write_back-kept (record t1 { is_open = false; files = (io.close_file t1.files).1 }) b in
      let (ok, header) =
        open_index-closed t2 t.file_header (kept ∙ stored.0) disk (o t2.files) g k in
      let opened = ap open_handler closed ∙ ap (open_index t2) shut in
      (
        ap (λ x. x.on_disk) closed ∙ disk,
        ap (λ r. r.0) opened ∙ ok,
        ap (λ r. r.1.file_header) opened ∙ header,
      )
