-- ===== src/Storage/Pool.antt =====
-- The buffer pool of storage/buffer_pool.go, over the pager and the log. The list of the least
-- recently used pages begins with the one used last; `lruMap` has the pages of that list as its
-- keys. An operation returns its outcome and the pool, which an error leaves changed in part.
pub mod Flush
pub mod Pins
pub mod Rollback
pub mod Restores
use my_sqlight.Prelude.{
  ◌||◌, length, not, ◌&&◌, leb, reverse, if◌then◌else◌, ◌==◌, Result, List, Option, Bool, ℕ, ◌+◌,
  ◌-◌, [], ◌∷◌, true, false, some, none, ok, err, panic,
}
use my_sqlight.Bytes.{Bytes}
use my_sqlight.Maps.{Map, nat_eq, find, put, delete}
use my_sqlight.Storage.Pager.{Pager, PagerError, read_page, write_page, allocate_page}
use my_sqlight.Wal.Log.{Wal, WriteOutcome, write_record}
use my_sqlight.Wal.Record.{Record, record_update}

pub record Page : Type 0 where
  pub id : ℕ
  pub contents : Bytes
  pub dirty : Bool
  pub pin_count : ℕ

pub record BufferPool : Type 0 where
  pub pager : Pager
  pub capacity : ℕ
  pub frames : Map ℕ Page
  pub lru_list : List ℕ
  pub wal_file : Option Wal
  pub current_txn_id : ℕ
  pub clean_snapshots : Map ℕ Bytes
  pub before_images : Map ℕ Bytes
  pub dirty_txn : Map ℕ ℕ

pub data PoolError : Type 0 where
  all_pinned not_found : PoolError
  pager_failed : PagerError → PoolError

-- `NewBufferPool`
abbrev pub new_buffer_pool : Pager → ℕ → BufferPool
new_buffer_pool pager capacity = record {
  pager = pager;
  capacity = capacity;
  frames = [];
  lru_list = [];
  wal_file = none;
  current_txn_id = 0;
  clean_snapshots = [];
  before_images = [];
  dirty_txn = [];
}

-- `bp.beforeImages[pageID]`, or else `bp.cleanSnapshots[pageID]`.
unfoldable pub image_before : ℕ → BufferPool → Option Bytes
image_before id bp = elim (find id bp.before_images) [
  | some image ↦ some image
  | none ↦ find id bp.clean_snapshots
]

-- `bp.dirtyTxn[pageID]`, which is 0 where the key is missing.
unfoldable pub txn_of : ℕ → BufferPool → ℕ
txn_of id bp = elim (find id bp.dirty_txn) [ some txn ↦ txn | none ↦ 0 ]

unfoldable pub update_record : ℕ → ℕ → Bytes → Bytes → Record
update_record txn id before after = record {
  lsn = 0;
  txn_id = txn;
  record_type = record_update;
  page_id = id;
  before_image = before;
  after_image = after;
  checksum = 0;
}

-- `writeWALUpdate`, with what the operating system makes of the log's write for each page; the error
-- of the write is dropped, as in the source.
unfoldable pub write_wal_update : (ℕ → WriteOutcome) → ℕ → Bytes → BufferPool → BufferPool
write_wal_update log id after bp = elim bp.wal_file [
  | none ↦ bp
  | some w ↦ elim (image_before id bp) [
    | none ↦ bp
    | some before ↦ record bp {
      wal_file = some (write_record w (update_record (txn_of id bp) id before after) (log id)).2;
    }
  ]
]

-- A dirty page is logged and written to the file.
unfoldable pub flush_page :
    (ℕ → WriteOutcome) → ℕ → Page → BufferPool → Option PoolError × BufferPool
flush_page log id page bp =
    let logged = write_wal_update log id page.contents bp in
    elim page.dirty [
      | false ↦ (none, bp)
      | true ↦ elim (write_page logged.pager id page.contents) [
        | ok pager' ↦ (none, record logged { pager = pager' })
        | err e ↦ (some (pager_failed e), logged)
        | panic ↦ (none, logged)
      ]
    ]

-- The loop from the back of the list to the first page that nobody has pinned.
unfoldable pub walk_back : List ℕ → Map ℕ Page → Result PoolError ℕ
walk_back [] frames = err all_pinned
walk_back (id ∷ ids) frames = elim (find id frames) [
  | none ↦ panic
  | some page ↦ elim (page.pin_count == 0) [ true ↦ ok id | false ↦ walk_back ids frames ]
]

-- The page to evict; the back of an empty list is nil.
unfoldable pub find_victim : List ℕ → Map ℕ Page → Result PoolError ℕ
find_victim [] frames = panic
find_victim (id ∷ ids) frames = walk_back (id ∷ ids) frames

unfoldable pub without : ℕ → List ℕ → List ℕ
without id [] = []
without id (i ∷ is) = if i == id then is else i ∷ without id is

-- What the pool knew of a page is dropped.
unfoldable pub forget : ℕ → BufferPool → BufferPool
forget id bp = record bp {
  frames = delete id bp.frames;
  lru_list = without id bp.lru_list;
  clean_snapshots = delete id bp.clean_snapshots;
  before_images = delete id bp.before_images;
  dirty_txn = delete id bp.dirty_txn;
}

unfoldable pub evict_page : (ℕ → WriteOutcome) → ℕ → BufferPool → Option PoolError × BufferPool
evict_page log id bp = elim (find id bp.frames) [
  | none ↦ (none, bp)
  | some page ↦
      let (e, bp') = flush_page log id page bp in
      elim e [ some f ↦ (some f, bp') | none ↦ (none, forget id bp') ]
]

unfoldable pub evict : (ℕ → WriteOutcome) → BufferPool → Result PoolError (Unit {0}) × BufferPool
evict log bp = elim (find_victim (reverse bp.lru_list) bp.frames) [
  | err e ↦ (err e, bp)
  | panic ↦ (panic, bp)
  | ok id ↦
      let (e, bp') = evict_page log id bp in elim e [ some f ↦ (err f, bp') | none ↦ (ok tt, bp') ]
]

-- The page is read from the file, pinned once, and its clean snapshot kept.
unfoldable pub load_page : ℕ → BufferPool → Result PoolError Page × BufferPool
load_page id bp = elim (read_page bp.pager id) [
  | err e ↦ (err (pager_failed e), bp)
  | panic ↦ (panic, bp)
  | ok bytes ↦
      let page : Page = record { id = id; contents = bytes; dirty = false; pin_count = 1 } in
      (
        ok page,
        record bp {
          frames = put id page bp.frames;
          lru_list = id ∷ bp.lru_list;
          clean_snapshots = put id bytes bp.clean_snapshots;
        },
      )
]

unfoldable pub make_room :
    (ℕ → WriteOutcome) → BufferPool → Result PoolError (Unit {0}) × BufferPool
make_room log bp = if leb bp.capacity (length bp.lru_list) then evict log bp else (ok tt, bp)

unfoldable pub fetch_missing :
    (ℕ → WriteOutcome) → ℕ → BufferPool → Result PoolError Page × BufferPool
fetch_missing log id bp =
    let (room, bp') = make_room log bp in
    elim room [ err e ↦ (err e, bp') | panic ↦ (panic, bp') | ok _ ↦ load_page id bp' ]

-- `FetchPage`
unfoldable pub fetch_page : (ℕ → WriteOutcome) → ℕ → BufferPool → Result PoolError Page × BufferPool
fetch_page log id bp = elim (find id bp.frames) [
  | none ↦ fetch_missing log id bp
  | some page ↦
      let pinned = record page { pin_count = page.pin_count + 1 } in
      (
        ok pinned,
        record bp { frames = put id pinned bp.frames; lru_list = id ∷ without id bp.lru_list },
      )
]

-- A clean page that becomes dirty: its before-image and its transaction are kept.
unfoldable pub mark_dirty : ℕ → BufferPool → BufferPool
mark_dirty id bp = record bp {
  before_images = elim (find id bp.clean_snapshots) [
    | some image ↦ put id image bp.before_images
    | none ↦ bp.before_images
  ];
  dirty_txn = put id bp.current_txn_id bp.dirty_txn;
}

-- `UnpinPage`; a pin count of 0 stays 0.
unfoldable pub unpin_page : ℕ → Bool → BufferPool → Option PoolError × BufferPool
unpin_page id dirty bp = elim (find id bp.frames) [
  | none ↦ (some not_found, bp)
  | some page ↦
      let marked = if dirty && not page.dirty then mark_dirty id bp else bp in
      (
        none,
        record marked {
          frames =
              put id (record page { pin_count = page.pin_count - 1; dirty = page.dirty || dirty })
                bp.frames;
        },
      )
]
