-- ===== src/Storage/Pool/Rollback.antt =====
-- `SetWAL`, `SetTxnID`, `RollbackTxn`, `AllocatePage` and `FreePage` of storage/buffer_pool.go.
use my_sqlight.Prelude.{
  ℕ, ◌==◌, length, take, drop, ◌++◌, [], ◌∷◌, true, false, Option, some, none, Result, ok, err,
  panic,
}
use my_sqlight.Bytes.{Bytes}
use my_sqlight.Maps.{Map, nat_eq, find, put, delete}
use my_sqlight.Wal.Log.{Wal}
use my_sqlight.Storage.Pager.{write_page, allocate_page, free_page}
use my_sqlight.Storage.Pool.{Page, BufferPool, PoolError, pager_failed, without}

unfoldable pub set_wal : Wal → BufferPool → BufferPool
set_wal w bp = record bp { wal_file = some w }

unfoldable pub set_txn_id : ℕ → BufferPool → BufferPool
set_txn_id txn bp = record bp { current_txn_id = txn }

-- `copy(data, image)`: as many bytes as both have.
unfoldable pub copied : Bytes → Bytes → Bytes
copied data_ image = take (length data_) image ++ drop (length image) data_

unfoldable pub restored : Bytes → Page → Page
restored image page = record page { contents = copied page.contents image; dirty = false }

unfoldable pub drop_images : ℕ → BufferPool → BufferPool
drop_images id bp = record bp {
  before_images = delete id bp.before_images;
  dirty_txn = delete id bp.dirty_txn;
}

-- A page of the transaction that has a before-image: in the cache or in the file.
unfoldable pub restore_image : ℕ → Bytes → BufferPool → Option PoolError × BufferPool
restore_image id image bp = elim (find id bp.frames) [
  | some page ↦ (
    none,
    drop_images id (record bp {
      frames = put id (restored image page) bp.frames;
      clean_snapshots = put id image bp.clean_snapshots;
    }),
  )
  | none ↦ elim (write_page bp.pager id image) [
    | ok pager' ↦ (none, drop_images id (record bp { pager = pager' }))
    | err e ↦ (some (pager_failed e), bp)
    | panic ↦ (none, bp)
  ]
]

unfoldable pub restore_page : ℕ → BufferPool → Option PoolError × BufferPool
restore_page id bp = elim (find id bp.before_images) [
  | none ↦ (none, bp)
  | some image ↦ restore_image id image bp
]

-- The loop over the entries of `dirtyTxn`.
unfoldable pub restore_pages : ℕ → Map ℕ ℕ → BufferPool → Option PoolError × BufferPool
restore_pages txn [] bp = (none, bp)
restore_pages txn ((id, owner) ∷ entries) bp = elim (owner == txn) [
  | false ↦ restore_pages txn entries bp
  | true ↦
      let (e, bp') = restore_page id bp in
      elim e [ some f ↦ (some f, bp') | none ↦ restore_pages txn entries bp' ]
]

unfoldable pub rollback_txn : ℕ → BufferPool → Option PoolError × BufferPool
rollback_txn txn bp = restore_pages txn bp.dirty_txn bp

unfoldable pub pool_allocate : BufferPool → Result PoolError ℕ × BufferPool
pool_allocate bp = elim (allocate_page bp.pager) [
  | ok (id, pager') ↦ (ok id, record bp { pager = pager' })
  | err e ↦ (err (pager_failed e), bp)
  | panic ↦ (panic, bp)
]

unfoldable pub drop_page : ℕ → BufferPool → BufferPool
drop_page id bp = elim (find id bp.frames) [
  | none ↦ bp
  | some page ↦ record bp {
    lru_list = without id bp.lru_list;
    frames = delete id bp.frames;
    before_images = delete id bp.before_images;
    dirty_txn = delete id bp.dirty_txn;
    clean_snapshots = delete id bp.clean_snapshots;
  }
]

unfoldable pub pool_free : ℕ → BufferPool → Result PoolError (Unit {0}) × BufferPool
pool_free id bp =
    let dropped = drop_page id bp in
    elim (free_page dropped.pager id) [
      | ok pager' ↦ (ok tt, record dropped { pager = pager' })
      | err e ↦ (err (pager_failed e), dropped)
      | panic ↦ (panic, dropped)
    ]
