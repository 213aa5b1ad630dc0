-- ===== src/Storage/Pool/Flush.antt =====
-- `FlushAll` of storage/buffer_pool.go.
use my_sqlight.Prelude.{Option, ℕ, [], ◌∷◌, true, false, some, none}
use my_sqlight.Maps.{Map, nat_eq, put, delete}
use my_sqlight.Wal.Log.{WriteOutcome}
use my_sqlight.Storage.Pool.{Page, BufferPool, PoolError, flush_page}

-- The round of `FlushAll` for one page.
unfoldable pub flush_frame : (ℕ → WriteOutcome) → Page → BufferPool → Option PoolError × BufferPool
flush_frame log page bp =
    let (e, bp') = flush_page log page.id page bp in
    elim e [
      | some f ↦ (some f, bp')
      | none ↦ elim page.dirty [
        | false ↦ (none, bp')
        | true ↦ (
          none,
          record bp' {
            frames = put page.id (record page { dirty = false }) bp'.frames;
            clean_snapshots = put page.id page.contents bp'.clean_snapshots;
            before_images = delete page.id bp'.before_images;
            dirty_txn = delete page.id bp'.dirty_txn;
          },
        )
      ]
    ]

unfoldable pub flush_frames :
    (ℕ → WriteOutcome) → Map ℕ Page → BufferPool → Option PoolError × BufferPool
flush_frames log [] bp = (none, bp)
flush_frames log ((_, page) ∷ rest) bp =
    let (e, bp') = flush_frame log page bp in
    elim e [ some f ↦ (some f, bp') | none ↦ flush_frames log rest bp' ]

-- `FlushAll`
unfoldable pub flush_all : (ℕ → WriteOutcome) → BufferPool → Option PoolError × BufferPool
flush_all log bp = flush_frames log bp.frames bp
