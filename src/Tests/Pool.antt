-- ===== src/Tests/Pool.antt =====
-- Tests of the buffer pool (storage/buffer_pool.go).
use my_sqlight.Storage.Pool.Pins.{fetch_page-pinned}
use my_sqlight.Wal.Log.{WriteOutcome, complete}
use my_sqlight.Prelude.{ℕ, arith, ◌≤◌, some, ◌≡◌, false, refl, [], ◌∷◌, err}
use my_sqlight.Maps.{nat_eq, find}
use my_sqlight.Storage.Pool.{
  all_pinned, walk_back, find_victim, evict, make_room, new_buffer_pool, fetch_missing, Page,
  BufferPool, fetch_page,
}

-- The log takes every record.
abbrev log : ℕ → WriteOutcome
log id = complete

abbrev page : Page
page = record { id = 1; contents = 9 ∷ []; dirty = false; pin_count = 1 }

-- A pool for one page, which is pinned.
abbrev pool : BufferPool
pool =
    record (new_buffer_pool
      (record { pages = []; free_list_head = 0; page_count = 3; catalog_root_page_id = 0 }) 1) {
        frames = (1, page) ∷ [];
        lru_list = 1 ∷ [];
      }

pinned_out : fetch_page log 2 pool ≡ (err all_pinned, pool)
unfolding fetch_page fetch_missing make_room evict find_victim walk_back find
pinned_out = refl

page_here : find 1 pool.frames ≡ some page
unfolding find
page_here = refl

fetch_page-pinned_example :
    (page' : Page) × (find 1 (fetch_page log 2 pool).1.frames ≡ some page')
    × (page'.contents ≡ page.contents)
    × (page.pin_count ≤ page'.pin_count)
fetch_page-pinned_example = fetch_page-pinned log 2 1 page pool page_here (λ e. omega arith)
