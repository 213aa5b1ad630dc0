-- ===== src/Storage/Pager/Store.antt =====
-- The pager as the writer that recovery is given (the interface PageWriter of wal/recovery.go).
use my_sqlight.Prelude.{
  ◌≤◌, ◌≡◌, ◌*◌, length, ◌<◌, ap, Result, ℕ, none, some, ok, err, panic, Option,
}
use my_sqlight.Wal.Recovery.{PageWriter}
use my_sqlight.Wal.Recovery.Pages.{PageStore}
use my_sqlight.Storage.Pager.{write_at, Bytes, Pager, PagerError, write_page, page_bytes}
use my_sqlight.Storage.Pager.Access.{
  page_at, write_page-with_page, with_page-room, with_page-page_at,
}

-- A write to the pager with the error, if any; where there is one, nothing is changed.
abbrev write_result : Pager → Result PagerError Pager → Pager × Option PagerError
write_result p (ok p') = (p', none)
write_result p (err e) = (p, some e)
write_result p panic = (p, none)

abbrev pub pager_writer : PageWriter
pager_writer = record {
  State = Pager;
  Failure = PagerError;
  write_page = λ p id bs. write_result p (write_page p id bs);
}

-- The page is in the file, and the bytes are a page's.
pub record FitsPage (p : Pager) (id : ℕ) (bs : Bytes) : Type 0 where
  pub known : id < p.page_count
  pub whole : length bs ≡ page_bytes
  pub room : p.page_count * page_bytes ≤ length p.pages

abbrev pub stored_page : Pager → ℕ → Bytes → Pager
stored_page p id bs = record p { pages = write_at p.pages (id * page_bytes) bs }

-- The pager stores pages as recovery expects it of its writer.
abbrev pub pager_store : PageStore pager_writer
pager_store = record {
  read = λ p id. page_at p.pages id;
  Fits = FitsPage;
  stored = stored_page;
  write_page-stored =
      λ p id bs h. ap (write_result p) (write_page-with_page p h.room id bs h.known h.whole);
  read-stored = λ p id q bs h e k. with_page-page_at p h.room id q bs k.known h.whole;
  Fits-stored = λ p id q bs e h k. record {
    known = k.known;
    whole = k.whole;
    room = with_page-room p h.room id bs;
  };
}
