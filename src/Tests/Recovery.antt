-- ===== src/Tests/Recovery.antt =====
-- Tests of recovery (wal/recovery.go), with a map of pages as the writer.
use my_sqlight.Wal.Recovery.Outcome.{recover_pages, recovered_page}
use my_sqlight.Wal.Scan.{encodes}
use my_sqlight.Wal.RoundTrip.{logged, FitsRecord}
use my_sqlight.Maps.{nat_eq, find-put, find, Map, put}
use my_sqlight.Wal.Recovery.Pages.{FitsLog, PageStore}
use my_sqlight.Catalog.Stored.{All}
use my_sqlight.Wal.Recovery.{recover, RecoverOutcome, PageWriter}
use my_sqlight.Bytes.{Bytes}
use my_sqlight.Prelude.{
  refl, some, ◌==◌, length-replicate, if◌then◌else◌, arith, ◌≡◌, none, replicate, ◌∷◌, [], List,
  map, ℕ,
}
use my_sqlight.Wal.Record.{record_begin, record_update, Record}

abbrev pages : PageWriter
pages = record { State = Map ℕ Bytes; Failure = Unit; write_page = λ s p d. (put p d s, none) }

abbrev page_of : Map ℕ Bytes → ℕ → Bytes
page_of s p = elim (find p s) [ some d ↦ d | none ↦ [] ]

page_of-put :
    (s : Map ℕ Bytes) (p q : ℕ) (d : Bytes)
    → page_of (put p d s) q ≡ (if q == p then d else page_of s q)
page_of-put s p q d = ground (arith, find-put q p d s)

abbrev page_store : PageStore pages
page_store = record {
  read = page_of;
  Fits = λ s p d. Unit;
  stored = λ s p d. put p d s;
  write_page-stored = λ s p d h. refl;
  read-stored = λ s p q d h e k. page_of-put s p q d;
  Fits-stored = λ s p q d e h k. tt;
}

abbrev image : ℕ → Bytes
image b = replicate 4096 b

-- Transaction 7 has changed page 3, and is not finished.
abbrev begin_7 : Record
begin_7 = record {
  lsn = 0;
  txn_id = 7;
  record_type = record_begin;
  page_id = 0;
  before_image = [];
  after_image = [];
  checksum = 0;
}

abbrev update_7 : Record
update_7 = record begin_7 {
  lsn = 1;
  record_type = record_update;
  page_id = 3;
  before_image = image 0;
  after_image = image 1;
}

abbrev records : List Record
records = begin_7 ∷ update_7 ∷ []

records-FitsRecord : All FitsRecord records
records-FitsRecord = (
  record {
    lsn_fits = omega arith;
    txn_fits = omega arith;
    page_fits = omega arith;
    has_images = tt;
  },
  (
    record {
      lsn_fits = omega arith;
      txn_fits = omega arith;
      page_fits = omega arith;
      has_images = (length-replicate {A = ℕ} 4096 0, length-replicate {A = ℕ} 4096 1);
    },
    tt,
  ),
)

records-FitsLog : FitsLog pages page_store [] (map logged records)
unfolding logged
records-FitsLog = (tt, ((tt, tt), tt))

recover_pages_example :
    (out : RecoverOutcome (Map ℕ Bytes) Unit) × (recover pages (encodes records) [] ≡ some out)
    × (out.error ≡ none)
    × (out.log ≡ [])
    × (page_of out.state 3 ≡ recovered_page (map logged records) 3 [])
unfolding find
recover_pages_example =
    recover_pages pages page_store records [] 3 [] records-FitsRecord records-FitsLog tt
