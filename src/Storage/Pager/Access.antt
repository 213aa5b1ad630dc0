-- ===== src/Storage/Pager/Access.antt =====
-- Reading and writing the pages of a sound database file, and its catalog root.
use my_sqlight.Prelude.{
  subst, ==_iff, Bool-cases, List, ap, arith, drop, if◌then◌else◌, inl, inr, length, length-drop,
  length-take, lt→ltb, ok, refl, sym, ℕ, ◌*◌, ◌+◌, ◌<◌, ◌==◌, ◌^◌, ◌∙◌, ◌≡◌, ◌≢◌, ◌≤◌,
}
use my_sqlight.Bytes.{Bytes, put_be}
use my_sqlight.Bytes.Laws.{length-put_be}
use my_sqlight.Catalog.Stored.{All}
use my_sqlight.Files.{write_at, read_at}
use my_sqlight.Files.Slices.{Apart, length-write_at, read_at-write_at, read_at-write_at-Apart}
use my_sqlight.Storage.Pager.{Pager, page_bytes, read_page, write_page, set_catalog_root_page_id}
use my_sqlight.Storage.Pager.Header.{HasHeader-behind, HasHeader-root}
use my_sqlight.Storage.Pager.Layout.{IsSound, Chain-same, page_links, header_links, pages-Apart}

pub length-read_at : (file : Bytes) (o n : ℕ) → o + n ≤ length file → length (read_at file o n) ≡ n
unfolding read_at
length-read_at file o n h = omega (arith, length-take n (drop o file), length-drop o file)

-- A page's bytes in the file.
abbrev pub page_at : Bytes → ℕ → Bytes
page_at file id = read_at file (id * page_bytes) page_bytes

pub read_page-page_at :
    (p : Pager) (id : ℕ)
    → id < p.page_count
    → p.page_count * page_bytes ≤ length p.pages
    → read_page p id ≡ ok (page_at p.pages id)
unfolding read_page
read_page-page_at p id h room =
    rw (lt→ltb id p.page_count h, (==_iff _ page_bytes).1 whole, read_page) refl
  where
    whole : length (page_at p.pages id) ≡ page_bytes
    whole = length-read_at p.pages (id * page_bytes) page_bytes (omega arith)

-- The file with a page written.
module _ (p : Pager) (room : p.page_count * page_bytes ≤ length p.pages) where
  abbrev pub with_page : ℕ → Bytes → Pager
  with_page id bs = record p { pages = write_at p.pages (id * page_bytes) bs }

  pub write_page-with_page :
      (id : ℕ) (bs : Bytes)
      → id < p.page_count
      → length bs ≡ page_bytes
      → write_page p id bs ≡ ok (with_page id bs)
  unfolding write_page
  write_page-with_page id bs lt whole =
      rw (lt→ltb id p.page_count lt, (==_iff (length bs) page_bytes).1 whole, write_page) refl

  pub with_page-room :
      (id : ℕ) (bs : Bytes)
      → p.page_count * page_bytes ≤ length (write_at p.pages (id * page_bytes) bs)
  with_page-room id bs = omega (arith, length-write_at p.pages bs (id * page_bytes))

  pub with_page-page_at :
      (id q : ℕ) (bs : Bytes)
      → q < p.page_count
      → length bs ≡ page_bytes
      → page_at (with_page id bs).pages q ≡ (if q == id then bs else page_at p.pages q)
  with_page-page_at id q bs lt whole = elim (Bool-cases (q == id)) [
    | inl e ↦
        rw (e, (==_iff q id).0 e)
          (read_at-write_at p.pages bs (id * page_bytes) page_bytes (sym whole))
    | inr e ↦ rw e (
        read_at-write_at-Apart p.pages bs (id * page_bytes) (q * page_bytes) page_bytes
          (subst (λ n. Apart (q * page_bytes) page_bytes (id * page_bytes) n) (sym whole)
            (pages-Apart q id page_bytes (λ same. ground arith) (omega arith)))
          (omega arith))
  ]

module _ (p : Pager) (free : List ℕ) (h : IsSound p free) where
  open h use {room, some_page, count_fits, root_fits, head_fits, header, chain}

  -- Every page of a sound file can be read, the free ones too.
  pub read_page_sound : (id : ℕ) → id < p.page_count → read_page p id ≡ ok (page_at p.pages id)
  read_page_sound id lt = read_page-page_at p id lt room

  pub with_page-IsSound :
      (id : ℕ) (bs : Bytes)
      → 0 < id
      → id < p.page_count
      → length bs ≡ page_bytes
      → All (λ i. i ≢ id) free
      → IsSound (with_page p room id bs) free
  with_page-IsSound id bs positive lt whole used = record {
    room = with_page-room p room id bs;
    some_page = some_page;
    count_fits = count_fits;
    root_fits = root_fits;
    head_fits = head_fits;
    header =
        HasHeader-behind p.pages p.page_count p.catalog_root_page_id p.free_list_head (omega arith)
          header (id * page_bytes) bs (omega arith);
    chain =
        Chain-same p.pages _ p.page_count p.page_count p.free_list_head free (omega arith)
          (page_links p.pages bs p.page_count room id free whole used) chain;
  }

  -- `WritePage` of 4096 bytes to a page of a sound file that is in use and not the header succeeds
  -- and keeps the file sound, with the same page count and free list: the page is then read back, and
  -- any other page is read as before.
  pub write_page_sound :
      (id q : ℕ) (bs : Bytes)
      → 0 < id
      → id < p.page_count
      → length bs ≡ page_bytes
      → All (λ i. i ≢ id) free
      → q < p.page_count
      → (p' : Pager) × (write_page p id bs ≡ ok p')
        × IsSound p' free
        × (p'.page_count ≡ p.page_count)
        × (read_page p' q ≡ (if q == id then ok bs else read_page p q))
  write_page_sound id q bs positive lt whole used lt' = (
    with_page p room id bs,
    write_page-with_page p room id bs lt whole,
    with_page-IsSound id bs positive lt whole used,
    refl,
    read_page-page_at (with_page p room id bs) q lt' (with_page-room p room id bs)
        ∙ ap ok (with_page-page_at p room id q bs lt' whole)
        ∙ same_test,
  )
    where
      same_test :
          ok (if q == id then bs else page_at p.pages q)
          ≡ (if q == id then ok bs else read_page p q)
      same_test = rw (read_page_sound q lt') (ground arith)

  pub set_root_outcome :
      (id : ℕ)
      → id < 2 ^ 32
      → IsSound (set_catalog_root_page_id p id) free
        × ((q : ℕ)
            → 0 < q
            → q < p.page_count
            → read_page (set_catalog_root_page_id p id) q ≡ read_page p q)
  unfolding set_catalog_root_page_id
  set_root_outcome id fits = (
    record {
      room = roomy;
      some_page = some_page;
      count_fits = count_fits;
      root_fits = fits;
      head_fits = head_fits;
      header =
          HasHeader-root p.pages p.page_count p.catalog_root_page_id p.free_list_head (omega arith)
            header id;
      chain =
          Chain-same p.pages _ p.page_count p.page_count p.free_list_head free (omega arith)
            (header_links p.pages (put_be 4 id) p.page_count room 15 free
              (omega (arith, length-put_be 4 id)))
            chain;
    },
    λ q positive lt.
        read_page-page_at (set_catalog_root_page_id p id) q lt roomy
        ∙ ap ok (
            read_at-write_at-Apart p.pages (put_be 4 id) 15 (q * page_bytes) page_bytes
              (inr (omega (arith, length-put_be 4 id))) (omega arith))
        ∙ sym (read_page_sound q lt),
  )
    where
      roomy : p.page_count * page_bytes ≤ length (write_at p.pages 15 (put_be 4 id))
      roomy = omega (arith, length-write_at p.pages (put_be 4 id) 15)

  -- `SetCatalogRootPageID` keeps the file sound, and any page but the header is read as before.
  pub set_catalog_root_page_id_sound :
      (id q : ℕ)
      → id < 2 ^ 32
      → 0 < q
      → q < p.page_count
      → IsSound (set_catalog_root_page_id p id) free
        × (read_page (set_catalog_root_page_id p id) q ≡ read_page p q)
  set_catalog_root_page_id_sound id q fits positive lt =
      ((set_root_outcome id fits).0, (set_root_outcome id fits).1 q positive lt)
