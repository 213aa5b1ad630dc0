-- ===== src/Storage/Pager/Free.antt =====
-- The free list, and `FreePage`.
use my_sqlight.Prelude.{
  take, sym, ap, ◌∙◌, ok, ◌^◌, ◌≢◌, ◌≤◌, ◌*◌, length-replicate, ◌<◌, replicate, List, ◌≡◌, length,
  ℕ, arith, ◌∷◌, refl, inr,
}
use my_sqlight.Bytes.{Bytes, put_be}
use my_sqlight.Bytes.Laws.{length-put_be}
use my_sqlight.Catalog.Stored.{All}
use my_sqlight.Files.{write_at, read_at}
use my_sqlight.Files.Slices.{
  read_at_front, read_at-prefix, length-write_at, read_at-write_at, read_at-write_at-Apart,
}
use my_sqlight.Storage.Pager.{Pager, page_bytes, read_page, free_page, write_free_list_head}
use my_sqlight.Storage.Pager.Access.{
  read_page-page_at, read_page_sound, with_page, write_page-with_page, with_page-room,
  with_page-page_at,
}
use my_sqlight.Storage.Pager.Header.{HasHeader-behind, HasHeader-head}
use my_sqlight.Storage.Pager.Layout.{
  HasHeader, IsSound, Chain, Chain-same, page_links, header_links,
}

-- The page is read the same from both.
abbrev pub SamePage : Pager → Pager → ℕ → Type 0
SamePage p p' q = read_page p' q ≡ read_page p q

-- The page that `FreePage` writes: the number of the next free page, and zero bytes.
abbrev pub link_page : ℕ → Bytes
link_page head = write_at (replicate page_bytes 0) 0 (put_be 4 head)

pub length-link_page : (head : ℕ) → length (link_page head) ≡ page_bytes
length-link_page head = omega (
  arith,
  length-write_at (replicate page_bytes 0) (put_be 4 head) 0,
  length-put_be 4 head,
  length-replicate {A = ℕ} page_bytes 0,
)

read_at-link_page : (head : ℕ) → take 4 (link_page head) ≡ put_be 4 head
read_at-link_page head =
    sym (read_at_front (link_page head) 4)
    ∙ read_at-write_at (replicate page_bytes 0) (put_be 4 head) 0 4 (sym (length-put_be 4 head))

-- A new head of the free list keeps the pages and, if it begins a chain, the file sound.
module _ (p : Pager) (head : ℕ) (free : List ℕ) where
  pub write_free_list_head_sound :
      p.page_count * page_bytes ≤ length p.pages
      → 0 < p.page_count
      → p.page_count < 2 ^ 32
      → p.catalog_root_page_id < 2 ^ 32
      → p.free_list_head < 2 ^ 32
      → HasHeader p.pages p.page_count p.catalog_root_page_id head
      → Chain p.pages p.page_count p.free_list_head free
      → IsSound (write_free_list_head p) free
        × ((q : ℕ) → 0 < q → q < p.page_count → SamePage p (write_free_list_head p) q)
  unfolding write_free_list_head
  write_free_list_head_sound room some_page count_fits root_fits head_fits header chain = (
    record {
      room = roomy;
      some_page = some_page;
      count_fits = count_fits;
      root_fits = root_fits;
      head_fits = head_fits;
      header =
          HasHeader-head p.pages p.page_count p.catalog_root_page_id head (omega arith) header
            p.free_list_head;
      chain =
          Chain-same p.pages _ p.page_count p.page_count p.free_list_head free (omega arith)
            (header_links p.pages link p.page_count room 27 free
              (omega (arith, length-put_be 4 p.free_list_head)))
            chain;
    },
    λ q positive lt.
        read_page-page_at (write_free_list_head p) q lt roomy
        ∙ ap ok (
            read_at-write_at-Apart p.pages link 27 (q * page_bytes) page_bytes
              (inr (omega (arith, length-put_be 4 p.free_list_head))) (omega arith))
        ∙ sym (read_page-page_at p q lt room),
  )
    where
      link : Bytes
      link = put_be 4 p.free_list_head

      roomy : p.page_count * page_bytes ≤ length (write_at p.pages 27 link)
      roomy = omega (arith, length-write_at p.pages link 27)

module _ (p : Pager) (free : List ℕ) (h : IsSound p free) where
  open h use {room, some_page, count_fits, root_fits, head_fits, header, chain}

  -- The page that becomes the first free one.
  linked : ℕ → Pager
  linked id = record (with_page p room id (link_page p.free_list_head)) { free_list_head = id }

  linked_read :
      (id q : ℕ) → id < p.page_count → q < p.page_count → q ≢ id → SamePage p (linked id) q
  unfolding linked
  linked_read id q lt lt' ne =
      read_page-page_at (linked id) q lt' (with_page-room p room id (link_page p.free_list_head))
      ∙ ap ok (
          with_page-page_at p room id q (link_page p.free_list_head) lt'
            (length-link_page p.free_list_head)
          ∙ ground arith)
      ∙ sym (read_page_sound p free h q lt')

  linked-Chain :
      (id : ℕ)
      → 0 < id
      → id < p.page_count
      → All (λ i. i ≢ id) free
      → Chain (linked id).pages p.page_count id (id ∷ free)
  unfolding linked
  linked-Chain id positive lt used = (
    refl,
    positive,
    lt,
    (
      p.free_list_head,
      head_fits,
      link,
      Chain-same p.pages _ p.page_count p.page_count p.free_list_head free (omega arith)
          (page_links p.pages (link_page p.free_list_head) p.page_count room id free
            (length-link_page p.free_list_head) used)
          chain,
    ),
  )
    where
      link :
          read_at
            (write_at p.pages (id * page_bytes) (link_page p.free_list_head))
            (id * page_bytes)
            4
          ≡ put_be 4 p.free_list_head
      link =
          sym (read_at-prefix _ (id * page_bytes) 4 page_bytes (omega arith))
          ∙ ap (take 4) (
              read_at-write_at p.pages (link_page p.free_list_head) (id * page_bytes) page_bytes
                (sym (length-link_page p.free_list_head)))
          ∙ read_at-link_page p.free_list_head

  abbrev pub Keeps : Pager → Type 0
  Keeps p' = (q : ℕ) → 0 < q → q < p.page_count → SamePage p p' q

  abbrev pub KeepsOthers : ℕ → Pager → Type 0
  KeepsOthers id p' = (q : ℕ) → 0 < q → q < p.page_count → q ≢ id → SamePage p p' q

  pub free_page_outcome :
      (id : ℕ)
      → 0 < id
      → id < p.page_count
      → All (λ i. i ≢ id) free
      → (p' : Pager) × (free_page p id ≡ ok p') × IsSound p' (id ∷ free) × KeepsOthers id p'
  unfolding free_page linked
  free_page_outcome id positive lt used = (
    write_free_list_head (linked id),
    rw
        (write_page-with_page p room id (link_page p.free_list_head) lt
          (length-link_page p.free_list_head))
        refl,
    sound.0,
    λ q positive' lt' ne. sound.1 q positive' lt' ∙ linked_read id q lt lt' ne,
  )
    where
      sound :
          IsSound (write_free_list_head (linked id)) (id ∷ free)
          × ((q : ℕ)
              → 0 < q
              → q < p.page_count
              → SamePage (linked id) (write_free_list_head (linked id)) q)
      sound =
          write_free_list_head_sound (linked id) p.free_list_head (id ∷ free)
            (with_page-room p room id (link_page p.free_list_head)) some_page count_fits root_fits
            (omega arith)
            (HasHeader-behind p.pages p.page_count p.catalog_root_page_id p.free_list_head
              (omega arith) header (id * page_bytes) (link_page p.free_list_head) (omega arith))
            (linked-Chain id positive lt used)

  -- `FreePage` of a page in use, other than the header, succeeds and puts the page before the free
  -- pages. The file stays sound, and any other page but the header is read as before.
  pub free_page_sound :
      (id q : ℕ)
      → 0 < id
      → id < p.page_count
      → All (λ i. i ≢ id) free
      → 0 < q
      → q < p.page_count
      → q ≢ id
      → (p' : Pager) × (free_page p id ≡ ok p') × IsSound p' (id ∷ free) × SamePage p p' q
  free_page_sound id q positive lt used positive' lt' ne =
      let (p', done, sound, same) = free_page_outcome id positive lt used in
      (p', done, sound, same q positive' lt' ne)
