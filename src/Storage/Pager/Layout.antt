-- ===== src/Storage/Pager/Layout.antt =====
-- The layout of a sound database file, and which writes keep it.
use my_sqlight.Prelude.{
  sym, subst, ltb→lt, ltb, inr, inl, Bool-cases, ◌∙◌, ◌^◌, ◌+◌, length, ◌≤◌, ◌≡◌, List, ◌*◌, ◌<◌,
  ◌≢◌, ℕ, arith, [], ◌∷◌,
}
use my_sqlight.Bytes.{Bytes, put_be}
use my_sqlight.Catalog.Stored.{All}
use my_sqlight.Files.{write_at, read_at}
use my_sqlight.Files.Slices.{Apart, read_at-write_at-Apart}
use my_sqlight.Storage.Pager.{Pager, page_bytes, magic}

-- What the header page says.
pub record HasHeader (file : Bytes) (count root head : ℕ) : Type 0 where
  pub has_magic : read_at file 0 9 ≡ magic
  pub has_count : read_at file 11 4 ≡ put_be 4 count
  pub has_root : read_at file 15 4 ≡ put_be 4 root
  pub has_head : read_at file 27 4 ≡ put_be 4 head

-- The free pages in their order: each holds the number of the next one in its first bytes, and the
-- last one holds 0.
abbrev pub Chain : Bytes → ℕ → ℕ → List ℕ → Type 0
Chain file count head [] = head ≡ 0
Chain file count head (i ∷ is) =
    (head ≡ i)
    × (0 < i)
    × (i < count)
    × ((after : ℕ) × (after < 2 ^ 32)
        × (read_at file (i * page_bytes) 4 ≡ put_be 4 after)
        × Chain file count after is)

-- Every page is in the file, the header says what the pager's fields say, and the free list is
-- linked from its head.
pub record IsSound (p : Pager) (free : List ℕ) : Type 0 where
  pub room : p.page_count * page_bytes ≤ length p.pages
  pub some_page : 0 < p.page_count
  pub count_fits : p.page_count < 2 ^ 32
  pub root_fits : p.catalog_root_page_id < 2 ^ 32
  pub head_fits : p.free_list_head < 2 ^ 32
  pub header : HasHeader p.pages p.page_count p.catalog_root_page_id p.free_list_head
  pub chain : Chain p.pages p.page_count p.free_list_head free

-- A page's link is the same in two files.
abbrev pub SameLink : Bytes → Bytes → ℕ → ℕ → Type 0
SameLink file file' count i =
    0 < i → i < count → read_at file' (i * page_bytes) 4 ≡ read_at file (i * page_bytes) 4

pub Chain-same :
    (file file' : Bytes) (count count' head : ℕ) (free : List ℕ)
    → count ≤ count'
    → All (SameLink file file' count) free
    → Chain file count head free
    → Chain file' count' head free
Chain-same file file' count count' head [] le same h = h
Chain-same file file' count count' head (i ∷ is) le (one, same)
      (e, positive, lt, (after, fits, link, rest)) =
    (
      e,
      positive,
      omega arith,
      (
        after,
        fits,
        one positive lt ∙ link,
        Chain-same file file' count count' after is le same rest,
      ),
    )

All-always : {P : ℕ → Type 0} → ((i : ℕ) → P i) → (is : List ℕ) → All P is
All-always f [] = tt
All-always f (i ∷ is) = (f i, All-always f is)

All-map : {P Q : ℕ → Type 0} → ((i : ℕ) → P i → Q i) → (is : List ℕ) → All P is → All Q is
All-map f [] h = tt
All-map f (i ∷ is) (h, hs) = (f i h, All-map f is hs)

pub pages-Apart :
    (i j n : ℕ) → i ≢ j → n ≤ page_bytes → Apart (i * page_bytes) n (j * page_bytes) page_bytes
pages-Apart i j n ne h = elim (Bool-cases (ltb i j)) [
  | inl lt ↦ inl (omega (arith, ltb→lt i j lt))
  | inr ge ↦ inr (larger (ground arith))
]
  where
    larger : j < i → j * page_bytes + page_bytes ≤ i * page_bytes
    larger lt = omega arith

module _ (file bs : Bytes) (count : ℕ) (room : count * page_bytes ≤ length file) where
  -- A write to the header, and one behind the pages, keep every link.
  pub header_links :
      (o : ℕ) (free : List ℕ)
      → o + length bs ≤ page_bytes
      → All (SameLink file (write_at file o bs) count) free
  header_links o free h =
      All-always
        (λ i positive lt.
          read_at-write_at-Apart file bs o (i * page_bytes) 4 (inr (omega arith)) (omega arith))
        free

  pub new_page_links :
      (o : ℕ) (free : List ℕ)
      → count * page_bytes ≤ o
      → All (SameLink file (write_at file o bs) count) free
  new_page_links o free h =
      All-always
        (λ i positive lt.
          read_at-write_at-Apart file bs o (i * page_bytes) 4 (inl (omega arith)) (omega arith))
        free

  -- A write to one page keeps the links of the others.
  pub page_links :
      (id : ℕ) (free : List ℕ)
      → length bs ≡ page_bytes
      → All (λ i. i ≢ id) free
      → All (SameLink file (write_at file (id * page_bytes) bs) count) free
  page_links id free h others =
      All-map
        (λ i ne positive lt.
          read_at-write_at-Apart file bs (id * page_bytes) (i * page_bytes) 4
            (subst (λ n. Apart (i * page_bytes) 4 (id * page_bytes) n) (sym h)
              (pages-Apart i id 4 ne (omega arith)))
            (omega arith))
        free others
