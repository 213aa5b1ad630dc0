-- ===== src/Storage/Pool/Pins.antt =====
-- A page that somebody has pinned stays in the pool.
use my_sqlight.Prelude.{
  ◌+◌, Bool-cases, ==_iff, ◌==◌, ◌∙◌, sym, ap, reverse, Option-cases, ◌≤◌, ◌⊎◌, ◌≢◌, Result, ◌≡◌,
  List, ℕ, [], ◌∷◌, true, some, ok, err, panic, refl, arith, inl, inr,
}
use my_sqlight.Maps.{Map, nat_eq, find, put, find-put, find-delete}
use my_sqlight.Wal.Log.{WriteOutcome}
use my_sqlight.Storage.Pool.{
  read_page, Bytes, Page, BufferPool, write_wal_update, flush_page, walk_back, find_victim, forget,
  evict_page, evict, load_page, make_room, fetch_missing, fetch_page,
}

write_wal_update-frames :
    (log : ℕ → WriteOutcome) (id : ℕ) (after : Bytes) (bp : BufferPool)
    → (write_wal_update log id after bp).frames ≡ bp.frames
unfolding write_wal_update
write_wal_update-frames log id after bp = ground arith

flush_page-frames :
    (log : ℕ → WriteOutcome) (id : ℕ) (page : Page) (bp : BufferPool)
    → (flush_page log id page bp).1.frames ≡ bp.frames
unfolding flush_page
flush_page-frames log id page bp = ground (arith, write_wal_update-frames log id page.contents bp)

-- The victim is a page that nobody has pinned.
walk_back-unpinned :
    (ids : List ℕ) (frames : Map ℕ Page) (v : ℕ) (page : Page)
    → walk_back ids frames ≡ ok v
    → find v frames ≡ some page
    → page.pin_count ≡ 0
unfolding walk_back
walk_back-unpinned [] frames v page e f = cc
walk_back-unpinned (id ∷ ids) frames v page e f =
    ground (arith, walk_back-unpinned ids frames v page)

find_victim-unpinned :
    (ids : List ℕ) (frames : Map ℕ Page) (v : ℕ) (page : Page)
    → find_victim ids frames ≡ ok v
    → find v frames ≡ some page
    → page.pin_count ≡ 0
unfolding find_victim
find_victim-unpinned [] frames v page e f = cc
find_victim-unpinned (id ∷ ids) frames v page e f = walk_back-unpinned (id ∷ ids) frames v page e f

outcome-cases :
    {E A : Type 0} (r : Result E A)
    → ((a : A) × (r ≡ ok a)) ⊎ (((e : E) × (r ≡ err e)) ⊎ (r ≡ panic))
outcome-cases (ok a) = inl (a, refl)
outcome-cases (err e) = inr (inl (e, refl))
outcome-cases panic = inr (inr refl)

find-put_other :
    (q id : ℕ) (page : Page) (frames : Map ℕ Page)
    → q ≢ id
    → find q (put id page frames) ≡ find q frames
find-put_other q id page frames ne = ground (arith, find-put q id page frames)

module _ (q : ℕ) (page : Page) where
  evict_page-pinned :
      (log : ℕ → WriteOutcome) (v : ℕ) (bp : BufferPool)
      → find q bp.frames ≡ some page
      → q ≢ v
      → find q (evict_page log v bp).1.frames ≡ some page
  unfolding evict_page forget
  evict_page-pinned log v bp here ne = elim (Option-cases (find v bp.frames)) [
    | inl none_there ↦ rw (none_there, evict_page) here
    | inr (p, there) ↦
        rw (there, evict_page)
          (ground
            (arith, flush_page-frames log v p bp, find-delete q v (flush_page log v p bp).1.frames))
  ]

  evict-pinned :
      (log : ℕ → WriteOutcome) (bp : BufferPool)
      → find q bp.frames ≡ some page
      → page.pin_count ≢ 0
      → find q (evict log bp).1.frames ≡ some page
  unfolding evict
  evict-pinned log bp here pinned =
      elim (outcome-cases (find_victim (reverse bp.lru_list) bp.frames)) [
        | inl (v, e) ↦
            let other : q ≢ v = λ same. pinned (
              find_victim-unpinned (reverse bp.lru_list) bp.frames v page e
                (ap (λ i. find i bp.frames) (sym same) ∙ here)) in
            rw (e, evict) (ground (arith, evict_page-pinned log v bp here other))
        | inr (inl (f, e)) ↦ rw (e, evict) here
        | inr (inr e) ↦ rw (e, evict) here
      ]

  make_room-pinned :
      (log : ℕ → WriteOutcome) (bp : BufferPool)
      → find q bp.frames ≡ some page
      → page.pin_count ≢ 0
      → find q (make_room log bp).1.frames ≡ some page
  unfolding make_room
  make_room-pinned log bp here pinned = ground (arith, evict-pinned log bp here pinned)

  load_page-pinned :
      (id : ℕ) (bp : BufferPool)
      → find q bp.frames ≡ some page
      → q ≢ id
      → find q (load_page id bp).1.frames ≡ some page
  unfolding load_page
  load_page-pinned id bp here ne = elim (outcome-cases (read_page bp.pager id)) [
    | inl (bytes, e) ↦ rw (e, load_page) (find-put_other q id _ bp.frames ne ∙ here)
    | inr (inl (f, e)) ↦ rw (e, load_page) here
    | inr (inr e) ↦ rw (e, load_page) here
  ]

  fetch_missing-pinned :
      (log : ℕ → WriteOutcome) (id : ℕ) (bp : BufferPool)
      → find q bp.frames ≡ some page
      → page.pin_count ≢ 0
      → q ≢ id
      → find q (fetch_missing log id bp).1.frames ≡ some page
  unfolding fetch_missing
  fetch_missing-pinned log id bp here pinned ne = ground (
    arith,
    make_room-pinned log bp here pinned,
    load_page-pinned id (make_room log bp).1 (make_room-pinned log bp here pinned) ne,
  )

-- `FetchPage` of any page leaves a page that somebody has pinned in the pool, with its bytes, and
-- pinned at least as often as before, whether the call succeeds or not, and whatever becomes of the
-- write to the log.
pub fetch_page-pinned :
    (log : ℕ → WriteOutcome) (id q : ℕ) (page : Page) (bp : BufferPool)
    → find q bp.frames ≡ some page
    → page.pin_count ≢ 0
    → (page' : Page) × (find q (fetch_page log id bp).1.frames ≡ some page')
      × (page'.contents ≡ page.contents)
      × (page.pin_count ≤ page'.pin_count)
unfolding fetch_page
fetch_page-pinned log id q page bp here pinned = elim (Option-cases (find id bp.frames)) [
  | inl missing ↦ (
    page,
    rw (missing, fetch_page)
        (fetch_missing-pinned q page log id bp here pinned
          (λ same. cc (sym missing ∙ ap (λ i. find i bp.frames) (sym same) ∙ here))),
    refl,
    omega arith,
  )
  | inr (p, there) ↦ elim (Bool-cases (q == id)) [
    | inl same ↦ (
      record p { pin_count = p.pin_count + 1 },
      rw (there, fetch_page) (find-put q id _ bp.frames ∙ rw same refl),
      ap (λ x. x.contents) (own p there same),
      omega (arith, ap (λ x. x.pin_count) (own p there same)),
    )
    | inr other ↦ (
      page,
      rw (there, fetch_page) (find-put_other q id _ bp.frames (λ same. ground arith) ∙ here),
      refl,
      omega arith,
    )
  ]
]
  where
    own : (p : Page) → find id bp.frames ≡ some p → (q == id) ≡ true → p ≡ page
    own p there same =
        cc (sym there ∙ ap (λ i. find i bp.frames) (sym ((==_iff q id).0 same)) ∙ here)
