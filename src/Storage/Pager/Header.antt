-- ===== src/Storage/Pager/Header.antt =====
-- The header page: which writes change which of its fields.
use my_sqlight.Prelude.{inr, subst, sym, ◌∙◌, ◌+◌, inl, ◌≡◌, length, ◌≤◌, ℕ, arith}
use my_sqlight.Bytes.{Bytes, put_be}
use my_sqlight.Bytes.Laws.{length-put_be}
use my_sqlight.Files.{write_at, read_at}
use my_sqlight.Files.Slices.{Apart, read_at-write_at, read_at-write_at-Apart}
use my_sqlight.Storage.Pager.Layout.{HasHeader}

module _ (file : Bytes) (count root head : ℕ) (long : 31 ≤ length file)
    (h : HasHeader file count root head) where
  pub HasHeader-behind :
      (o : ℕ) (bs : Bytes) → 31 ≤ o → HasHeader (write_at file o bs) count root head
  HasHeader-behind o bs le = record {
    has_magic =
        read_at-write_at-Apart file bs o 0 9 (inl (omega arith)) (omega arith) ∙ h.has_magic;
    has_count =
        read_at-write_at-Apart file bs o 11 4 (inl (omega arith)) (omega arith) ∙ h.has_count;
    has_root = read_at-write_at-Apart file bs o 15 4 (inl (omega arith)) (omega arith) ∙ h.has_root;
    has_head = read_at-write_at-Apart file bs o 27 4 (inl (omega arith)) (omega arith) ∙ h.has_head;
  }

  -- What stands apart from four bytes written.
  kept :
      (o v p n : ℕ) {bs : Bytes}
      → Apart p n o 4
      → p + n ≤ 31
      → read_at file p n ≡ bs
      → read_at (write_at file o (put_be 4 v)) p n ≡ bs
  kept o v p n apart le e =
      read_at-write_at-Apart file (put_be 4 v) o p n
        (subst (Apart p n o) (sym (length-put_be 4 v)) apart) (omega arith)
      ∙ e

  written_back : (o v : ℕ) → read_at (write_at file o (put_be 4 v)) o 4 ≡ put_be 4 v
  written_back o v = read_at-write_at file (put_be 4 v) o 4 (sym (length-put_be 4 v))

  pub HasHeader-count : (v : ℕ) → HasHeader (write_at file 11 (put_be 4 v)) v root head
  HasHeader-count v = record {
    has_magic = kept 11 v 0 9 (inl (omega arith)) (omega arith) h.has_magic;
    has_count = written_back 11 v;
    has_root = kept 11 v 15 4 (inr (omega arith)) (omega arith) h.has_root;
    has_head = kept 11 v 27 4 (inr (omega arith)) (omega arith) h.has_head;
  }

  pub HasHeader-root : (v : ℕ) → HasHeader (write_at file 15 (put_be 4 v)) count v head
  HasHeader-root v = record {
    has_magic = kept 15 v 0 9 (inl (omega arith)) (omega arith) h.has_magic;
    has_count = kept 15 v 11 4 (inl (omega arith)) (omega arith) h.has_count;
    has_root = written_back 15 v;
    has_head = kept 15 v 27 4 (inr (omega arith)) (omega arith) h.has_head;
  }

  pub HasHeader-head : (v : ℕ) → HasHeader (write_at file 27 (put_be 4 v)) count root v
  HasHeader-head v = record {
    has_magic = kept 27 v 0 9 (inl (omega arith)) (omega arith) h.has_magic;
    has_count = kept 27 v 11 4 (inl (omega arith)) (omega arith) h.has_count;
    has_root = kept 27 v 15 4 (inl (omega arith)) (omega arith) h.has_root;
    has_head = written_back 27 v;
  }
