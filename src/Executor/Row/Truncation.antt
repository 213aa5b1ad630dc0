-- ===== src/Executor/Row/Truncation.antt =====
-- `decodeRow` on data of any shape: it does not panic, and it refuses a row that is cut short.
use my_sqlight.Prelude.{
  ℕ, suc, zero, ◌+◌, ◌*◌, ◌/◌, ◌≤◌, ◌≡◌, ◌≢◌, refl, sym, ap, ◌∙◌, arith, Bool, true, false, List,
  [], ◌∷◌, ◌++◌, append-nil, length, length-append, ltb, if◌then◌else◌, Bool-cases, inl, inr, ◌⊎◌,
  Result, ok, err, panic, ◌>>=◌, >>=-eq-ok,
}
use my_sqlight.Bytes.{Bytes, take_be, take_bytes}
use my_sqlight.Catalog.Schema.{
  DataType, type_int, type_float, type_text, type_blob, Value, ColumnDef,
}
use my_sqlight.Executor.Row.Bitmap.{bit_at, check_bit-bit_at}
use my_sqlight.Executor.Row.Codec.{
  RowError, bitmap_size, encode_row, decode_text, decode_cell, decode_column, decode_cells,
  decode_row,
}
use my_sqlight.Executor.Row.Marks.{FitsRow}
use my_sqlight.Executor.Row.RoundTrip.{
  row_bytes, encode_row-row_bytes, read_row, decode_row-read_row, read_row-row_bytes,
}
use my_sqlight.Executor.Row.Extends.{read_row-Extends}

take_bytes_total :
    (n : ℕ) (bs : Bytes)
    → n ≤ length bs
    → (p : Bytes × Bytes) × (take_bytes {E = RowError} n bs ≡ ok p) × (length p.0 ≡ n)
unfolding take_bytes
take_bytes_total zero bs h = (([], bs), refl, refl)
take_bytes_total (suc n) [] h = absurd (omega arith)
take_bytes_total (suc n) (b ∷ bs) h =
    let ((front, rest), e, l) = take_bytes_total n bs (omega arith) in
    ((b ∷ front, rest), rw e, ap suc l)

module _ {A : Type 0} where
  guard-ne-panic :
      (n : ℕ) (e : RowError) (bs : Bytes) (r : Result RowError A)
      → (n ≤ length bs → r ≢ panic)
      → (if ltb (length bs) n then err e else r) ≢ panic
  guard-ne-panic n e bs r h = elim (Bool-cases (ltb (length bs) n)) [
    | inl short ↦ rw short (λ p. cc)
    | inr long ↦ rw long (h (ground arith))
  ]

  >>=-ne-panic :
      {B : Type 0} (r : Result RowError B) (k : B → Result RowError A)
      → r ≢ panic
      → ((b : B) → k b ≢ panic)
      → (r >>= k) ≢ panic
  >>=-ne-panic (ok b) k h hk = hk b
  >>=-ne-panic (err e) k h hk = λ p. cc
  >>=-ne-panic panic k h hk = λ p. h refl

take_bytes-ne-panic : (n : ℕ) (bs : Bytes) → n ≤ length bs → take_bytes {E = RowError} n bs ≢ panic
take_bytes-ne-panic n bs h = let (p, e, _) = take_bytes_total n bs h in rw e (λ q. cc)

take_be-ne-panic : (n : ℕ) (bs : Bytes) → n ≤ length bs → take_be {E = RowError} n bs ≢ panic
unfolding take_be
take_be-ne-panic n bs h = >>=-ne-panic _ _ (take_bytes-ne-panic n bs h) (λ p q. cc)

decode_text-ne-panic : (e₁ e₂ : RowError) (bs : Bytes) → decode_text e₁ e₂ bs ≢ panic
unfolding decode_text
decode_text-ne-panic e₁ e₂ bs = guard-ne-panic 4 e₁ bs _ (λ h.
    >>=-ne-panic _ _ (take_be-ne-panic 4 bs h)
      (λ p. guard-ne-panic p.0 e₂ p.1 _ (take_bytes-ne-panic p.0 p.1)))

decode_cell-ne-panic : (t : DataType) (bs : Bytes) → decode_cell t bs ≢ panic
unfolding decode_cell
decode_cell-ne-panic type_int bs =
    guard-ne-panic 8 _ bs _ (λ h. >>=-ne-panic _ _ (take_be-ne-panic 8 bs h) (λ p q. cc))
decode_cell-ne-panic type_float bs =
    guard-ne-panic 8 _ bs _ (λ h. >>=-ne-panic _ _ (take_be-ne-panic 8 bs h) (λ p q. cc))
decode_cell-ne-panic type_text bs = >>=-ne-panic _ _ (decode_text-ne-panic _ _ bs) (λ p q. cc)
decode_cell-ne-panic type_blob bs = >>=-ne-panic _ _ (decode_text-ne-panic _ _ bs) (λ p q. cc)

decode_column-ne-panic : (null : Bool) (t : DataType) (bs : Bytes) → decode_column null t bs ≢ panic
unfolding decode_column
decode_column-ne-panic true t bs = λ q. cc
decode_column-ne-panic false t bs = decode_cell-ne-panic t bs

decode_cells-ne-panic :
    (i : ℕ) (cs : List ColumnDef) (bitmap bs : Bytes)
    → i + length cs ≤ 8 * length bitmap
    → decode_cells i cs bitmap bs ≢ panic
unfolding decode_cells
decode_cells-ne-panic i [] bitmap bs h = λ q. cc
decode_cells-ne-panic i (c ∷ cs) bitmap bs h =
    rw (check_bit-bit_at {E = RowError} bitmap i (omega arith)) (
      >>=-ne-panic _ _ (decode_column-ne-panic (bit_at bitmap i) c.col_type bs) (λ p.
        >>=-ne-panic _ _ (decode_cells-ne-panic (i + 1) cs bitmap p.1 (omega arith)) (λ r q. cc)))

-- `decodeRow` panics on no data and for no columns: every read is behind a test of the length, and
-- every bit that it looks at lies in the bitmap.
pub decode_row-ne-panic : (bs : Bytes) (cs : List ColumnDef) → decode_row bs cs ≢ panic
unfolding decode_row bitmap_size
decode_row-ne-panic bs cs = guard-ne-panic ((length cs + 7) / 8) _ bs _ (λ h.
    let ((bitmap, rest), e, l) = take_bytes_total ((length cs + 7) / 8) bs h in
    rw e (>>=-ne-panic _ _ (decode_cells-ne-panic 0 cs bitmap rest (omega arith)) (λ r q. cc)))

Result-cases :
    {A : Type 0} (r : Result RowError A)
    → r ≢ panic
    → ((a : A) × (r ≡ ok a)) ⊎ ((e : RowError) × (r ≡ err e))
Result-cases (ok a) h = inl (a, refl)
Result-cases (err e) h = inr (e, refl)
Result-cases panic h = absurd (h refl)

-- A row that fits its columns and is cut short anywhere is refused with an error: no proper prefix
-- of what `encodeRow` writes is taken for a row.
pub decode_row_truncated :
    (vs : List Value) (cs : List ColumnDef) (front back : Bytes) (x : ℕ)
    → FitsRow vs cs
    → encode_row vs cs ≡ ok (front ++ (x ∷ back))
    → (e : RowError) × (decode_row front cs ≡ err e)
decode_row_truncated vs cs front back x h written =
    elim (Result-cases (decode_row front cs) (decode_row-ne-panic front cs)) [
      | inr refused ↦ refused
      | inl (row, accepted) ↦
          let ((values, left), whole, _) =
            >>=-eq-ok (read_row cs front) _ (sym (decode_row-read_row front cs) ∙ accepted) in
          absurd (clash left values (read_row-Extends cs front (x ∷ back) left values whole))
    ]
  where
    clash :
        (left : Bytes) (values : List Value)
        → read_row cs (front ++ (x ∷ back)) ≡ ok (values, left ++ (x ∷ back))
        → ⊥
    clash left values e = ground (
      arith,
      encode_row-row_bytes vs cs h,
      append-nil (row_bytes vs cs),
      read_row-row_bytes vs cs [] h,
      length-append left (x ∷ back),
    )
