-- ===== src/Executor/Row/Extends.antt =====
-- The reads of `decodeRow` go on well with more data behind them.
use my_sqlight.Prelude.{
  ℕ, suc, zero, ◌+◌, ◌≡◌, arith, Bool, true, false, List, [], ◌∷◌, ◌++◌, length, length-append, ltb,
  if◌then◌else◌, Bool-cases, inl, inr, Result, ok, err, panic, ◌>>=◌, >>=-eq-ok,
}
use my_sqlight.Bytes.{Bytes, take_be, take_bytes, from_be}
use my_sqlight.Catalog.Schema.{DataType, type_int, type_float, type_text, type_blob, ColumnDef}
use my_sqlight.Executor.Row.Bitmap.{check_bit}
use my_sqlight.Executor.Row.Codec.{RowError, decode_text, decode_cell, decode_column, decode_cells}
use my_sqlight.Executor.Row.RoundTrip.{read_row}

-- A read that goes well goes on well with more data behind, which is then left over.
abbrev pub Extends : {A : Type 0} → (Bytes → Result RowError (A × Bytes)) → Type 0
Extends {A} read =
    (bs more rest : Bytes) (a : A)
    → read bs ≡ ok (a, rest)
    → read (bs ++ more) ≡ ok (a, rest ++ more)

take_bytes-Extends : (n : ℕ) → Extends (take_bytes n)
unfolding take_bytes
take_bytes-Extends zero bs more rest a h = ground arith
take_bytes-Extends (suc n) [] more rest a h = cc
take_bytes-Extends (suc n) (b ∷ bs) more rest a h =
    let ((front, left), read, result) = >>=-eq-ok (take_bytes n bs) _ h in
    rw (take_bytes-Extends n bs more left front read) (ground arith)

module _ {A B : Type 0} where
  bind-Extends :
      (read : Bytes → Result RowError (A × Bytes)) (k : A → Bytes → Result RowError (B × Bytes))
      → Extends read
      → ((a : A) → Extends (k a))
      → Extends (λ bs. read bs >>= λ p. k p.0 p.1)
  bind-Extends read k hr hk bs more rest b h =
      let ((a, left), first, second) = >>=-eq-ok (read bs) _ h in
      rw (hr bs more left a first) (hk a left more rest b second)

  -- A result that is not read from the data.
  const-Extends :
      (r : Result RowError A) (k : A → Bytes → Result RowError (B × Bytes))
      → ((a : A) → Extends (k a))
      → Extends (λ bs. r >>= λ a. k a bs)
  const-Extends (ok a) k hk bs more rest b h = hk a bs more rest b h
  const-Extends (err e) k hk bs more rest b h = cc
  const-Extends panic k hk bs more rest b h = cc

module _ {A : Type 0} where
  pure-Extends : (a : A) → Extends (λ bs. ok (a, bs))
  pure-Extends a bs more rest b h = ground arith

  guard-Extends :
      (n : ℕ) (e : RowError) (read : Bytes → Result RowError (A × Bytes))
      → Extends read
      → Extends (λ bs. if ltb (length bs) n then err e else read bs)
  guard-Extends n e read hr bs more rest a h = elim (Bool-cases (ltb (length bs) n)) [
    | inl short ↦ cc (rw short at h)
    | inr long ↦
        let e : ltb (length (bs ++ more)) n ≡ false = ground (arith, length-append bs more) in
        rw e (hr bs more rest a (rw long at h))
  ]

take_be-Extends : (n : ℕ) → Extends (take_be n)
unfolding take_be
take_be-Extends n =
    bind-Extends (take_bytes n) (λ front rest. ok (from_be 0 front, rest)) (take_bytes-Extends n)
      (λ front. pure-Extends (from_be 0 front))

decode_text-Extends : (e₁ e₂ : RowError) → Extends (decode_text e₁ e₂)
unfolding decode_text
decode_text-Extends e₁ e₂ = guard-Extends 4 e₁ _ (
    bind-Extends (take_be 4) (λ n rest. if ltb (length rest) n then err e₂ else take_bytes n rest)
      (take_be-Extends 4) (λ n. guard-Extends n e₂ (take_bytes n) (take_bytes-Extends n)))

decode_cell-Extends : (t : DataType) → Extends (decode_cell t)
unfolding decode_cell
decode_cell-Extends type_int =
    guard-Extends 8 _ _ (bind-Extends (take_be 8) _ (take_be-Extends 8) (λ w. pure-Extends _))
decode_cell-Extends type_float =
    guard-Extends 8 _ _ (bind-Extends (take_be 8) _ (take_be-Extends 8) (λ w. pure-Extends _))
decode_cell-Extends type_text =
    bind-Extends (decode_text _ _) _ (decode_text-Extends _ _) (λ s. pure-Extends _)
decode_cell-Extends type_blob =
    bind-Extends (decode_text _ _) _ (decode_text-Extends _ _) (λ s. pure-Extends _)

decode_column-Extends : (null : Bool) (t : DataType) → Extends (decode_column null t)
unfolding decode_column
decode_column-Extends true t = pure-Extends _
decode_column-Extends false t = decode_cell-Extends t

decode_cells-Extends :
    (i : ℕ) (cs : List ColumnDef) (bitmap : Bytes) → Extends (decode_cells i cs bitmap)
unfolding decode_cells
decode_cells-Extends i [] bitmap = pure-Extends []
decode_cells-Extends i (c ∷ cs) bitmap = const-Extends (check_bit bitmap i) _ (λ null.
    bind-Extends (decode_column null c.col_type) _ (decode_column-Extends null c.col_type) (λ v.
      bind-Extends (decode_cells (i + 1) cs bitmap) _ (decode_cells-Extends (i + 1) cs bitmap)
        (λ vs. pure-Extends (v ∷ vs))))

pub read_row-Extends : (cs : List ColumnDef) → Extends (read_row cs)
read_row-Extends cs = guard-Extends _ _ _ (
    bind-Extends (take_bytes _) (λ bitmap rest. decode_cells 0 cs bitmap rest)
      (take_bytes-Extends _) (λ bitmap. decode_cells-Extends 0 cs bitmap))
