-- ===== src/Parser/Ast.antt =====
-- The expressions of parser/ast.go, and the clauses that hold them. A string that the source
-- compares with fixed words is one of those words, or any `other` text.
use my_sqlight.Prelude.{Bool, Option, List, ℕ}
use my_sqlight.Bytes.{Bytes}

pub data BinaryOp : Type 0 where
  op_eq op_ne op_lt op_gt op_le op_ge : BinaryOp
  op_add op_sub op_mul op_div op_mod : BinaryOp
  op_and op_or op_like : BinaryOp
  op_other : Bytes → BinaryOp

pub data UnaryOp : Type 0 where
  op_neg op_not : UnaryOp
  unary_other : Bytes → UnaryOp

pub data LiteralKind : Type 0 where
  kind_integer kind_float kind_string kind_null : LiteralKind
  kind_other : Bytes → LiteralKind

-- `literal` holds the kind and the raw text, `column_ref` the table and the column, `func_call`
-- the name, the arguments and whether they are `*`.
mutual
  pub data Expr : Type 0 where
    binary : Expr → BinaryOp → Expr → Expr
    unary : UnaryOp → Expr → Expr
    column_ref : Bytes → Bytes → Expr
    literal : LiteralKind → Bytes → Expr
    func_call : Bytes → Exprs → Bool → Expr
    star_expr : Expr

  pub data Exprs : Type 0 where
    no_exprs : Exprs
    one_more : Expr → Exprs → Exprs

pub record OrderClause : Type 0 where
  pub expr : Expr
  pub desc : Bool

pub record JoinClause : Type 0 where
  pub table : Bytes
  pub alias : Bytes
  pub on : Option Expr

pub record SelectStmt : Type 0 where
  pub columns : List Expr
  pub from : Bytes
  pub joins : List JoinClause
  pub condition : Option Expr
  pub group_by : List Expr
  pub having : Option Expr
  pub order_by : List OrderClause
  pub limit : Option ℕ
