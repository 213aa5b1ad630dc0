-- ===== src/Parser/Lexer/Words.antt =====
-- Token types, tokens and the keywords of parser/lexer.go.
use my_sqlight.Prelude.{ℕ, List, [], ◌∷◌}
use my_sqlight.Maps.{Map}

abbrev pub Runes : Type 0
Runes = List ℕ

pub data TokenType : Type 0 where
  token_eof token_ident token_integer token_float token_string token_select token_from : TokenType
  token_where token_insert token_into token_values token_update token_set token_delete : TokenType
  token_create token_table token_drop token_index token_on token_primary token_key : TokenType
  token_not token_null token_default token_begin token_commit token_rollback token_and : TokenType
  token_or token_like token_order token_by token_limit token_join token_inner token_left : TokenType
  token_group token_having token_count token_sum token_min token_max token_avg : TokenType
  token_references token_foreign token_unique token_analyze token_desc token_lparen : TokenType
  token_rparen token_comma token_semicolon token_dot token_star token_eq token_lt : TokenType
  token_gt token_lt_eq token_gt_eq token_not_eq token_plus token_minus token_slash : TokenType
  token_percent token_err : TokenType

pub record Token : Type 0 where
  pub token_type : TokenType
  pub literal : Runes
  pub line : ℕ

-- Each keyword in lower case, with its token type.
abbrev pub keywords : Map Runes TokenType
keywords =
    -- select
    (115 ∷ 101 ∷ 108 ∷ 101 ∷ 99 ∷ 116 ∷ [], token_select)
    ∷
        -- from
        (102 ∷ 114 ∷ 111 ∷ 109 ∷ [], token_from)
    ∷
        -- where
        (119 ∷ 104 ∷ 101 ∷ 114 ∷ 101 ∷ [], token_where)
    ∷
        -- insert
        (105 ∷ 110 ∷ 115 ∷ 101 ∷ 114 ∷ 116 ∷ [], token_insert)
    ∷
        -- into
        (105 ∷ 110 ∷ 116 ∷ 111 ∷ [], token_into)
    ∷
        -- values
        (118 ∷ 97 ∷ 108 ∷ 117 ∷ 101 ∷ 115 ∷ [], token_values)
    ∷
        -- update
        (117 ∷ 112 ∷ 100 ∷ 97 ∷ 116 ∷ 101 ∷ [], token_update)
    ∷
        -- set
        (115 ∷ 101 ∷ 116 ∷ [], token_set)
    ∷
        -- delete
        (100 ∷ 101 ∷ 108 ∷ 101 ∷ 116 ∷ 101 ∷ [], token_delete)
    ∷
        -- create
        (99 ∷ 114 ∷ 101 ∷ 97 ∷ 116 ∷ 101 ∷ [], token_create)
    ∷
        -- table
        (116 ∷ 97 ∷ 98 ∷ 108 ∷ 101 ∷ [], token_table)
    ∷
        -- drop
        (100 ∷ 114 ∷ 111 ∷ 112 ∷ [], token_drop)
    ∷
        -- index
        (105 ∷ 110 ∷ 100 ∷ 101 ∷ 120 ∷ [], token_index)
    ∷
        -- on
        (111 ∷ 110 ∷ [], token_on)
    ∷
        -- primary
        (112 ∷ 114 ∷ 105 ∷ 109 ∷ 97 ∷ 114 ∷ 121 ∷ [], token_primary)
    ∷
        -- key
        (107 ∷ 101 ∷ 121 ∷ [], token_key)
    ∷
        -- not
        (110 ∷ 111 ∷ 116 ∷ [], token_not)
    ∷
        -- null
        (110 ∷ 117 ∷ 108 ∷ 108 ∷ [], token_null)
    ∷
        -- default
        (100 ∷ 101 ∷ 102 ∷ 97 ∷ 117 ∷ 108 ∷ 116 ∷ [], token_default)
    ∷
        -- begin
        (98 ∷ 101 ∷ 103 ∷ 105 ∷ 110 ∷ [], token_begin)
    ∷
        -- commit
        (99 ∷ 111 ∷ 109 ∷ 109 ∷ 105 ∷ 116 ∷ [], token_commit)
    ∷
        -- rollback
        (114 ∷ 111 ∷ 108 ∷ 108 ∷ 98 ∷ 97 ∷ 99 ∷ 107 ∷ [], token_rollback)
    ∷
        -- and
        (97 ∷ 110 ∷ 100 ∷ [], token_and)
    ∷
        -- or
        (111 ∷ 114 ∷ [], token_or)
    ∷
        -- like
        (108 ∷ 105 ∷ 107 ∷ 101 ∷ [], token_like)
    ∷
        -- order
        (111 ∷ 114 ∷ 100 ∷ 101 ∷ 114 ∷ [], token_order)
    ∷
        -- by
        (98 ∷ 121 ∷ [], token_by)
    ∷
        -- limit
        (108 ∷ 105 ∷ 109 ∷ 105 ∷ 116 ∷ [], token_limit)
    ∷
        -- join
        (106 ∷ 111 ∷ 105 ∷ 110 ∷ [], token_join)
    ∷
        -- inner
        (105 ∷ 110 ∷ 110 ∷ 101 ∷ 114 ∷ [], token_inner)
    ∷
        -- left
        (108 ∷ 101 ∷ 102 ∷ 116 ∷ [], token_left)
    ∷
        -- group
        (103 ∷ 114 ∷ 111 ∷ 117 ∷ 112 ∷ [], token_group)
    ∷
        -- having
        (104 ∷ 97 ∷ 118 ∷ 105 ∷ 110 ∷ 103 ∷ [], token_having)
    ∷
        -- count
        (99 ∷ 111 ∷ 117 ∷ 110 ∷ 116 ∷ [], token_count)
    ∷
        -- sum
        (115 ∷ 117 ∷ 109 ∷ [], token_sum)
    ∷
        -- min
        (109 ∷ 105 ∷ 110 ∷ [], token_min)
    ∷
        -- max
        (109 ∷ 97 ∷ 120 ∷ [], token_max)
    ∷
        -- avg
        (97 ∷ 118 ∷ 103 ∷ [], token_avg)
    ∷
        -- references
        (114 ∷ 101 ∷ 102 ∷ 101 ∷ 114 ∷ 101 ∷ 110 ∷ 99 ∷ 101 ∷ 115 ∷ [], token_references)
    ∷
        -- foreign
        (102 ∷ 111 ∷ 114 ∷ 101 ∷ 105 ∷ 103 ∷ 110 ∷ [], token_foreign)
    ∷
        -- unique
        (117 ∷ 110 ∷ 105 ∷ 113 ∷ 117 ∷ 101 ∷ [], token_unique)
    ∷
        -- analyze
        (97 ∷ 110 ∷ 97 ∷ 108 ∷ 121 ∷ 122 ∷ 101 ∷ [], token_analyze)
    ∷
        -- desc
        (100 ∷ 101 ∷ 115 ∷ 99 ∷ [], token_desc)
    ∷ []
