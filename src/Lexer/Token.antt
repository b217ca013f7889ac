-- ===== src/Lexer/Token.antt =====
-- Tokens, internal/dsl/token.go.
use pacific_coast.Base.{ℕ, String, List, [], ◌∷◌}

pub data TokenKind : Type 0 where
  tok_error tok_eof tok_ident tok_int tok_float tok_string tok_duration : TokenKind
  tok_l_brace tok_r_brace tok_l_paren tok_r_paren tok_l_bracket tok_r_bracket : TokenKind
  tok_comma tok_colon tok_d_colon tok_equals tok_not_eq tok_lt tok_le tok_gt : TokenKind
  tok_ge tok_dot tok_entity tok_hypertable tok_in tok_primary tok_identity : TokenKind
  tok_serial tok_not tok_null tok_unique tok_default tok_check tok_backfill : TokenKind
  tok_references tok_has_many tok_has_one tok_via tok_index tok_by tok_on tok_hnsw : TokenKind
  tok_ops tok_cosine tok_l2 tok_ip tok_gin tok_partial tok_where tok_is tok_asc : TokenKind
  tok_desc tok_cache tok_read_through tok_ttl tok_tag tok_invalidate_on tok_write : TokenKind
  tok_self tok_consistency tok_strict tok_eventual tok_query_timeout : TokenKind
  tok_soft_delete tok_touch_on_update tok_partition tok_table tok_expr tok_as : TokenKind
  tok_deferrable tok_true tok_false tok_now tok_raw tok_delete tok_update : TokenKind
  tok_cascade tok_restrict tok_set tok_query tok_procedure tok_for tok_input : TokenKind
  tok_output tok_steps tok_sql tok_touches tok_invalidate tok_insert : TokenKind
  tok_arg_placeholder tok_job tok_args tok_schedule tok_queue tok_retries : TokenKind
  tok_timeout tok_heartbeat tok_enqueue tok_visible_to tok_ttl_field tok_workflow : TokenKind
  tok_step tok_compensate tok_state tok_ephemeral : TokenKind

abbrev pub keywords : List (String × TokenKind)
keywords =
    ("entity", tok_entity)
    ∷ ("hypertable", tok_hypertable)
    ∷ ("in", tok_in)
    ∷ ("primary", tok_primary)
    ∷ ("identity", tok_identity)
    ∷ ("serial", tok_serial)
    ∷ ("not", tok_not)
    ∷ ("null", tok_null)
    ∷ ("unique", tok_unique)
    ∷ ("default", tok_default)
    ∷ ("check", tok_check)
    ∷ ("backfill", tok_backfill)
    ∷ ("references", tok_references)
    ∷ ("has_many", tok_has_many)
    ∷ ("has_one", tok_has_one)
    ∷ ("via", tok_via)
    ∷ ("index", tok_index)
    ∷ ("by", tok_by)
    ∷ ("on", tok_on)
    ∷ ("hnsw", tok_hnsw)
    ∷ ("ops", tok_ops)
    ∷ ("cosine", tok_cosine)
    ∷ ("l2", tok_l2)
    ∷ ("ip", tok_ip)
    ∷ ("gin", tok_gin)
    ∷ ("partial", tok_partial)
    ∷ ("where", tok_where)
    ∷ ("is", tok_is)
    ∷ ("asc", tok_asc)
    ∷ ("desc", tok_desc)
    ∷ ("cache", tok_cache)
    ∷ ("read_through", tok_read_through)
    ∷ ("ttl", tok_ttl)
    ∷ ("tag", tok_tag)
    ∷ ("invalidate_on", tok_invalidate_on)
    ∷ ("write", tok_write)
    ∷ ("self", tok_self)
    ∷ ("consistency", tok_consistency)
    ∷ ("strict", tok_strict)
    ∷ ("eventual", tok_eventual)
    ∷ ("query_timeout", tok_query_timeout)
    ∷ ("soft_delete", tok_soft_delete)
    ∷ ("touch_on_update", tok_touch_on_update)
    ∷ ("partition", tok_partition)
    ∷ ("table", tok_table)
    ∷ ("expr", tok_expr)
    ∷ ("as", tok_as)
    ∷ ("deferrable", tok_deferrable)
    ∷ ("true", tok_true)
    ∷ ("false", tok_false)
    ∷ ("now", tok_now)
    ∷ ("raw", tok_raw)
    ∷ ("delete", tok_delete)
    ∷ ("update", tok_update)
    ∷ ("cascade", tok_cascade)
    ∷ ("restrict", tok_restrict)
    ∷ ("set", tok_set)
    ∷ ("query", tok_query)
    ∷ ("procedure", tok_procedure)
    ∷ ("for", tok_for)
    ∷ ("input", tok_input)
    ∷ ("output", tok_output)
    ∷ ("steps", tok_steps)
    ∷ ("sql", tok_sql)
    ∷ ("touches", tok_touches)
    ∷ ("invalidate", tok_invalidate)
    ∷ ("insert", tok_insert)
    ∷ ("job", tok_job)
    ∷ ("args", tok_args)
    ∷ ("schedule", tok_schedule)
    ∷ ("queue", tok_queue)
    ∷ ("retries", tok_retries)
    ∷ ("timeout", tok_timeout)
    ∷ ("heartbeat", tok_heartbeat)
    ∷ ("enqueue", tok_enqueue)
    ∷ ("visible_to", tok_visible_to)
    ∷ ("ttl_field", tok_ttl_field)
    ∷ ("workflow", tok_workflow)
    ∷ ("step", tok_step)
    ∷ ("compensate", tok_compensate)
    ∷ ("state", tok_state)
    ∷ ("ephemeral", tok_ephemeral)
    ∷ []

-- the byte offset is `byte`; `line` and `col` count from 1
pub record Position : Type 0 where
  pub file : String
  pub line : ℕ
  pub col : ℕ
  pub byte : ℕ

-- why the lexer gives an error token
pub data LexError : Type 0 where
  unterminated_sql lone_bang no_name_after_dollar unexpected_character : LexError
  unterminated_escape unknown_escape newline_in_string end_in_string : LexError

-- the text of a token, as bytes, or what is wrong
pub data Value : Type 0 where
  text : List ℕ → Value
  problem : LexError → Value

pub record Token : Type 0 where
  pub kind : TokenKind
  pub value : Value
  pub pos : Position
