-- ===== src/Diff/Equal.antt =====
-- The comparisons of internal/codegen/diff.go: defaults, references and their actions, caches, and the
-- keys that identify an index or a composite unique.
use pacific_coast.Base.{
  bool_eq, ℕ, Bool, true, false, ◌&&◌, Option, none, some, List, [], ◌∷◌, String, ◌==◌, nat_eq,
  string_eq, ltb, if◌then◌else◌, put, cat, sort_strings,
}
use pacific_coast.Schema.{
  DefaultValue, default_beq, RefAction, ref_action_code, Ref, Cache, Invalidate, InvalWhere,
  consistency_code, Index, IndexField, btree, partial_index, hnsw, gin, vec_ops_name, canonical_key,
  UniqueSpec,
}

unfoldable pub defaults_equal : Option DefaultValue → Option DefaultValue → Bool
defaults_equal none none = true
defaults_equal (some a) (some b) = default_beq a b
defaults_equal _ _ = false

-- `rank` of refActionStrengthened
abbrev pub action_rank : RefAction → ℕ
action_rank RefAction.cascade = 1
action_rank RefAction.set_null = 2
action_rank RefAction.restrict = 3
action_rank RefAction.unset = 3

unfoldable pub ref_action_strengthened : RefAction → RefAction → Bool
ref_action_strengthened old_act new_act = ltb (action_rank old_act) (action_rank new_act)

-- `==` on Ref
ref_beq : Ref → Ref → Bool
ref_beq a b =
    a.target_id == b.target_id
    && a.target_field == b.target_field
    && a.target_table_name == b.target_table_name
    && ref_action_code a.on_delete == ref_action_code b.on_delete
    && ref_action_code a.on_update == ref_action_code b.on_update

unfoldable pub refs_equal : Option Ref → Option Ref → Bool
unfolding ref_beq
refs_equal none none = true
refs_equal (some a) (some b) = ref_beq a b
refs_equal _ _ = false

unfoldable pub slice_eq : List String → List String → Bool
slice_eq [] [] = true
slice_eq (x ∷ xs) (y ∷ ys) = x == y && slice_eq xs ys
slice_eq _ _ = false

where_equal : Option InvalWhere → Option InvalWhere → Bool
where_equal none none = true
where_equal (some a) (some b) = a.field == b.field && a.self_field == b.self_field
where_equal _ _ = false

invalidate_equal : List Invalidate → List Invalidate → Bool
unfolding where_equal
invalidate_equal [] [] = true
invalidate_equal (a ∷ l) (b ∷ m) =
    bool_eq a.self b.self
    && a.target_id == b.target_id
    && where_equal a.where_clause b.where_clause
    && invalidate_equal l m
invalidate_equal _ _ = false

some_cache_equal : Cache → Cache → Bool
unfolding slice_eq invalidate_equal
some_cache_equal a b =
    bool_eq a.has_read_through b.has_read_through
    && a.ttl_ms == b.ttl_ms
    && a.tag == b.tag
    && consistency_code a.consistency == consistency_code b.consistency
    && slice_eq a.tag_fields b.tag_fields
    && invalidate_equal a.invalidate b.invalidate

unfoldable pub cache_equal : Option Cache → Option Cache → Bool
unfolding some_cache_equal
cache_equal none none = true
cache_equal (some a) (some b) = some_cache_equal a b
cache_equal _ _ = false

unfoldable pub index_field_key : IndexField → String
index_field_key f = if f.is_expr then cat "expr:" f.expr else f.name

-- the loop over `idx.Fields`; `sep` is "" at the first field and "," after it
field_keys : String → List IndexField → String
unfolding index_field_key
field_keys sep [] = ""
field_keys sep (f ∷ fs) =
    cat sep (cat (index_field_key f) (cat (if f.desc then " desc" else "") (field_keys "," fs)))

unfoldable pub index_key : Index → String
unfolding field_keys
index_key idx = elim idx.kind [
  | btree ↦ cat "btree:" (field_keys "" idx.fields)
  | partial_index ↦
      cat (if idx.unique then "unique_partial:" else "partial:")
        (cat (field_keys "" idx.fields) (canonical_key idx.where_expr))
  | hnsw ↦ cat "hnsw:" (cat idx.field (cat ":" (vec_ops_name idx.vec_ops)))
  | gin ↦ cat "gin:" idx.field
]

unfoldable pub index_keys_into : List (String × Index) → List Index → List (String × Index)
index_keys_into out [] = out
index_keys_into out (idx ∷ l) = index_keys_into (put out (index_key idx) idx) l

unfoldable pub index_keys : List Index → List (String × Index)
unfolding index_keys_into
index_keys = index_keys_into []

-- strings.Join
unfoldable pub join : String → List String → String
join sep [] = ""
join sep (s ∷ []) = s
join sep (s ∷ t ∷ l) = cat s (cat sep (join sep (t ∷ l)))

unfoldable pub unique_spec_keys_into :
    List (String × UniqueSpec) → List UniqueSpec → List (String × UniqueSpec)
unique_spec_keys_into out [] = out
unique_spec_keys_into out (u ∷ l) =
    unique_spec_keys_into (put out (join "\0" (sort_strings u.fields)) u) l

unfoldable pub unique_spec_keys : List UniqueSpec → List (String × UniqueSpec)
unfolding unique_spec_keys_into
unique_spec_keys = unique_spec_keys_into []
