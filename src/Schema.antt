-- ===== src/Schema.antt =====
-- The resolved schema, internal/dsl/ir.go: types, defaults, references, indexes, caches, fields and
-- entities. A pointer is an `Option`; a Go `int` that the grammar reads from an unsigned literal is
-- a natural number; an enumeration of Go constants is a data type.
mod Defaults
mod Predicate
pub use Defaults.{DefaultKind, default_kind_code, DefaultValue}
unfoldable pub use Defaults.{float_beq, default_beq}
pub use Predicate.{PredKind, OperandKind, PredOperand, PredExpr, LegacyPred}
unfoldable pub use Predicate.{
  is_legacy_compare_op, is_legacy_literal, as_legacy, legacy_literal_tag, canonical_key,
}
use Prim.Native.String.{slice}
use text.Mathlib.Text.{find?}
use pacific_coast.Base.{ℕ, Bool, List, Option, String, cat, none, some}

-- The flat fields of FieldType.
pub record TypeSpec : Type 0 where
  pub name : String
  pub array : Bool
  pub vec_dim : ℕ
  pub len : ℕ
  pub num_p : ℕ
  pub num_s : ℕ
  pub has_num_p : Bool

-- FieldType: the flat fields, and the element type if `Elem` is not nil.
pub data FieldType : Type 0 where
  no_elem : TypeSpec → FieldType
  with_elem : TypeSpec → FieldType → FieldType

abbrev pub spec : FieldType → TypeSpec
spec (no_elem s) = s
spec (with_elem s t) = s

pub data RefAction : Type 0 where
  unset cascade restrict set_null : RefAction

abbrev pub ref_action_code : RefAction → ℕ
ref_action_code RefAction.unset = 0
ref_action_code RefAction.cascade = 1
ref_action_code RefAction.restrict = 2
ref_action_code RefAction.set_null = 3

pub record Ref : Type 0 where
  pub target_id : String
  pub target_field : String
  pub target_table_name : String
  pub on_delete : RefAction
  pub on_update : RefAction

pub record UniqueSpec : Type 0 where
  pub fields : List String

pub record TableCheck : Type 0 where
  pub name : String
  pub expr : String

pub data IndexKind : Type 0 where
  btree partial_index hnsw gin : IndexKind

pub record IndexField : Type 0 where
  pub name : String
  pub expr : String
  pub is_expr : Bool
  pub desc : Bool

-- VectorOps, with the name that `%s` prints.
pub data VectorOps : Type 0 where
  cosine l2 inner_product : VectorOps

abbrev pub vec_ops_name : VectorOps → String
vec_ops_name cosine = "vector_cosine_ops"
vec_ops_name l2 = "vector_l2_ops"
vec_ops_name inner_product = "vector_ip_ops"

pub record Index : Type 0 where
  pub kind : IndexKind
  pub fields : List IndexField
  pub field : String
  pub vec_ops : VectorOps
  pub where_expr : Option PredExpr
  pub unique : Bool

pub record InvalWhere : Type 0 where
  pub field : String
  pub self_field : String

pub record Invalidate : Type 0 where
  pub self : Bool
  pub target_id : String
  pub where_clause : Option InvalWhere

pub data Consistency : Type 0 where
  default_consistency eventual strict : Consistency

abbrev pub consistency_code : Consistency → ℕ
consistency_code default_consistency = 0
consistency_code eventual = 1
consistency_code strict = 2

pub record Cache : Type 0 where
  pub has_read_through : Bool
  pub ttl_ms : ℕ
  pub tag : String
  pub tag_fields : List String
  pub invalidate : List Invalidate
  pub consistency : Consistency

pub record Field : Type 0 where
  pub name : String
  pub type : FieldType
  pub primary : Bool
  pub identity : Bool
  pub serial : Bool
  pub not_null : Bool
  pub unique : Bool
  pub check : String
  pub backfill : String
  pub default : Option DefaultValue
  pub ref : Option Ref
  pub proto_number : ℕ

pub data RelationKind : Type 0 where
  has_one has_many belongs_to : RelationKind

pub record Relation : Type 0 where
  pub kind : RelationKind
  pub name : String
  pub target_id : String
  pub via : String

pub data EntityKind : Type 0 where
  regular hypertable : EntityKind

pub record Entity : Type 0 where
  pub name : String
  pub namespace : String
  pub kind : EntityKind
  pub time_field : String
  pub fields : List Field
  pub indexes : List Index
  pub relations : List Relation
  pub uniques : List UniqueSpec
  pub checks : List TableCheck
  pub cache : Option Cache
  pub query_timeout_ms : ℕ
  pub composite_pk : List String
  pub soft_delete_field : String
  pub touch_on_update_field : String
  pub partition_field : String
  pub ttl_field : String
  pub table_name : String
  pub retired_proto_numbers : List ℕ

unfoldable pub entity_id : Entity → String
entity_id e = cat e.namespace (cat "." e.name)

-- A custom query or procedure. `body` is the JSON of what the diff compares beside the name and the
-- owner: the inputs, the output or steps, the SQL, the touched entities and the cache.
pub record CustomDecl : Type 0 where
  pub name : String
  pub owner : String
  pub body : String
  pub source_path : String

-- "namespace.Name", with the namespace of the owner "namespace.Entity"
unfoldable pub decl_id : CustomDecl → String
decl_id q = elim (find? q.owner ".") [
  | none ↦ q.name
  | some i ↦ cat (slice q.owner 0 i) (cat "." q.name)
]

-- A background job. The arguments, the schedule and the source position are left out.
pub record Job : Type 0 where
  pub name : String
  pub namespace : String
  pub retries : ℕ
  pub timeout_ms : ℕ
  pub heartbeat_ms : ℕ
  pub queue : String
  pub visible_to : String

unfoldable pub job_id : Job → String
job_id j = cat j.namespace (cat "." j.name)

pub record Ir : Type 0 where
  pub version : ℕ
  pub entities : List Entity
  pub queries : List CustomDecl
  pub procedures : List CustomDecl
  pub jobs : List Job
