-- ===== src/Conversions/Protocol.antt =====
-- The messages of logical replication, from the crate `postgres_replication`, with what the program
-- reads of them.
use pg_replicate.Base.{ℕ, Option, List}
use pg_replicate.Base.{Text}
use pg_replicate.Base.Int.{ℤ}

pub data TupleData : Type 0 where
  null unchanged_toast : TupleData
  binary text : List ℕ → TupleData

pub record BeginBody : Type 0 where
  pub final_lsn : ℕ
  pub timestamp : ℤ
  pub xid : ℕ

pub record CommitBody : Type 0 where
  pub flags : ℤ
  pub commit_lsn : ℕ
  pub end_lsn : ℕ
  pub timestamp : ℤ

-- A name that is not UTF-8 is `none`; the numbers are bit patterns.
pub record Column : Type 0 where
  pub name : Option Text
  pub type_id : ℕ
  pub type_modifier : ℕ
  pub flags : ℕ

pub record RelationBody : Type 0 where
  pub rel_id : ℕ
  pub namespace : Option Text
  pub name : Option Text
  pub columns : List Column

pub record InsertBody : Type 0 where
  pub rel_id : ℕ
  pub tuple : List TupleData

pub record UpdateBody : Type 0 where
  pub rel_id : ℕ
  pub old_tuple : Option (List TupleData)
  pub key_tuple : Option (List TupleData)
  pub new_tuple : List TupleData

pub record DeleteBody : Type 0 where
  pub rel_id : ℕ
  pub old_tuple : Option (List TupleData)
  pub key_tuple : Option (List TupleData)

pub record TruncateBody : Type 0 where
  pub options : ℤ
  pub rel_ids : List ℕ

pub data LogicalReplicationMessage : Type 0 where
  begin : BeginBody → LogicalReplicationMessage
  commit : CommitBody → LogicalReplicationMessage
  relation : RelationBody → LogicalReplicationMessage
  insert : InsertBody → LogicalReplicationMessage
  update : UpdateBody → LogicalReplicationMessage
  delete : DeleteBody → LogicalReplicationMessage
  truncate : TruncateBody → LogicalReplicationMessage
  origin type other : LogicalReplicationMessage
