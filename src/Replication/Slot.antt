-- ===== src/Replication/Slot.antt =====
-- etl/src/replication/slot.rs: the names of replication slots.
pub mod Names
use pg_replicate.Base.{
  ℕ, zero, suc, ◌+◌, ◌/◌, ◌%◌, List, [], ◌∷◌, ◌++◌, codes, Result, ok, err, ltb, if◌then◌else◌,
  length,
}
use pg_replicate.Base.{Text}
use pg_replicate.Workers.Base.{WorkerType, apply, table_sync}

abbrev pub max_slot_name_length : ℕ
max_slot_name_length = 63

pub data SlotError : Type 0 where
  name_too_long : SlotError

-- The decimal digits of `n` in front of `out`; `fuel` is more than enough at `n + 1` rounds.
pub print_digits : ℕ → ℕ → Text → Text
print_digits zero n out = out
print_digits (suc fuel) n out =
    let more = print_digits fuel (n / 10) ((48 + n % 10) ∷ out) in
    if ltb n 10 then (48 + n) ∷ out else more

-- `Display` of an unsigned integer.
pub decimal : ℕ → Text
unfolding print_digits
decimal n = print_digits (suc n) n []

abbrev pub apply_worker_prefix : Text
apply_worker_prefix = codes "supabase_etl_apply"

abbrev pub table_sync_prefix : Text
table_sync_prefix = codes "supabase_etl_table_sync"

-- The names are ASCII, so that `len` counts the characters.
pub slot_name : ℕ → WorkerType → Text
unfolding decimal
slot_name pipeline_id apply = apply_worker_prefix ++ b'_' ∷ decimal pipeline_id
slot_name pipeline_id (table_sync table_id) =
    table_sync_prefix ++ b'_' ∷ decimal pipeline_id ++ b'_' ∷ decimal table_id

unfoldable pub get_slot_name : ℕ → WorkerType → Result SlotError Text
unfolding slot_name
get_slot_name pipeline_id worker_type =
    let name = slot_name pipeline_id worker_type in
    if ltb max_slot_name_length (length name) then err name_too_long else ok name
