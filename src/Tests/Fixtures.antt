-- ===== src/Tests/Fixtures.antt =====
-- Concrete surroundings for the examples: libraries that parse nothing, and a world that records what
-- the destination takes and which positions the loop passes on.
use pg_replicate.Base.{
  ℕ, refl, sym, subst, Bool, true, false, none, some, List, [], ◌∷◌, ◌++◌, ltb, ◌&&◌, if◌then◌else◌,
  ◌+◌, map, inl, inr, All, Any-append_left, ok,
}
use pg_replicate.Schema.Cache
use pg_replicate.Conversions.Cell.{Externals}
use pg_replicate.Conversions.Event.{Event}
use pg_replicate.Replication.Apply.Interface.{Surroundings}
use pg_replicate.Replication.Apply.Loop.Delivery.{IsSafe, Delivers}
use pg_replicate.Workers.Base.{WorkerType}

abbrev pub lower_char : ℕ → ℕ
lower_char c = if ltb 64 c && ltb c 91 then c + 32 else c

abbrev pub ext : Externals ℕ
ext = record {
  from_oid = λ oid. none;
  from_utf8 = λ bytes. some bytes;
  to_lowercase = map lower_char;
  parse_f32 = λ s. none;
  parse_f64 = λ s. none;
  parse_big_decimal = λ s. none;
  parse_date = λ f s. none;
  parse_time = λ f s. none;
  parse_date_time = λ f s. none;
  parse_date_time_tz = λ f s. none;
  parse_uuid = λ s. none;
  parse_json = λ s. none;
  default_float = 0;
  default_big_decimal = 0;
  min_date = 0;
  min_time = 0;
  min_date_time = 0;
  min_date_time_tz = 0;
  default_uuid = 0;
  default_json = 0;
}

-- What the destination has, and the positions that the hook and Postgres were told.
pub record World : Type 0 where
  pub taken : List (Event ℕ)
  pub told : List ℕ

abbrev pub tell : ℕ → Bool → World → World
tell lsn true w = record w { told = lsn ∷ w.told }
tell lsn false w = w

abbrev pub env : Surroundings World ℕ
env = record {
  ext = ext;
  hook = record {
    initialize = λ w. (ok tt, w);
    process_syncing_tables = λ lsn update_state w. (ok true, tell lsn update_state w);
    skip_table = λ table_id w. (ok true, w);
    should_apply_changes = λ table_id lsn w. (ok true, w);
    worker_type = WorkerType.apply;
  };
  link = record {
    now = λ w. (0, w);
    epoch_elapsed = λ w. (ok 0, w);
    standby_status_update = λ write flush apply at w. (ok tt, tell flush true w);
  };
  schema_cache = λ w. Cache.new;
  write_events = λ es w. (ok tt, record w { taken = w.taken ++ es });
  start_logical_replication = λ publication slot lsn w. (ok tt, w);
}

-- Every position that was told is safe.
abbrev pub IsHonestWorld : World → Type 0
IsHonestWorld w = All (IsSafe 100 w.taken) w.told

more :
    (taken es : List (Event ℕ)) (told : List ℕ)
    → All (IsSafe 100 taken) told
    → All (IsSafe 100 (taken ++ es)) told
more taken es [] h = tt
more taken es (lsn ∷ told) (inl e, h) = (inl e, more taken es told h)
more taken es (lsn ∷ told) (inr e, h) = (inr (Any-append_left _ taken es e), more taken es told h)

pub delivers : Delivers env 100 (λ w. w.taken) IsHonestWorld
delivers = record {
  written = λ es done. record { run = λ w (e, h). (rw e refl, more w.taken es w.told h) };
  asked = λ done table_id lsn. record { run = λ w h. h };
  looked = λ done lsn. record { run = λ w h. h };
  synced = λ done lsn safe. record {
    run = λ w (e, h). (e, (subst (λ d. IsSafe 100 d lsn) (sym e) safe, h));
  };
  skipped = λ done table_id. record { run = λ w h. h };
  timed = λ done w h. h;
  stamped = λ done. record { run = λ w h. h };
  reported = λ done write lsn at safe. record {
    run = λ w (e, h). (e, (subst (λ d. IsSafe 100 d lsn) (sym e) safe, h));
  };
}
