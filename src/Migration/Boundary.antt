-- ===== src/Migration/Boundary.antt =====
-- The storage boundary that the migration manager calls: `export_shard`, `import_shard`,
-- `verify_shard`, `finalize_source` and `discard_target` of a `ShardTransferProvider`. Each call
-- names a node and may raise.
use vsector.Base.{String, Option, some, ◌≡◌}
use vsector.Exec.{Done, Exec, ok}
use vsector.Shard.{Shard}

pub record Transfer (Disk Payload : Type 0) : Type 0 where
  pub digest : Payload → String
  pub export_shard : String → Shard → Exec Disk Payload
  pub import_shard : String → Shard → Payload → Exec Disk Done
  pub verify_shard : String → Shard → Option String → Exec Disk String
  pub finalize_source : String → Shard → Exec Disk Done
  pub discard_target : String → Shard → Exec Disk Done
  -- A verification that returns has found the digest that was expected.
  pub verify_expected :
      (node_id : String) (s : Shard) (expected actual : String) (d : Disk)
      → (verify_shard node_id s (some expected) d).0 ≡ ok actual
      → actual ≡ expected
