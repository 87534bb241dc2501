-- ===== src/Storage/Invariant.antt =====
-- What a vault's database is to satisfy between two transactions, and the rules by which the
-- stores' writes keep it.
pub mod Backing
pub mod Accounting
pub mod Sequence
use synch.Storage.Rows.{Database}
use Backing.{AllBacked}
use Accounting.{IsCounted}
use Sequence.{IsSequenced}

pub record IsConsistent (db : Database) : Type 0 where
  -- Every current entry that names a blob names one that is recorded as live.
  pub backed : AllBacked db.blobs db.entries
  -- The storage counter is the sum of the sizes of the recorded blobs.
  pub counted : IsCounted db.state db.blobs
  -- No two entries share a cursor, and none is ahead of the vault's cursor.
  pub sequenced : IsSequenced db.state db.entries
