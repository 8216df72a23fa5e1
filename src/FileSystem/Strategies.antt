-- ===== src/FileSystem/Strategies.antt =====
-- The virtual calls of FileMetadataStrategy: a handle's strategy decides which file it is about.
use nvmefs.Prelude.{ℕ, Bool, Str, ok, err, Cmd, pure}
use nvmefs.Device.{CmdContext}
use nvmefs.Engine.Interface.{BlockDevice}
use nvmefs.FileSystem.State.{Setup, FileSystem, with_temp, with_state, with_metadata}
use nvmefs.Strategy.Defs.{
  db_get_lba, db_file_exists, db_file_size_lba, db_truncate, db_remove_file, db_seek_bound,
  db_is_lba_in_range, db_update_metadata, wal_get_lba, wal_file_exists, wal_file_size_lba,
  wal_truncate, wal_remove_file, wal_seek_bound, wal_is_lba_in_range, wal_update_metadata,
}
use nvmefs.Strategy.Temporary.{
  FileStrategy, temporary_strategy, database_strategy, wal_strategy, RuntimeState, temp_get_lba,
  temp_file_exists, temp_file_size_lba, temp_truncate, temp_remove_file, temp_seek_bound,
  temp_is_lba_in_range,
}

-- A run on one of the two atomic locations of a runtime state.
unfoldable pub on_db {ℓ} : {A : Type ℓ} → Cmd ℕ A → Cmd RuntimeState A
on_db run st = elim (run st.db_location) [
  | ok a l ↦ ok a (record st { db_location = l })
  | err e l ↦ err e (record st { db_location = l })
]

unfoldable pub on_wal {ℓ} : {A : Type ℓ} → Cmd ℕ A → Cmd RuntimeState A
on_wal run st = elim (run st.wal_location) [
  | ok a l ↦ ok a (record st { wal_location = l })
  | err e l ↦ err e (record st { wal_location = l })
]

module _ {d : BlockDevice} (e : Setup) where
  unfoldable pub strategy_get_lba :
      FileStrategy → Str → (nr_bytes location nr_lbas : ℕ) → Cmd (FileSystem d) ℕ
  strategy_get_lba temporary_strategy path nr_bytes location nr_lbas =
      with_temp (temp_get_lba path nr_bytes location nr_lbas e.geometry)
  strategy_get_lba (database_strategy r k) path nr_bytes location nr_lbas =
      pure (db_get_lba r e.geometry location)
  strategy_get_lba (wal_strategy r k) path nr_bytes location nr_lbas =
      pure (wal_get_lba r e.geometry location)

  unfoldable pub strategy_is_lba_in_range :
      FileStrategy → (start count : ℕ) → Cmd (FileSystem d) Bool
  strategy_is_lba_in_range temporary_strategy start count =
      with_metadata (λ g. pure (temp_is_lba_in_range g.tmp_start e.geometry start count))
  strategy_is_lba_in_range (database_strategy r k) start count =
      pure (db_is_lba_in_range r start count)
  strategy_is_lba_in_range (wal_strategy r k) start count = pure (wal_is_lba_in_range r start count)

  unfoldable pub strategy_update_metadata :
      FileStrategy → CmdContext → Cmd (FileSystem d) (Unit {0})
  strategy_update_metadata temporary_strategy ctx = pure tt
  strategy_update_metadata (database_strategy r k) ctx =
      with_state k (on_db (λ l. ok tt (db_update_metadata r ctx.start_lba ctx.nr_lbas l)))
  strategy_update_metadata (wal_strategy r k) ctx =
      with_state k (on_wal (λ l. ok tt (wal_update_metadata r ctx.start_lba ctx.nr_lbas l)))

  unfoldable pub strategy_file_exists : FileStrategy → Str → Cmd (FileSystem d) Bool
  strategy_file_exists temporary_strategy path = with_temp (λ m. ok (temp_file_exists path m) m)
  strategy_file_exists (database_strategy r k) path =
      with_state k (on_db (λ l. ok (db_file_exists r l) l))
  strategy_file_exists (wal_strategy r k) path =
      with_state k (on_wal (λ l. ok (wal_file_exists r l) l))

  unfoldable pub strategy_file_size_lba : FileStrategy → Str → Cmd (FileSystem d) ℕ
  strategy_file_size_lba temporary_strategy path = with_temp (temp_file_size_lba path)
  strategy_file_size_lba (database_strategy r k) path =
      with_state k (on_db (λ l. ok (db_file_size_lba r l) l))
  strategy_file_size_lba (wal_strategy r k) path =
      with_state k (on_wal (λ l. ok (wal_file_size_lba r l) l))

  unfoldable pub strategy_truncate :
      FileStrategy → Str → (new_size : ℕ) → Cmd (FileSystem d) (Unit {0})
  strategy_truncate temporary_strategy path new_size = with_temp (temp_truncate path new_size)
  strategy_truncate (database_strategy r k) path new_size =
      with_state k (on_db (db_truncate r new_size))
  strategy_truncate (wal_strategy r k) path new_size =
      with_state k (on_wal (wal_truncate r new_size))

  unfoldable pub strategy_remove_file : FileStrategy → Str → Cmd (FileSystem d) (Unit {0})
  strategy_remove_file temporary_strategy path = with_temp (temp_remove_file path)
  strategy_remove_file (database_strategy r k) path =
      with_state k (on_db (λ l. ok tt (db_remove_file r l)))
  strategy_remove_file (wal_strategy r k) path =
      with_state k (on_wal (λ l. ok tt (wal_remove_file r l)))

  unfoldable pub strategy_seek_bound : FileStrategy → Str → Cmd (FileSystem d) ℕ
  strategy_seek_bound temporary_strategy path = with_temp (temp_seek_bound path e.geometry)
  strategy_seek_bound (database_strategy r k) path = pure (db_seek_bound r e.geometry)
  strategy_seek_bound (wal_strategy r k) path = pure (wal_seek_bound r e.geometry)
