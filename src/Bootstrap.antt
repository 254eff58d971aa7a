-- ===== src/Bootstrap.antt =====
-- A data root, the store of its record files and its other files, and what is done with one at a
-- start: `initialize_data_root` of src/bms/app/bootstrap.py, and then a method of the store.
pub mod Initialized
use bms_gui.Exec.{Exec, modify, ◌>>◌}
use bms_gui.Store.{World}
use bms_gui.Backup.Files.{Content, Location, Disk, initialize_data_root}

-- The record files, and the directories and the other files, with users.json and roles.json.
pub record DataRoot : Type 0 where
  pub world : World
  pub disk : Disk

-- A method of the store.
unfoldable pub on_store : {A : Type 0} → Exec World A → Exec DataRoot A
on_store action d = let (result, w) = action d.world in (result, record d { world = w })

-- `store = initialize_data_root(data_root)`, and what is done with the store.
unfoldable pub with_store :
    {A : Type 0} → Content × Content → Location → Exec World A → Exec DataRoot A
with_store documents root action =
    modify (λ (d : DataRoot). record d { disk = initialize_data_root documents root d.disk })
    >> on_store action
