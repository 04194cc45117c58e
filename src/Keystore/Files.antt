-- ===== src/Keystore/Files.antt =====
-- keystore/keystore.go: MemStorage and FileStorage. The file system, with the lock of flock on one file,
-- is a parameter; `Locked` is what flock says of its lock.
use go_iden3_core.Prelude.{Bool, true, not, [], ◌∷◌, ◌++◌, if◌then◌else◌}
use go_iden3_core.Result.{Result, ok, err, storage_unlocked}
use go_iden3_core.Action.{Action, ◌>>=◌, become, current, lift}
use go_iden3_core.Common.{Bytes}
use go_iden3_core.Keystore.{KeyStorage}

abbrev pub mem_storage : KeyStorage
mem_storage = record {
  State = Bytes;
  read = λ ms. ok ms;
  write = λ ms bs. ok bs;
  try_lock = λ ms. (ms, ok true);
  unlock = λ ms. (ms, ok tt);
}

pub record Files : Type 1 where
  pub State : Type 0
  pub read_file : State → Bytes → Result Bytes
  pub write_file : State → Bytes → Bytes → Result State
  pub remove : State → Bytes → Result State
  pub locked : State → Bool
  pub try_lock : State → State × Result Bool
  pub unlock : State → State × Result (Unit {0})

-- ".lock"
abbrev pub lock_text : Bytes
lock_text = 46 ∷ 108 ∷ 111 ∷ 99 ∷ 107 ∷ []

module _ (files : Files) (path : Bytes) where
  -- FileStorage.Read
  unfoldable pub file_read : files.State → Result Bytes
  file_read s = if not (files.locked s) then err storage_unlocked else files.read_file s path

  -- FileStorage.Write
  unfoldable pub file_write : files.State → Bytes → Result files.State
  file_write s bs =
      if not (files.locked s) then err storage_unlocked else files.write_file s path bs

  -- FileStorage.Unlock
  unfoldable pub file_unlock : Action files.State (Unit {0})
  file_unlock = do
    _ ← files.unlock
    s ← current
    s1 ← lift (files.remove s (path ++ lock_text))
    become s1

  -- NewFileStorage, and its methods
  unfoldable pub file_storage : KeyStorage
  file_storage = record {
    State = files.State;
    read = file_read;
    write = file_write;
    try_lock = files.try_lock;
    unlock = file_unlock;
  }
