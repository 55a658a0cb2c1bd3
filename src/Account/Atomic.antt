-- ===== src/Account/Atomic.antt =====
-- pyzor/account.go: `writeFileAtomic`, as steps on the file and the temporary file beside it. Each
-- system call may fail, and the bytes are written one after another: a crash or a reader may come
-- between any two steps.
pub mod Committed
use gyzor.Prelude.{
  ℕ, zero, suc, ◌≤◌, ◌<◌, ◌≡◌, Bool, true, false, [], Option, none, some, Bytes, length, take,
}

-- Where `writeFileAtomic` stands; at the end, whether it returns without an error.
pub data Point : Type 0 where
  creating setting_mode closing renaming : Point
  writing : ℕ → Point
  removing returned : Bool → Point

pub record Disk : Type 0 where
  pub point : Point
  pub file : Option Bytes
  pub temp : Option Bytes

module _ (old : Option Bytes) (contents : Bytes) where
  abbrev pub before : Disk
  before = record { point = Point.creating; file = old; temp = none }

  pub data DiskStep : Disk → Disk → Type 0 where
    -- `os.CreateTemp`
    create :
        {d : Disk}
        → d.point ≡ Point.creating
        → DiskStep d (record d { point = Point.setting_mode; temp = some [] })
    no_temp :
        {d : Disk}
        → d.point ≡ Point.creating
        → DiskStep d (record d { point = Point.returned false })
    -- `tmp.Chmod`
    set_mode :
        {d : Disk}
        → d.point ≡ Point.setting_mode
        → DiskStep d (record d { point = Point.writing 0 })
    no_mode :
        {d : Disk}
        → d.point ≡ Point.setting_mode
        → DiskStep d (record d { point = Point.removing false })
    -- `tmp.Write`, byte by byte
    write :
        {d : Disk} (k : ℕ)
        → d.point ≡ Point.writing k
        → k < length contents
        → DiskStep d
            (record d { point = Point.writing (suc k); temp = some (take (suc k) contents) })
    no_write :
        {d : Disk} (k : ℕ)
        → d.point ≡ Point.writing k
        → DiskStep d (record d { point = Point.removing false })
    all_written :
        {d : Disk} (k : ℕ)
        → d.point ≡ Point.writing k
        → length contents ≤ k
        → DiskStep d (record d { point = Point.closing })
    -- `tmp.Close`
    close : {d : Disk} → d.point ≡ Point.closing → DiskStep d (record d { point = Point.renaming })
    no_close :
        {d : Disk}
        → d.point ≡ Point.closing
        → DiskStep d (record d { point = Point.removing false })
    -- `os.Rename`
    rename :
        {d : Disk}
        → d.point ≡ Point.renaming
        → DiskStep d (record d { point = Point.removing true; file = d.temp; temp = none })
    no_rename :
        {d : Disk}
        → d.point ≡ Point.renaming
        → DiskStep d (record d { point = Point.removing false })
    -- the deferred `os.Remove`, whose error is not looked at
    remove :
        {d : Disk} (b : Bool)
        → d.point ≡ Point.removing b
        → DiskStep d (record d { point = Point.returned b; temp = none })
    no_remove :
        {d : Disk} (b : Bool)
        → d.point ≡ Point.removing b
        → DiskStep d (record d { point = Point.returned b })

  pub data DiskRun : Disk → Type 0 where
    begin : DiskRun before
    then_step : {d e : Disk} → DiskRun d → DiskStep d e → DiskRun e
