-- ===== src/Account/Atomic/Committed.antt =====
-- The accounts file is never half written.
use gyzor.Prelude.{
  ℕ, zero, suc, ◌≤◌, ◌≡◌, ◌∙◌, ap, refl, Bool, false, [], ◌∷◌, List, Option, some, Bytes, length,
  take, if◌then◌else◌, arith,
}
use gyzor.Account.Atomic.{
  Point, Disk, DiskStep, DiskRun, create, no_temp, set_mode, no_mode, write, no_write, all_written,
  close, no_close, rename, no_rename, remove, no_remove, begin, then_step,
}

-- Behind the rename.
abbrev pub is_committed : Point → Bool
is_committed (Point.removing b) = b
is_committed (Point.returned b) = b
is_committed p = false

take_all : {A : Type 0} (k : ℕ) (xs : List A) → length xs ≤ k → take k xs ≡ xs
take_all zero [] h = refl
take_all zero (x ∷ xs) h = absurd (omega (arith, h))
take_all (suc k) [] h = refl
take_all (suc k) (x ∷ xs) h = ap (◌∷◌ x) (take_all k xs (omega arith))

module _ (old : Option Bytes) (contents : Bytes) where
  -- What the temporary file holds.
  TempOk : Point → Option Bytes → Type 0
  TempOk Point.setting_mode t = t ≡ some []
  TempOk (Point.writing k) t = t ≡ some (take k contents)
  TempOk Point.closing t = t ≡ some contents
  TempOk Point.renaming t = t ≡ some contents
  TempOk p t = Unit

  abbrev FileOk : Point → Option Bytes → Type 0
  FileOk p f = f ≡ (if is_committed p then some contents else old)

  record DiskInv (d : Disk) : Type 0 where
    file_ok : FileOk d.point d.file
    temp_ok : TempOk d.point d.temp

  step-DiskInv : {d e : Disk} → DiskStep old contents d e → DiskInv d → DiskInv e
  unfolding TempOk
  step-DiskInv {d} (create e) v = record { file_ok = rw e at v.file_ok; temp_ok = refl }
  step-DiskInv {d} (no_temp e) v = record { file_ok = rw e at v.file_ok; temp_ok = tt }
  step-DiskInv {d} (set_mode e) v = record {
    file_ok = rw e at v.file_ok;
    temp_ok = rw e at v.temp_ok;
  }
  step-DiskInv {d} (no_mode e) v = record { file_ok = rw e at v.file_ok; temp_ok = tt }
  step-DiskInv {d} (write k e lt) v = record { file_ok = rw e at v.file_ok; temp_ok = refl }
  step-DiskInv {d} (no_write k e) v = record { file_ok = rw e at v.file_ok; temp_ok = tt }
  step-DiskInv {d} (all_written k e ge) v = record {
    file_ok = rw e at v.file_ok;
    temp_ok = (rw e at v.temp_ok) ∙ ap some (take_all k contents ge);
  }
  step-DiskInv {d} (close e) v = record { file_ok = rw e at v.file_ok; temp_ok = rw e at v.temp_ok }
  step-DiskInv {d} (no_close e) v = record { file_ok = rw e at v.file_ok; temp_ok = tt }
  step-DiskInv {d} (rename e) v = record { file_ok = rw e at v.temp_ok; temp_ok = tt }
  step-DiskInv {d} (no_rename e) v = record { file_ok = rw e at v.file_ok; temp_ok = tt }
  step-DiskInv {d} (remove b e) v = record { file_ok = rw e at v.file_ok; temp_ok = tt }
  step-DiskInv {d} (no_remove b e) v = record { file_ok = rw e at v.file_ok; temp_ok = tt }

  run-DiskInv : {d : Disk} → DiskRun old contents d → DiskInv d
  unfolding TempOk
  run-DiskInv begin = record { file_ok = refl; temp_ok = tt }
  run-DiskInv (then_step r s) = step-DiskInv s (run-DiskInv r)

  -- In every state of writeFileAtomic, so also where it is stopped in the middle or a system call
  -- fails, the accounts file is as it was before, up to the rename, and holds just the new contents
  -- from the rename on; it returns without an error only behind the rename.
  pub run-committed :
      (d : Disk)
      → DiskRun old contents d
      → d.file ≡ (if is_committed d.point then some contents else old)
  run-committed d r = (run-DiskInv r).file_ok
