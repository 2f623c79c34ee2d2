-- ===== src/Install/Diskspace.antt =====
-- `check` of src/install/diskspace.rs; what `statvfs` says is a parameter.
use mitos_pkg.Prelude.{ℕ, ltb, if◌then◌else◌, ok, err, ◌>>=◌}
use mitos_pkg.Error.{FilePath, PkgResult, insufficient_disk_space}

unfoldable pub check : (FilePath → PkgResult ℕ) → FilePath → ℕ → PkgResult {0} Unit
check available_bytes install_root needed_bytes = available_bytes install_root >>= λ available.
    if ltb available needed_bytes
    then err (insufficient_disk_space needed_bytes available)
    else ok tt
