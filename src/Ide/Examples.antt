-- ===== src/Ide/Examples.antt =====
-- Tests of the commands of device/ide.c.
use winx.Base.{ℕ, refl, Bool, true, arith}
use winx.Ide.{cmd_read_sector, cmd_write_sector, ide_read, ide_write}
use winx.Ide.Batches.{sectors_from, Moves, ide_read-ide_write_lem}

abbrev always : ℕ → Bool
always secs_done = true

-- 300 sectors are two batches.
ide_read-ide_write_lem_example :
    Moves cmd_read_sector (ide_read 301 always 1 1000 0x100000 300) (sectors_from 1000 0x100000 300)
    × Moves cmd_write_sector
        (ide_write 301 always 1 1000 0x100000 300)
        (sectors_from 1000 0x100000 300)
ide_read-ide_write_lem_example =
    ide_read-ide_write_lem 301 always 1 1000 0x100000 300 (λ k. refl) (omega arith) (omega arith)
      (omega arith) (omega arith)
