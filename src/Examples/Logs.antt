-- ===== src/Examples/Logs.antt =====
-- Logs.
use cdoc.Prelude.{ℕ, ◌+◌, List, [], ◌∷◌, ◌≡◌, refl, arith, Bytes, take, replicate, some, none}
use cdoc.Zerocopy.{plain}
use cdoc.Crc32.{sum32}
use cdoc.Wal.{WriteAheadLog, create, replay}
use cdoc.Wal.Log.{committed}
use cdoc.Wal.Writer.{Op, logged, AreRecords, apply}
use cdoc.Wal.Crash.{replay-take-apply}
use cdoc.Db.Records.{write_of-IsRecord, commit-IsRecord}

abbrev pub zeros : ℕ → Bytes
zeros n = replicate n 0

-- A transaction that commits, one that is cut off, and one that has only begun.
abbrev ops : List Op
ops =
    Op.write (record { key = 97 ∷ []; value = 1 ∷ 2 ∷ []; timestamp = none })
    ∷ Op.write (record { key = []; value = []; timestamp = some 256 })
    ∷ Op.write (record { key = 98 ∷ []; value = 3 ∷ []; timestamp = none })
    ∷ Op.truncate
    ∷ Op.write (record { key = 99 ∷ []; value = []; timestamp = none })
    ∷ []

ops-AreRecords : AreRecords ops
ops-AreRecords = (
  write_of-IsRecord (97 ∷ []) (1 ∷ 2 ∷ []) (omega arith) (omega arith) (omega arith),
  (
    commit-IsRecord 256 (omega arith),
    (
      write_of-IsRecord (98 ∷ []) (3 ∷ []) (omega arith) (omega arith) (omega arith),
      (write_of-IsRecord (99 ∷ []) [] (omega arith) (omega arith) (omega arith), tt),
    ),
  ),
)

abbrev log : WriteAheadLog
log = apply sum32 plain create ops

replay-take-apply_example :
    replay sum32 plain zeros (take (log.last_commit_pos + 5) log.file)
    ≡ some (committed (logged [] ops))
replay-take-apply_example =
    replay-take-apply sum32 plain zeros refl ops (log.last_commit_pos + 5) ops-AreRecords
      (omega arith)
