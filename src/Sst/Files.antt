-- ===== src/Sst/Files.antt =====
-- Tables in files, as an implementation of what the database asks of them.
use cdoc.Prelude.{◌^◌, ◌<◌, ◌≡◌, length}
use cdoc.Varint.{found}
use cdoc.Zerocopy.{Zerocopy}
use cdoc.Crc32.{Crc32}
use cdoc.Hlc.{Timestamp}
use cdoc.BTreeMap.{Entries}
use cdoc.BTreeMap.Sorted.{IsSorted}
use cdoc.Sst.Tables.{SsTables, AreSmall}
use cdoc.Sst.Read
use cdoc.Sst.Read.{SsTableReader, open_table}
use cdoc.Sst.Written
use cdoc.Sst.Written.{written, reopen, get-IsTable, scan_prefix-IsTable}

module _ (crc : Crc32) (z : Zerocopy) where
  abbrev pub IsTable : SsTableReader → Entries → Type 0
  IsTable r m = (ts : Timestamp) × IsSorted m × Written.IsTable crc ts ts z r m

  abbrev pub Fits : Timestamp → Entries → Type 0
  Fits ts m = (ts < 2 ^ 64) × (length (written crc ts ts z m) < 2 ^ 64)

  pub open_table-written :
      (ts : Timestamp) (m : Entries)
      → IsSorted m
      → AreSmall m
      → Fits ts m
      → (r : SsTableReader) × (open_table (written crc ts ts z m) ≡ found r) × IsTable r m
  open_table-written ts m sorted small fits =
      let t = reopen crc ts ts z m small fits.1 fits.0 fits.0 in
      (t.reader, t.opens, (ts, sorted, t.is_table))

  -- The tables of src/sst/read.rs and src/sst/write.rs.
  abbrev pub in_files : SsTables
  in_files = record {
    SsTableReader = SsTableReader;
    get = Read.get crc;
    scan_prefix = Read.scan_prefix;
    written = λ ts m. written crc ts ts z m;
    open_table = open_table;
    IsTable = IsTable;
    IsTable-IsSorted = λ r m t. t.1;
    get-IsTable = λ key r m t. get-IsTable crc t.0 t.0 z r m key t.2 t.1;
    scan_prefix-IsTable = λ prefix r m h t. scan_prefix-IsTable crc t.0 t.0 z r m prefix t.2 t.1;
    Fits = Fits;
    open_table-written = open_table-written;
  }
