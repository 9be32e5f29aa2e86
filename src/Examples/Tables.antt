-- ===== src/Examples/Tables.antt =====
-- The memory table.
use cdoc.Prelude.{[], ◌∷◌, refl, arith, AreBytes, cmp}
use cdoc.Sst.Memtable.{MemTable, insert}
use cdoc.Sst.Memtable.Laws.{IsValid, AreKeys, insert-IsValid}

abbrev pub table : MemTable
table = record { entries = (97 ∷ [], 1 ∷ []) ∷ (98 ∷ 99 ∷ [], 2 ∷ []) ∷ []; size = 5 }

pub table-IsValid : IsValid table
unfolding cmp
table-IsValid = record { sorted = ((refl, tt), (tt, tt)); counted = refl }

pub table-AreKeys : AreKeys table.entries
table-AreKeys = ground arith

insert-IsValid_example : IsValid (insert (98 ∷ []) (3 ∷ []) table)
insert-IsValid_example = insert-IsValid (98 ∷ []) (3 ∷ []) table table-IsValid

pub b_AreBytes : AreBytes (98 ∷ [])
b_AreBytes = ground arith
