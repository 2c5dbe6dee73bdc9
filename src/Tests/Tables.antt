-- ===== src/Tests/Tables.antt =====
-- The guards of a table on a concrete run.
use babydb_private.Prelude.{◌≡◌, refl, ◌++◌, [], ◌∷◌, true, false, some, All}
use babydb_private.Outcome.{ok}
use babydb_private.Table.Guards.{
  SharedMutex, nullptr, Guard, new_guard, get_read_guard, get_write_guard, drop_read, drop_write,
  Shared, unused, Step, gets_read, gets_write, drops_read, Steps, stays, goes,
}
use babydb_private.Table.Latch.{IsDropped, writer_alone, rows_stay}
use babydb_private.Table.Exclusion.{holds}
use babydb_private.Table.Free.{
  DropsOnce, drop_read-DropsOnce, drop_write-DropsOnce, write_guard_comes, Drops,
}

abbrev dropped_guard : Guard
dropped_guard = record { rows = nullptr; drop_tag = true }

abbrev one_reader : Shared
one_reader = record {
  latch = record { shared = 1; exclusive = false };
  rows = [];
  readers = new_guard ∷ [];
  writers = [];
}

abbrev reader_dropped : Shared
reader_dropped = record {
  latch = record { shared = 0; exclusive = false };
  rows = [];
  readers = dropped_guard ∷ [];
  writers = [];
}

abbrev one_writer : Shared
one_writer = record {
  latch = record { shared = 0; exclusive = true };
  rows = [];
  readers = dropped_guard ∷ [];
  writers = new_guard ∷ [];
}

read_got :
    get_read_guard (record { shared = 0; exclusive = false }) ≡ some (new_guard, one_reader.latch)
unfolding get_read_guard
read_got = refl

read_drop : drop_read new_guard one_reader.latch ≡ ok (dropped_guard, reader_dropped.latch)
unfolding drop_read
read_drop = refl

write_got : get_write_guard reader_dropped.latch ≡ some (new_guard, one_writer.latch)
unfolding get_write_guard
write_got = refl

reads : Steps (unused []) one_reader
reads = goes (stays (unused [])) (gets_read (unused []) new_guard one_reader.latch read_got)

drops : Step one_reader reader_dropped
drops = drops_read one_reader [] [] new_guard dropped_guard reader_dropped.latch refl read_drop

writes_now : Steps (unused []) one_writer
writes_now =
    goes (goes reads drops) (gets_write reader_dropped new_guard one_writer.latch write_got)

writer_alone_example : All IsDropped ([] ++ []) × All IsDropped one_writer.readers
writer_alone_example = writer_alone [] one_writer [] [] new_guard writes_now refl refl

rows_stay_example : reader_dropped.rows ≡ one_reader.rows
rows_stay_example = rows_stay [] one_reader reader_dropped [] [] new_guard reads refl refl drops

drop_read-DropsOnce_example : DropsOnce drop_read new_guard one_reader.latch
drop_read-DropsOnce_example = drop_read-DropsOnce [] one_reader [] [] new_guard reads refl

drop_write-DropsOnce_example : DropsOnce drop_write new_guard one_writer.latch
drop_write-DropsOnce_example = drop_write-DropsOnce [] one_writer [] [] new_guard writes_now refl

write_guard_comes_example :
    (t : Shared) × Drops one_writer t
    × (t.rows ≡ one_writer.rows)
    × (holds t.readers ≡ 0)
    × (holds t.writers ≡ 0)
    × ((m : SharedMutex) × (get_write_guard t.latch ≡ some (new_guard, m)))
write_guard_comes_example = write_guard_comes [] one_writer writes_now
