-- ===== src/Tests/DbTests.antt =====
-- The store at work.
use paxi.Common.{◌≡◌, refl, true, none, some, [], ◌∷◌, codes, bytes_eq}
use paxi.Db.{
  Command, new_database, write, execute, execute_all, get, get_history, get_version, conflict,
  conflict_any, conflict_batch, is_read, equal, empty,
}
use paxi.Db.Commute.{conflict_sound}
use paxi.Db.History.{writes, last_of, write_count, execute_all-new_database}

abbrev put_one : Command
put_one = record { key = 1; value = some (codes "a"); client_id = codes "1.1"; command_id = 7 }

abbrev put_two : Command
put_two = record { key = 2; value = some (codes "b"); client_id = codes "1.1"; command_id = 8 }

abbrev get_one : Command
get_one = record { key = 1; value = none; client_id = codes "1.2"; command_id = 9 }

abbrev put_nothing : Command
put_nothing = record { key = 1; value = some []; client_id = codes "1.2"; command_id = 9 }

store_run : Unit {0}
unfolding new_database write execute execute_all get get_history conflict conflict_any
    conflict_batch is_read equal bytes_eq empty
store_run = tt

-- A read and a write of no bytes count as equal commands, and conflict all the same.
read_equal_write : (equal get_one put_nothing ≡ true) × (conflict get_one put_nothing ≡ true)
unfolding store_run
read_equal_write = (refl, refl)

two_writes :
    get (execute_all (new_database true) (put_one ∷ put_two ∷ get_one ∷ [])) 1 ≡ some (codes "a")
unfolding store_run
two_writes = refl

conflict_sound_example :
    let d = new_database true in
    ((execute (execute d put_one).0 put_two).0 ≡ (execute (execute d put_two).0 put_one).0)
    × ((execute (execute d put_one).0 put_two).1 ≡ (execute d put_two).1)
    × ((execute (execute d put_two).0 put_one).1 ≡ (execute d put_one).1)
unfolding store_run
conflict_sound_example = conflict_sound (new_database true) put_one put_two refl

execute_all-new_database_example :
    let cs = put_one ∷ put_two ∷ put_nothing ∷ [] in
    let d = execute_all (new_database true) cs in
    (get d 1 ≡ last_of none (writes 1 cs))
    × (get_history d 1 ≡ writes 1 cs)
    × (get_version d 1 ≡ write_count cs)
execute_all-new_database_example = execute_all-new_database (put_one ∷ put_two ∷ put_nothing ∷ []) 1
