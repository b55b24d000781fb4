-- ===== src/Tests/Sharing.antt =====
-- The map of Threads/mdz_thr_safecontainers/map.h with a thread that has an element open while another
-- one destroys it.
use lib_mantids.Common.{suc, ◌<◌, ◌≡◌, refl, true, false, none, some, arith}
use lib_mantids.Threads.SafeMap.{
  Entries, put, add_element, open_element, release_element, destroy_start, destroy_finish,
}
use lib_mantids.Threads.SafeMap.Readers.{
  System, Reachable, initial, later, adds, opens, starts, at_key,
}
use lib_mantids.Threads.SafeMap.Safety.{destroy_finish-Reachable, release_element-Reachable}

abbrev empty : System
empty = record { x_map = λ k. none; open_refs = λ k. 0; destroying = λ k. false }

abbrev added : System
added = record empty { x_map = (add_element empty.x_map 5 77).0 }

abbrev opened : System
opened = record added {
  x_map = (open_element added.x_map 5).0;
  open_refs = at_key added.open_refs 5 (suc (added.open_refs 5));
}

abbrev closing : System
closing = record opened {
  x_map = (destroy_start opened.x_map 5).0;
  destroying = at_key opened.destroying 5 true;
}

opens_77 : (open_element added.x_map 5).1 ≡ some 77
unfolding add_element open_element
opens_77 = refl

takes_77 : (destroy_start opened.x_map 5).1 ≡ some 77
unfolding add_element open_element destroy_start
takes_77 = refl

closing-Reachable : Reachable closing
closing-Reachable =
    later opened closing
      (later added opened (later empty added initial (adds empty 5 77))
        (opens added 5 77 (omega arith) opens_77))
      (starts opened 5 77 takes_77)

destroy_finish-Reachable_example :
    (0 < closing.open_refs 5 → destroy_finish closing.x_map 5 ≡ none)
    × (closing.open_refs 5 ≡ 0 → destroy_finish closing.x_map 5 ≡ some (put closing.x_map 5 none))
destroy_finish-Reachable_example = destroy_finish-Reachable closing 5 closing-Reachable refl

release_element-Reachable_example :
    (m : Entries) × (release_element closing.x_map 5 ≡ some (m, true))
release_element-Reachable_example =
    release_element-Reachable closing 5 closing-Reachable (omega arith)
