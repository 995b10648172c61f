-- ===== src/Spsc/Threads/Tests.antt =====
-- A ring of two entries, with a push and a pop under way at once.
use bvex_vdif_rfsoc.Base.{◌≡◌, ◌≢◌, refl, List, [], ◌∷◌, arith, bit_and}
use bvex_vdif_rfsoc.Spsc.{spsc_init}
use bvex_vdif_rfsoc.Spsc.Inv.{spsc_init-IsValid}
use bvex_vdif_rfsoc.Spsc.Threads.{
  Turn, by_producer, by_consumer, Threads, has_room, has_entry, silent, pushed, take_turn,
  run_turns,
}
use bvex_vdif_rfsoc.Spsc.Threads.Knows.{IsRunning}
use bvex_vdif_rfsoc.Spsc.Threads.Order.{
  Stepped, take_turn-Stepped, Ordered, run_turns-Ordered, run_turns-slots_apart, resting,
}

abbrev two_slots : Threads
two_slots = resting (spsc_init 2)

two_slots-IsRunning : IsRunning two_slots
two_slots-IsRunning = record {
  valid = spsc_init-IsValid 1 (omega arith);
  producer = tt;
  consumer = tt;
}

-- Entry 7 is in, the push of 8 has seen room, and the pop has seen an entry.
abbrev meeting : List Turn
meeting =
    by_producer 7
    ∷ by_producer 7
    ∷ by_producer 7
    ∷ by_consumer
    ∷ by_producer 7
    ∷ by_producer 8
    ∷ by_consumer
    ∷ by_producer 8
    ∷ []

abbrev met : Threads
met = (run_turns meeting two_slots).0

events_so_far :
    (run_turns meeting two_slots).1
    ≡ silent ∷ silent ∷ silent ∷ silent ∷ pushed 7 ∷ silent ∷ silent ∷ silent ∷ []
unfolding run_turns spsc_init
events_so_far = refl

take_turn-Stepped_example : Stepped two_slots (take_turn (by_producer 7) two_slots)
take_turn-Stepped_example = take_turn-Stepped (by_producer 7) two_slots two_slots-IsRunning

run_turns-Ordered_example : Ordered two_slots (run_turns meeting two_slots)
run_turns-Ordered_example = run_turns-Ordered meeting two_slots two_slots-IsRunning

where_met : (met.producer ≡ has_room 8 1) × (met.consumer ≡ has_entry 0)
unfolding run_turns spsc_init
where_met = (refl, refl)

run_turns-slots_apart_example : bit_and 1 met.ring.mask ≢ bit_and 0 met.ring.mask
run_turns-slots_apart_example =
    run_turns-slots_apart 1 meeting 8 1 0 (omega arith) where_met.0 where_met.1
