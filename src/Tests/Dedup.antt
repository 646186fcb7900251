-- ===== src/Tests/Dedup.antt =====
-- `DedupState` at concrete inputs: two requests, results and errors are texts.
use heimdall_gateway.Prelude.{
  String, ◌≡◌, refl, true, false, none, some, List, [], ◌∷◌, arith, nat_key, string_key,
}
use heimdall_gateway.Dict.{get, put}
use heimdall_gateway.Dedup.{
  Entry, DedupState, new_dedup, set_event, new_entry, lead, get_or_create_inflight, get_cached,
  put_cached,
}
use heimdall_gateway.Dedup.Operations.{
  Operation, request, ok, look, evict, discard, apply_all, leaves_running,
}
use heimdall_gateway.Dedup.Steady.{time}
use heimdall_gateway.Dedup.Flight.{single_flight}
use heimdall_gateway.Dedup.Cache.{put_cached-served}
use heimdall_gateway.Dedup.Bounds.{IsWithin, apply_all-IsWithin}

abbrev empty : DedupState String String
empty = new_dedup 2

abbrev running : DedupState String String
running = record {
  entries = ("a", new_entry 0) ∷ [];
  max_entries = 2;
  next_event = 1;
  set_events = [];
}

abbrev stored_entry : Entry String String
stored_entry = record {
  event = 0;
  result = some "hi";
  exception = none;
  expires_at = 1500;
  grace_until = 0;
}

abbrev stored : DedupState String String
stored = record {
  entries = ("a", stored_entry) ∷ [];
  max_entries = 2;
  next_event = 1;
  set_events = 0 ∷ [];
}

first_leads :
    get_or_create_inflight 1000 "a" empty
    ≡ (running, record { is_leader = true; event = some 0; cached = none })
unfolding get_or_create_inflight lead get put new_dedup
first_leads = refl

completes : (put_cached 1000 "a" "hi" 500 running).0 ≡ stored
unfolding put_cached set_event get put
completes = refl

abbrev meanwhile : List (Operation String String)
meanwhile = request 1100 "a" ∷ ok "b" "other" ∷ evict 1200 ∷ look 1300 "a" ∷ discard 1400 "b" 0 ∷ []

single_flight_example :
    get_or_create_inflight 2000 "a" (apply_all meanwhile (get_or_create_inflight 1000 "a" empty).0)
    ≡ (
      apply_all meanwhile (get_or_create_inflight 1000 "a" empty).0,
      record { is_leader = false; event = some 0; cached = none },
    )
unfolding get_or_create_inflight lead get put new_dedup leaves_running
single_flight_example =
    single_flight 1000 2000 "a" 0 empty meanwhile refl refl
      (refl, (refl, (refl, (refl, (refl, tt)))))

put_cached-served_example :
    ((get_cached 1450 "a" (apply_all meanwhile (put_cached 1000 "a" "hi" 500 running).0)).1
      ≡ some "hi")
    × ((get_or_create_inflight 1450 "a"
          (apply_all meanwhile (put_cached 1000 "a" "hi" 500 running).0)).1.is_leader
        ≡ false)
    × ((get_or_create_inflight 1450 "a"
          (apply_all meanwhile (put_cached 1000 "a" "hi" 500 running).0)).1.cached
        ≡ some "hi")
unfolding put_cached get put leaves_running time
put_cached-served_example =
    put_cached-served 1000 1450 "a" "hi" 500 running meanwhile refl
      (refl, (refl, (refl, (refl, (refl, tt)))))
      (omega arith, (omega arith, (omega arith, (omega arith, (omega arith, tt))))) (omega arith)

apply_all-IsWithin_example :
    IsWithin 2 (apply_all (request 1100 "b" ∷ request 1200 "c" ∷ meanwhile) running)
apply_all-IsWithin_example =
    apply_all-IsWithin (request 1100 "b" ∷ request 1200 "c" ∷ meanwhile) running (refl, omega arith)
