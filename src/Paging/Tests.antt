-- ===== src/Paging/Tests.antt =====
-- A listing of four audit events by pages of two (app/services/audit.py).
use fast_api_boiler_plate.Base.{
  ℕ, All, inl, inr, ◌≡◌, refl, Bool, Option, none, some, List, [], ◌∷◌, ◌++◌, Ident, Time, Str,
  arith, select,
}
use fast_api_boiler_plate.Store.{count}
use fast_api_boiler_plate.Paging.{Key, after, newest_first, insert_newest, list_page, next_cursor}
use fast_api_boiler_plate.Paging.Order.{IsSorted}
use fast_api_boiler_plate.Paging.Following.{gather, gather-IsSorted}
use fast_api_boiler_plate.Paging.Arrivals.{NotOlder, gather_during, gather_during-IsSorted}
use fast_api_boiler_plate.Paging.Listings.{Event, Query, event_filters, event_key, list_events}

-- A cursor as two characters.
abbrev encode : Key → Str
encode c = c.0 ∷ c.1 ∷ []

abbrev decode : Str → Option Key
decode [] = none
decode (a ∷ []) = none
decode (a ∷ b ∷ []) = some (a, b)
decode (a ∷ b ∷ c ∷ s) = none

abbrev event : Ident → Time → Ident → Event
event id at action = record {
  id = id;
  at = at;
  action = action;
  actor_id = some 1;
  target_type = 0;
  target_id = none;
}

abbrev events : List Event
events = event 10 5 0 ∷ event 11 7 0 ∷ event 12 5 0 ∷ event 13 6 1 ∷ event 14 9 0 ∷ []

abbrev wanted : Query
wanted = record {
  actor_id = some 1;
  target_type = none;
  target_id = none;
  action = some 0;
  since = some 1;
  until = none;
}

first_page :
    list_events encode decode wanted 1 2 none events
    ≡ some (event 14 9 0 ∷ event 11 7 0 ∷ [], 4, some (7 ∷ 11 ∷ []))
unfolding list_events list_page next_cursor event_filters newest_first insert_newest after count
first_page = refl

gather-IsSorted_example :
    (found : List Event) × (gather event_key encode decode (event_filters wanted) 1 events 5 none
      ≡ some found)
    × IsSorted event_key found
    × ((p : Event → Bool) → count p found ≡ count p (select (event_filters wanted) events))
unfolding event_filters
gather-IsSorted_example =
    gather-IsSorted event_key encode decode (event_filters wanted) 1 events (λ c. refl)
      ((refl, (refl, (refl, tt))), ((refl, (refl, tt)), ((refl, tt), (tt, tt)))) 5 (ground arith)

-- Behind the first and the third request a newer event comes in.
abbrev arrivals : List (List Event)
arrivals = (event 15 9 0 ∷ []) ∷ [] ∷ (event 16 12 0 ∷ []) ∷ [] ∷ [] ∷ []

-- The client does see two of them when it begins anew.
first_page_after :
    list_events encode decode wanted 1 2 none (events ++ event 15 9 0 ∷ event 16 12 0 ∷ [])
    ≡ some (event 16 12 0 ∷ event 15 9 0 ∷ [], 6, some (9 ∷ 15 ∷ []))
unfolding list_events list_page next_cursor event_filters newest_first insert_newest after count
first_page_after = refl

gather_during-IsSorted_example :
    (found : List Event) × (gather_during event_key encode decode
        (event_filters wanted)
        1
        arrivals
        none
        events
      ≡ some found)
    × IsSorted event_key found
    × ((p : Event → Bool) → count p found ≡ count p (select (event_filters wanted) events))
unfolding event_filters
gather_during-IsSorted_example =
    gather_during-IsSorted event_key encode decode (event_filters wanted) 1 (λ c. refl) events
      arrivals ((refl, (refl, (refl, tt))), ((refl, (refl, tt)), ((refl, tt), (tt, tt))))
      (omega arith)
      (
        newer 5 10 (inl (omega arith)) (inl (omega arith)),
        (
          newer 7 11 (inl (omega arith)) (inl (omega arith)),
          (
            newer 5 12 (inl (omega arith)) (inl (omega arith)),
            (
              newer 6 13 (inl (omega arith)) (inl (omega arith)),
              (newer 9 14 (inr (refl, omega arith)) (inl (omega arith)), tt),
            ),
          ),
        ),
      )
  where
    newer :
        (t id : ℕ)
        → NotOlder event_key encode decode (event_filters wanted) 1 (t, id) (event 15 9 0)
        → NotOlder event_key encode decode (event_filters wanted) 1 (t, id) (event 16 12 0)
        → All (All (NotOlder event_key encode decode (event_filters wanted) 1 (t, id))) arrivals
    newer t id h h' = ((h, tt), (tt, ((h', tt), (tt, (tt, tt)))))
