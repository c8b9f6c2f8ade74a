-- ===== src/Paging/Listings.antt =====
-- The listings of the audit trail (app/services/audit.py, `list_events`) and of jobs
-- (app/services/jobs.py, `list_jobs`). An address, a user agent, a request id and the details of an
-- event are left out: the listing does not look at them.
use fast_api_boiler_plate.Base.{
  ℕ, ◌-◌, ◌*◌, Bool, true, false, ◌&&◌, Option, none, some, List, [], ◌∷◌, ◌++◌, Ident, Time, Str,
  ltb, ◌==◌, opt_eq,
}
use fast_api_boiler_plate.Jobs.Model.{Job}
use fast_api_boiler_plate.Paging.{Key, list_page}

pub record Event : Type 0 where
  pub id : Ident
  pub at : Time
  pub action : Ident
  pub actor_id : Option Ident
  pub target_type : Ident
  pub target_id : Option Ident

-- What an administrator asks for; `none` does not filter.
pub record Query : Type 0 where
  pub actor_id : Option Ident
  pub target_type : Option Ident
  pub target_id : Option Ident
  pub action : Option Ident
  pub since : Option Time
  pub until : Option Time

abbrev pub is_wanted : Option Ident → Ident → Bool
is_wanted none x = true
is_wanted (some wanted) x = x == wanted

abbrev pub is_wanted_of : Option Ident → Option Ident → Bool
is_wanted_of none x = true
is_wanted_of (some wanted) x = opt_eq x (some wanted)

abbrev pub is_after : Option Time → Time → Bool
is_after none t = true
is_after (some since) t = ltb since t

abbrev pub is_before : Option Time → Time → Bool
is_before none t = true
is_before (some until) t = ltb t until

unfoldable pub event_filters : Query → Event → Bool
event_filters q e =
    is_wanted_of q.actor_id e.actor_id
    && is_wanted q.target_type e.target_type
    && is_wanted_of q.target_id e.target_id
    && is_wanted q.action e.action
    && is_after q.since e.at
    && is_before q.until e.at

-- `record`: the caller of the request is the actor unless the event names another.
abbrev pub actor : Option Ident → Option Ident → Option Ident
actor none caller = caller
actor (some id) caller = some id

-- A write that fails, `written` being false, is logged and otherwise passed over.
unfoldable pub record_event :
    Time
    → Ident
    → Bool
    → Option Ident
    → Option Ident
    → Ident
    → Ident
    → Option Ident
    → List Event
    → List Event
record_event now id false caller actor_id action target_type target_id events = events
record_event now id true caller actor_id action target_type target_id events =
    events
    ++ record {
      id = id;
      at = now;
      action = action;
      actor_id = actor actor_id caller;
      target_type = target_type;
      target_id = target_id;
    }
      ∷ []

abbrev pub event_key : Event → Key
event_key e = (e.at, e.id)

abbrev pub job_key : Job → Key
job_key j = (j.created_at, j.id)

module _ (encode : Key → Str) (decode : Str → Option Key) where
  unfoldable pub list_events :
      Query → ℕ → ℕ → Option Str → List Event → Option (List Event × ℕ × Option Str)
  unfolding event_filters list_page
  list_events q page page_size cursor events =
      list_page event_key encode decode (event_filters q) page_size ((page - 1) * page_size) cursor
        events

  -- `of_status` and `name` are the filters.
  unfoldable pub list_jobs :
      (Job → Bool)
      → Option Ident
      → ℕ
      → ℕ
      → Option Str
      → List Job
      → Option (List Job × ℕ × Option Str)
  unfolding list_page
  list_jobs of_status name page page_size cursor jobs =
      list_page job_key encode decode (λ j. of_status j && is_wanted name j.name) page_size
        ((page - 1) * page_size) cursor jobs
