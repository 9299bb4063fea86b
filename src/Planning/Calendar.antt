-- ===== src/Planning/Calendar.antt =====
-- createCalendarEvent, updateCalendarEvent and deleteCalendarEvent of
-- apps/api/src/planning/planning.service.ts. `noon` is `new Date(date + 'T12:00:00Z').toISOString()`.
use mathlib.Core.Option
use noorix_fin.Common.{ℕ, Bool, ◌&&◌, Option, none, List, [], ◌==◌, if◌then◌else◌, take}
use noorix_fin.Common.Text.{Text, codes}
use noorix_fin.Common.Outcome.{Outcome, ok, err}
use noorix_fin.Ledger.{Uuid}
use noorix_fin.Planning.{DbError, PlanningError, empty_patch}
use noorix_fin.Planning.Budgets.{given}
use noorix_fin.Planning.Goals.{is_absent, or_keep, optional_minor}
use noorix_fin.Planning.Tables.{insert_one, update_one, delete_some}

-- the workspace's settings, as far as they are read
pub record Settings : Type 0 where
  pub timezone : Text
  pub base_currency : Text

pub record Event : Type 0 where
  pub id : Uuid
  pub workspace_id : Uuid
  pub type : Text
  pub title : Text
  pub amount_minor : Option ℕ
  pub currency_code : Text
  pub due_at : Text
  pub timezone : Text
  pub local_date : Text
  pub reminder_offsets : List ℕ
  pub status : Text
  pub journal_entry_id : Option Uuid
  pub created_by : Uuid

pub record CreateEvent : Type 0 where
  pub type : Text
  pub title : Text
  pub amount_minor : Option Text
  pub currency_code : Option Text
  pub due_date : Text
  pub reminder_offsets : Option (List ℕ)

pub record UpdateEvent : Type 0 where
  pub title : Option Text
  pub amount_minor : Option Text
  pub due_date : Option Text
  pub status : Option Text
  pub journal_entry_id : Option Uuid

-- One call. `settings` is absent where the workspace could not be read.
pub record EventCall : Type 0 where
  pub workspace : Uuid
  pub user : Uuid
  pub event_id : Uuid
  pub noon : Text → Text
  pub settings : Option Settings
  pub fault : Option DbError

module _ (q : EventCall) where
  open q use {workspace, user, event_id, noon, settings, fault}

  abbrev pub currency_for : Option Text → Text
  currency_for asked =
      given asked (given (Option.map (λ (s : Settings). s.base_currency) settings) (codes "BDT"))

  abbrev pub timezone_of : Text
  timezone_of = given (Option.map (λ (s : Settings). s.timezone) settings) (codes "Asia/Dhaka")

  abbrev pub new_event : CreateEvent → Option ℕ → Event
  new_event dto amount = record {
    id = event_id;
    workspace_id = workspace;
    type = dto.type;
    title = dto.title;
    amount_minor = amount;
    currency_code = currency_for dto.currency_code;
    due_at = noon (take 10 dto.due_date);
    timezone = timezone_of;
    local_date = take 10 dto.due_date;
    reminder_offsets = given dto.reminder_offsets [];
    status = codes "UPCOMING";
    journal_entry_id = none;
    created_by = user;
  }

  abbrev pub insert_event :
      CreateEvent
      → Outcome PlanningError (Option ℕ)
      → List Event
      → Outcome PlanningError Event × List Event
  insert_event dto (err e) events = (err e, events)
  insert_event dto (ok amount) events = insert_one fault (new_event dto amount) events

  unfoldable pub create_calendar_event :
      CreateEvent → List Event → Outcome PlanningError Event × List Event
  create_calendar_event dto events = insert_event dto (optional_minor dto.amount_minor) events

  abbrev pub is_event : Uuid → Event → Bool
  is_event id e = e.id == id && e.workspace_id == workspace

  abbrev pub patch_event : UpdateEvent → Option ℕ → Event → Event
  patch_event dto amount e = record e {
    title = given dto.title e.title;
    amount_minor = or_keep amount e.amount_minor;
    local_date = given (Option.map (take 10) dto.due_date) e.local_date;
    due_at = given (Option.map (λ d. noon (take 10 d)) dto.due_date) e.due_at;
    status = given dto.status e.status;
    journal_entry_id = or_keep dto.journal_entry_id e.journal_entry_id;
  }

  abbrev pub changes_nothing : UpdateEvent → Bool
  changes_nothing dto =
      is_absent dto.title
      && (is_absent dto.amount_minor
          && (is_absent dto.due_date && (is_absent dto.status && is_absent dto.journal_entry_id)))

  abbrev pub update_event_with :
      Uuid
      → UpdateEvent
      → Outcome PlanningError (Option ℕ)
      → List Event
      → Outcome PlanningError Event × List Event
  update_event_with id dto (err e) events = (err e, events)
  update_event_with id dto (ok amount) events =
      if changes_nothing dto
      then (err empty_patch, events)
      else update_one fault (is_event id) (patch_event dto amount) events

  unfoldable pub update_calendar_event :
      Uuid → UpdateEvent → List Event → Outcome PlanningError Event × List Event
  update_calendar_event id dto events =
      update_event_with id dto (optional_minor dto.amount_minor) events

  unfoldable pub delete_calendar_event : Uuid → List Event → Outcome PlanningError Bool × List Event
  delete_calendar_event id events = delete_some fault (is_event id) events
