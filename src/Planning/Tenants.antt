-- ===== src/Planning/Tenants.antt =====
-- The planning routes and the rows of other workspaces.
use noorix_fin.Common.{ℕ, ◌≡◌, refl, Bool, true, false, ◌&&◌, Option, List, ◌==◌, ==_refl, if-elim}
use noorix_fin.Common.Text.{Text}
use noorix_fin.Common.Outcome.{Outcome, ok, err}
use noorix_fin.Ledger.{Uuid}
use noorix_fin.Planning.{PlanningError, minor}
use noorix_fin.Planning.Goals.{optional_minor}
use noorix_fin.Planning.Tables.{others, insert_one-others, update_one-others, delete_some-others}
use noorix_fin.Planning.Calendar.{
  Event, CreateEvent, UpdateEvent, EventCall, new_event, insert_event, create_calendar_event,
  is_event, patch_event, changes_nothing, update_event_with, update_calendar_event,
  delete_calendar_event,
}
use noorix_fin.Planning.Recurring.{
  Rule, CreateRule, RuleCall, new_rule, insert_rule, create_recurring_rule, is_rule,
  update_recurring_rule, delete_recurring_rule,
}

both_right : (b c : Bool) → (b && c) ≡ true → c ≡ true
both_right true c h = h
both_right false c h = cc

module _ (q : EventCall) where
  open q use {workspace, fault}

  abbrev pub is_own_event : Event → Bool
  is_own_event e = e.workspace_id == workspace

  insert_event-others :
      (dto : CreateEvent) (o : Outcome PlanningError (Option ℕ)) (events : List Event)
      → others is_own_event (insert_event q dto o events).1 ≡ others is_own_event events
  insert_event-others dto (err e) events = refl
  insert_event-others dto (ok amount) events =
      insert_one-others is_own_event fault (new_event q dto amount) events (==_refl workspace)

  update_event-others :
      (id : Uuid) (dto : UpdateEvent) (o : Outcome PlanningError (Option ℕ)) (events : List Event)
      → others is_own_event (update_event_with q id dto o events).1 ≡ others is_own_event events
  update_event-others id dto (err e) events = refl
  update_event-others id dto (ok amount) events =
      if-elim
        (λ (r : Outcome PlanningError Event × List Event).
          others is_own_event r.1 ≡ others is_own_event events)
        (changes_nothing q dto) (λ _. refl)
        (λ _.
          update_one-others is_own_event (is_event q id)
            (λ e. both_right (e.id == id) (is_own_event e)) fault (patch_event q dto amount)
            (λ e. refl) events)

  -- Creating, changing and deleting calendar events, with whatever input, id and fault, leaves the
  -- events of the other workspaces as they are.
  pub events-others :
      (id : Uuid) (create : CreateEvent) (update : UpdateEvent) (events : List Event)
      → (others is_own_event (create_calendar_event q create events).1 ≡ others is_own_event events)
        × (others is_own_event (update_calendar_event q id update events).1
            ≡ others is_own_event events)
        × (others is_own_event (delete_calendar_event q id events).1 ≡ others is_own_event events)
  unfolding create_calendar_event update_calendar_event delete_calendar_event
  events-others id create update events = (
    insert_event-others create (optional_minor create.amount_minor) events,
    update_event-others id update (optional_minor update.amount_minor) events,
    delete_some-others is_own_event (is_event q id) (λ e. both_right (e.id == id) (is_own_event e))
        fault events,
  )

module _ (q : RuleCall) where
  open q use {workspace, fault}

  abbrev pub is_own_rule : Rule → Bool
  is_own_rule r = r.workspace_id == workspace

  insert_rule-others :
      (dto : CreateRule) (o : Outcome PlanningError ℕ) (rules : List Rule)
      → others is_own_rule (insert_rule q dto o rules).1 ≡ others is_own_rule rules
  insert_rule-others dto (err e) rules = refl
  insert_rule-others dto (ok amount) rules =
      insert_one-others is_own_rule fault (new_rule q dto amount) rules (==_refl workspace)

  -- Creating, changing and deleting recurring rules, with whatever input, id and fault, leaves the
  -- rules of the other workspaces as they are.
  pub rules-others :
      (id : Uuid) (create : CreateRule) (status : Text) (rules : List Rule)
      → (others is_own_rule (create_recurring_rule q create rules).1 ≡ others is_own_rule rules)
        × (others is_own_rule (update_recurring_rule q id status rules).1
            ≡ others is_own_rule rules)
        × (others is_own_rule (delete_recurring_rule q id rules).1 ≡ others is_own_rule rules)
  unfolding create_recurring_rule update_recurring_rule delete_recurring_rule
  rules-others id create status rules = (
    insert_rule-others create (minor create.amount_minor) rules,
    update_one-others is_own_rule (is_rule q id) (λ r. both_right (r.id == id) (is_own_rule r))
        fault (λ r. record r { status = status }) (λ r. refl) rules,
    delete_some-others is_own_rule (is_rule q id) (λ r. both_right (r.id == id) (is_own_rule r))
        fault rules,
  )
