-- ===== src/Users/Activity/Feed.antt =====
-- `getActivity` and `resolveUserActivityEventTypes` of modules/users/users.service.ts. `toLowerCase` is that
-- of ASCII, in which the tables are written. The validation of the request
-- (modules/users/dto/user-activity.dto.ts) keeps `page` and `pageSize` positive.
use gracon_user_auth_service.Common.{
  ℕ, ◌+◌, ◌-◌, ◌*◌, ◌/◌, Bool, false, ◌&&◌, ◌||◌, Option, none, some, List, [], ◌∷◌, map, String,
  ◌==◌, if◌then◌else◌, truthy, or_else, ◌⁺⁺◌, select, take, drop,
}
use gracon_user_auth_service.Common.{codes, to_lower, starts_with}
use gracon_user_auth_service.Platform.{SecurityEvent, SecurityEventLog, World, Env}
use gracon_user_auth_service.Users.Activity.{
  Category, Order, UserActivityQuery, UserActivityItem, UserActivityResponse,
  user_activity_presentation, user_activity_events_by_category, all_events, code_of, number_of,
  category_text, newest, oldest,
}

-- `text.includes(search)`
unfoldable pub includes : List ℕ → List ℕ → Bool
includes [] search = starts_with [] search
includes (c ∷ text) search = starts_with (c ∷ text) search || includes text search

abbrev pub lower : String → List ℕ
lower s = map to_lower (codes s)

unfoldable pub matches : List ℕ → SecurityEvent → Bool
matches search e =
    let p = user_activity_presentation e in
    includes
      (lower
        (code_of e ⁺⁺ " " ⁺⁺ category_text p.category ⁺⁺ " " ⁺⁺ p.title ⁺⁺ " " ⁺⁺ p.description))
      search

abbrev pub base_events : Option Category → List SecurityEvent
base_events none = all_events
base_events (some c) = user_activity_events_by_category c

unfoldable pub resolve_user_activity_event_types : UserActivityQuery → List SecurityEvent
resolve_user_activity_event_types query = elim query.search [
  | none ↦ base_events query.category
  | some s ↦
      if truthy s
      then select (matches (lower s)) (base_events query.category)
      else base_events query.category
]

unfoldable pub event_in : SecurityEvent → List SecurityEvent → Bool
event_in e [] = false
event_in e (x ∷ xs) = number_of e == number_of x || event_in e xs

-- `where`
abbrev pub activity_of : ℕ → List SecurityEvent → SecurityEventLog → Bool
activity_of user_id events e =
    (elim e.user_id [ none ↦ false | some id ↦ id == user_id ]) && event_in e.event_type events

abbrev pub item_of : SecurityEventLog → UserActivityItem
item_of e = record {
  id = e.id;
  event_type = e.event_type;
  presentation = user_activity_presentation e.event_type;
  created_at = e.created_at;
  ip_address = e.ip_address;
}

-- `Math.ceil(total / size)`
abbrev pub pages_of : ℕ → ℕ → ℕ
pages_of total size = (total + size - 1) / size

module _ (env : Env) where
  open env use {find_many, count, order_by, order_by_desc}

  abbrev pub in_order : Option Order → List SecurityEventLog → List SecurityEventLog
  in_order none rows = order_by_desc SecurityEventLog (λ e. e.created_at) rows
  in_order (some newest) rows = order_by_desc SecurityEventLog (λ e. e.created_at) rows
  in_order (some oldest) rows = order_by SecurityEventLog (λ e. e.created_at) rows

  -- All the rows of the feed, of which a response shows a page.
  abbrev pub feed : ℕ → UserActivityQuery → World → List SecurityEventLog
  feed user_id query w = in_order query.order (
      find_many SecurityEventLog (activity_of user_id (resolve_user_activity_event_types query))
        w.security_events)

  -- `skip` and `take` of the query.
  abbrev pub shown : ℕ → ℕ → List SecurityEventLog → List SecurityEventLog
  shown page size rows = take size (drop ((page - 1) * size) rows)

  unfoldable pub get_activity : ℕ → UserActivityQuery → World → UserActivityResponse
  get_activity user_id query w =
      let page = or_else query.page 1 in
      let size = or_else query.page_size 12 in
      let events = resolve_user_activity_event_types query in
      elim events [
        | [] ↦ record {
          items = [];
          page = page;
          page_size = size;
          total_items = 0;
          total_pages = 0;
        }
        | x ∷ xs ↦
            let total = count SecurityEventLog (activity_of user_id (x ∷ xs)) w.security_events in
            record {
              items = map item_of (shown page size (feed user_id query w));
              page = page;
              page_size = size;
              total_items = total;
              total_pages = pages_of total size;
            }
      ]
