-- ===== src/Users/Activity/Pages.antt =====
-- The pages of the activity feed (`getActivity` of modules/users/users.service.ts).
use gracon_user_auth_service.Common.{
  ℕ, zero, suc, ◌+◌, ◌-◌, ◌*◌, ◌≤◌, ◌<◌, ◌≡◌, refl, sym, ap, subst, ◌∙◌, inl, inr, arith, true,
  false, Option, none, some, List, [], ◌∷◌, ◌++◌, map, or_else, Option-cases, All, length, select,
  take, drop,
}
use gracon_user_auth_service.Common.Tables.{List-cases, select_never, All-map}
use gracon_user_auth_service.Platform.{SecurityEvent, SecurityEventLog, World, Env}
use native.Mathlib.Nat.{lt-div-mul-add}
use gracon_user_auth_service.Common.Counting.{All-select}
use gracon_user_auth_service.Users.Activity.{
  UserActivityQuery, UserActivityItem, Order, newest, oldest,
}
use gracon_user_auth_service.Users.Activity.Feed.{
  resolve_user_activity_event_types, event_in, activity_of, item_of, pages_of, in_order, feed,
  shown, get_activity,
}

module _ {A : Type 0} where
  take_nil : (k : ℕ) → take {A = A} k [] ≡ []
  take_nil zero = refl
  take_nil (suc k) = refl

  drop_nil : (k : ℕ) → drop {A = A} k [] ≡ []
  drop_nil zero = refl
  drop_nil (suc k) = refl

  take_add : (k n m : ℕ) (xs : List A) → k ≡ n + m → take k xs ≡ take n xs ++ take m (drop n xs)
  take_add k zero m xs e = ap (λ i. take i xs) (omega (arith, e))
  take_add k (suc n) m [] e = take_nil k ∙ sym (take_nil m)
  take_add zero (suc n) m (x ∷ xs) e = ground arith
  take_add (suc k) (suc n) m (x ∷ xs) e = ap (λ ys. x ∷ ys) (take_add k n m xs (omega arith))

  empty_of_length : (xs : List A) → length xs ≡ 0 → xs ≡ []
  empty_of_length [] h = refl
  empty_of_length (x ∷ xs) h = ground arith

  take_all : (n : ℕ) (xs : List A) → length xs ≤ n → take n xs ≡ xs
  take_all zero [] h = refl
  take_all zero (x ∷ xs) h = ground arith
  take_all (suc n) [] h = refl
  take_all (suc n) (x ∷ xs) h = ap (λ ys. x ∷ ys) (take_all n xs (omega arith))

  length-take : (n : ℕ) (xs : List A) → length (take n xs) ≤ n
  length-take zero xs = omega arith
  length-take (suc n) [] = omega arith
  length-take (suc n) (x ∷ xs) = omega (arith, length-take n xs)

  All-take : (P : A → Type 0) (n : ℕ) (xs : List A) → All P xs → All P (take n xs)
  All-take P zero xs a = tt
  All-take P (suc n) [] a = tt
  All-take P (suc n) (x ∷ xs) a = (a.0, All-take P n xs a.1)

  All-drop : (P : A → Type 0) (n : ℕ) (xs : List A) → All P xs → All P (drop n xs)
  All-drop P zero xs a = a
  All-drop P (suc n) [] a = tt
  All-drop P (suc n) (x ∷ xs) a = All-drop P n xs a.1

  map_append : {B : Type 0} (f : A → B) (xs ys : List A) → map f (xs ++ ys) ≡ map f xs ++ map f ys
  map_append f [] ys = refl
  map_append f (x ∷ xs) ys = ap (λ zs. f x ∷ zs) (map_append f xs ys)

-- The number of pages is enough, and none is empty.
pages_enough : (total size : ℕ) → 0 < size → total ≤ pages_of total size * size
pages_enough total size h = omega (arith, lt-div-mul-add {a = total + size - 1} h)

module _ (env : Env) (user_id : ℕ) where
  in_order-length :
      (order : Option Order) (rows : List SecurityEventLog)
      → length (in_order env order rows) ≡ length rows
  in_order-length none rows = env.order_by_desc_length SecurityEventLog _ rows
  in_order-length (some newest) rows = env.order_by_desc_length SecurityEventLog _ rows
  in_order-length (some oldest) rows = env.order_by_length SecurityEventLog _ rows

  in_order-All :
      (order : Option Order) (P : SecurityEventLog → Type 0) (rows : List SecurityEventLog)
      → All P rows
      → All P (in_order env order rows)
  in_order-All none P rows a = env.order_by_desc_all SecurityEventLog _ P rows a
  in_order-All (some newest) P rows a = env.order_by_desc_all SecurityEventLog _ P rows a
  in_order-All (some oldest) P rows a = env.order_by_all SecurityEventLog _ P rows a

  activity_of-eq_true :
      (e : SecurityEventLog) (events : List SecurityEvent)
      → activity_of user_id events e ≡ true
      → (e.user_id ≡ some user_id) × (event_in e.event_type events ≡ true)
  activity_of-eq_true e events h = elim (Option-cases e.user_id) [
    | inl k ↦ ground arith
    | inr (id, k) ↦ (ground arith, ground arith)
  ]

  -- No event types, no rows.
  feed_nothing :
      (query : UserActivityQuery) (w : World)
      → resolve_user_activity_event_types query ≡ []
      → feed env user_id query w ≡ []
  unfolding event_in
  feed_nothing query w none_left =
      let p = activity_of user_id (resolve_user_activity_event_types query) in
      let rows = env.find_many SecurityEventLog p w.security_events in
      let never : (e : SecurityEventLog) → p e ≡ false = λ e. rw none_left (ground arith) in
      let empty : length rows ≡ 0 = ap length (
        env.find_many_lem SecurityEventLog p w.security_events
        ∙ select_never p w.security_events never) in
      empty_of_length (feed env user_id query w) (in_order-length query.order rows ∙ empty)

  -- The items are those of the page, also when no event type is left.
  get_activity_items :
      (query : UserActivityQuery) (w : World)
      → (get_activity env user_id query w).items
        ≡ map item_of (
            shown env
              (or_else query.page 1)
              (or_else query.page_size 12)
              (feed env user_id query w))
  unfolding get_activity
  get_activity_items query w = elim (List-cases (resolve_user_activity_event_types query)) [
    | inl e ↦
        let page = (or_else query.page 1 - 1) * or_else query.page_size 12 in
        let rest = λ (rows : List SecurityEventLog).
          map item_of (take (or_else query.page_size 12) (drop page rows)) in
        let blank : rest (feed env user_id query w) ≡ [] =
          ap rest (feed_nothing query w e)
          ∙ ap (λ rows. map item_of (take (or_else query.page_size 12) rows)) (drop_nil page)
          ∙ ap (map item_of) (take_nil (or_else query.page_size 12)) in
        rw blank (ground arith)
    | inr (x, xs, e) ↦ ground arith
  ]

module _ (env : Env) (user_id : ℕ) (query : UserActivityQuery) (w : World) where
  -- The query for a page.
  abbrev pub page_query : ℕ → UserActivityQuery
  page_query n = record query { page = some n }

  abbrev size : ℕ
  size = or_else query.page_size 12

  -- The items of the first `n` pages.
  abbrev pub first_pages : ℕ → List UserActivityItem
  first_pages zero = []
  first_pages (suc n) = first_pages n ++ (get_activity env user_id (page_query (suc n)) w).items

  page_items :
      (n : ℕ)
      → (get_activity env user_id (page_query (suc n)) w).items
        ≡ map item_of (take size (drop (n * size) (feed env user_id query w)))
  unfolding resolve_user_activity_event_types
  page_items n =
      get_activity_items env user_id (page_query (suc n)) w
      ∙ ap (λ k. map item_of (take size (drop (k * size) (feed env user_id query w)))) (omega arith)

  first_pages_lem :
      (n : ℕ) → first_pages n ≡ map item_of (take (n * size) (feed env user_id query w))
  first_pages_lem zero =
      let none_yet : 0 ≡ 0 * size = omega arith in
      ap (λ k. map item_of (take k (feed env user_id query w))) none_yet
  first_pages_lem (suc n) =
      let rows = feed env user_id query w in
      ap (λ items. items ++ (get_activity env user_id (page_query (suc n)) w).items)
        (first_pages_lem n)
      ∙ ap (λ items. map item_of (take (n * size) rows) ++ items) (page_items n)
      ∙ sym (map_append item_of (take (n * size) rows) (take size (drop (n * size) rows)))
      ∙ ap (map item_of) (sym (take_add (suc n * size) (n * size) size rows (omega arith)))

  feed-length :
      length (feed env user_id query w)
      ≡ env.count SecurityEventLog
          (activity_of user_id (resolve_user_activity_event_types query))
          w.security_events
  feed-length =
      let p = activity_of user_id (resolve_user_activity_event_types query) in
      in_order-length env user_id query.order (env.find_many SecurityEventLog p w.security_events)
      ∙ ap length (env.find_many_lem SecurityEventLog p w.security_events)
      ∙ sym (env.count_lem SecurityEventLog p w.security_events)

  -- The pages that a response counts hold the whole feed, in order, each row once, whatever the filter
  -- and the size of a page.
  pub first_pages-feed :
      0 < size
      → first_pages (get_activity env user_id query w).total_pages
        ≡ map item_of (feed env user_id query w)
  unfolding get_activity
  first_pages-feed positive =
      let rows = feed env user_id query w in
      let total =
        env.count SecurityEventLog (activity_of user_id (resolve_user_activity_event_types query))
          w.security_events in
      elim (List-cases (resolve_user_activity_event_types query)) [
        | inl e ↦
            let n : (get_activity env user_id query w).total_pages ≡ 0 = ground arith in
            ap first_pages n ∙ sym (ap (map item_of) (feed_nothing env user_id query w e))
        | inr (x, xs, e) ↦
            let n : (get_activity env user_id query w).total_pages ≡ pages_of total size =
              ground arith in
            ap first_pages n
            ∙ first_pages_lem (pages_of total size)
            ∙ ap (map item_of) (
                take_all (pages_of total size * size) rows
                  (omega (arith, feed-length, pages_enough total size positive)))
      ]

  -- A page shows rows of the feed of the account alone, of the event types asked for, and no more
  -- than its size.
  pub get_activity-mine :
      (rows : List SecurityEventLog) × ((get_activity env user_id query w).items ≡ map item_of rows)
      × All
          (λ e.
            (e.user_id ≡ some user_id)
            × (event_in e.event_type (resolve_user_activity_event_types query) ≡ true))
          rows
      × (length rows ≤ size)
  get_activity-mine =
      let p = activity_of user_id (resolve_user_activity_event_types query) in
      let Q = λ (e : SecurityEventLog).
        (e.user_id ≡ some user_id)
        × (event_in e.event_type (resolve_user_activity_event_types query) ≡ true) in
      let all = feed env user_id query w in
      let mine : All Q all =
        in_order-All env user_id query.order Q (env.find_many SecurityEventLog p w.security_events)
          (subst (All Q) (sym (env.find_many_lem SecurityEventLog p w.security_events)) (
            All-map (λ e. p e ≡ true) Q (select p w.security_events)
              (λ e h. activity_of-eq_true env user_id e (resolve_user_activity_event_types query) h)
              (All-select p w.security_events))) in
      let skip = (or_else query.page 1 - 1) * size in
      (
        take size (drop skip all),
        get_activity_items env user_id query w,
        All-take Q size (drop skip all) (All-drop Q skip all mine),
        length-take size (drop skip all),
      )
