-- ===== src/Auth/SingleFlight.antt =====
-- modules/auth/auth.service.ts: `pendingRefreshes`, the map of the refreshes that are under way, and
-- the calls that come in while they are. A task, once started, awaits the database, and other handlers
-- write meanwhile: `end_task` takes what the task has come to and the state at that time as they are,
-- and `rotate` is the task when no other handler writes. Between the end of the task and the `finally`
-- that takes the flight out of the map other calls can come in.
use gracon_user_auth_service.Common.{
  ℕ, Bool, not, Option, none, some, List, [], ◌∷◌, ◌++◌, ◌==◌, if◌then◌else◌, find, select,
  update_where,
}
use gracon_user_auth_service.Platform.{World, forbidden, Outcome, ok, throws, Env, Moment}
use gracon_user_auth_service.Auth.{AuthTokens, Origin, rotate_refresh_token, is_limited}

-- A rotation that has run.
pub record Run : Type 0 where
  pub token_hash : ℕ
  pub from : Origin
  pub require_full : Bool
  pub at : Moment
  pub result : Outcome AuthTokens

-- A promise in the map: the arguments of the call that started it, the callers that wait for it, and
-- the rotation once it has run.
pub record Flight : Type 0 where
  pub token_hash : ℕ
  pub from : Origin
  pub require_full : Bool
  pub callers : List ℕ
  pub run : Option Run

-- What a caller gets.
pub record Answer : Type 0 where
  pub caller : ℕ
  pub token_hash : ℕ
  pub run : Run

pub record Refreshes : Type 0 where
  pub world : World
  pub pending : List Flight
  pub runs : List Run
  pub answers : List Answer

abbrev pub flies_for : ℕ → Flight → Bool
flies_for token_hash f = f.token_hash == token_hash

abbrev pub join : ℕ → Flight → Flight
join caller f = record f { callers = f.callers ++ caller ∷ [] }

abbrev pub take_off : ℕ → ℕ → Origin → Bool → Flight
take_off caller token_hash from require_full = record {
  token_hash = token_hash;
  from = from;
  require_full = require_full;
  callers = caller ∷ [];
  run = none;
}

-- `runSingleFlightRefresh`: a call joins the flight of its token, or starts one.
unfoldable pub run_single_flight_refresh : ℕ → ℕ → Origin → Bool → Refreshes → Refreshes
run_single_flight_refresh caller token_hash from require_full s =
    elim (find (flies_for token_hash) s.pending) [
      | some f ↦ record s { pending = update_where (flies_for token_hash) (join caller) s.pending }
      | none ↦ record s { pending = take_off caller token_hash from require_full ∷ s.pending }
    ]

abbrev pub landed : Run → Flight → Flight
landed r f = record f { run = some r }

abbrev pub answers_of : List ℕ → ℕ → Run → List Answer
answers_of [] token_hash r = []
answers_of (c ∷ cs) token_hash r =
    record { caller = c; token_hash = token_hash; run = r } ∷ answers_of cs token_hash r

-- The `finally`: the flight leaves the map, and its callers get what the rotation came to.
unfoldable pub settle_flight : Flight → Refreshes → Refreshes
settle_flight f s = elim f.run [
  | none ↦ s
  | some r ↦ record s {
    pending = select (λ g. not (flies_for f.token_hash g)) s.pending;
    answers = s.answers ++ answers_of f.callers f.token_hash r;
  }
]

unfoldable pub finish : ℕ → Refreshes → Refreshes
unfolding settle_flight
finish token_hash s = elim (find (flies_for token_hash) s.pending) [
  | none ↦ s
  | some f ↦ settle_flight f s
]

-- The end of a flight's task, which comes once: its result, and the state that it and the others have
-- left.
unfoldable pub land_task : Flight → Run → World → Refreshes → Refreshes
land_task f r w s = elim f.run [
  | some _ ↦ s
  | none ↦ record s {
    world = w;
    pending = update_where (flies_for f.token_hash) (landed r) s.pending;
    runs = s.runs ++ r ∷ [];
  }
]

unfoldable pub end_task : ℕ → Run → World → Refreshes → Refreshes
unfolding land_task
end_task token_hash r w s = elim (find (flies_for token_hash) s.pending) [
  | none ↦ s
  | some f ↦ land_task f r w s
]

module _ (env : Env) where
  abbrev pub run_of : Flight → Moment → World → Run
  run_of f at w = record {
    token_hash = f.token_hash;
    from = f.from;
    require_full = f.require_full;
    at = at;
    result = (rotate_refresh_token env f.token_hash f.from f.require_full at w).0;
  }

  -- The task of a flight, from its start to its end with no writes of others.
  unfoldable pub rotate_flight : Flight → Moment → Refreshes → Refreshes
  unfolding land_task
  rotate_flight f at s =
      land_task f (run_of f at s.world)
        (rotate_refresh_token env f.token_hash f.from f.require_full at s.world).1 s

  unfoldable pub rotate : ℕ → Moment → Refreshes → Refreshes
  unfolding rotate_flight
  rotate token_hash at s = elim (find (flies_for token_hash) s.pending) [
    | none ↦ s
    | some f ↦ rotate_flight f at s
  ]

-- What a caller of `upgradeSession` makes of the shared result.
unfoldable pub upgrade_answer : Outcome AuthTokens → Outcome AuthTokens
upgrade_answer (throws e) = throws e
upgrade_answer (ok tokens) =
    if is_limited tokens.token_type
    then throws (forbidden "Identity verification is required before this session can be upgraded.")
    else ok tokens

-- Nothing is under way.
abbrev pub quiet : World → Refreshes
quiet w = record { world = w; pending = []; runs = []; answers = [] }
