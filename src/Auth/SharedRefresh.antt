-- ===== src/Auth/SharedRefresh.antt =====
-- modules/auth/auth.service.ts: calls for one token that overlap share one rotation.
use gracon_user_auth_service.Common.{
  ℕ, ◌≡◌, refl, sym, ap, ◌∙◌, arith, Bool, none, some, List, [], ◌∷◌, ◌++◌, find, select,
  update_where, ==_refl,
}
use gracon_user_auth_service.Platform.{World, Env, Moment}
use gracon_user_auth_service.Common.Tables.{update_where_missing, remove_missing}
use gracon_user_auth_service.Auth.{Origin, rotate_refresh_token}
use gracon_user_auth_service.Auth.SingleFlight.{
  Run, Flight, Refreshes, flies_for, join, take_off, run_single_flight_refresh, landed, answers_of,
  settle_flight, finish, run_of, rotate_flight, land_task, end_task, rotate,
}

-- A call: who makes it, and how.
pub record Caller : Type 0 where
  pub id : ℕ
  pub from : Origin
  pub require_full : Bool

abbrev pub ids : List Caller → List ℕ
ids [] = []
ids (c ∷ cs) = c.id ∷ ids cs

-- Calls for one token, one after the other.
unfoldable pub calls : List Caller → ℕ → Refreshes → Refreshes
calls [] token_hash s = s
calls (c ∷ cs) token_hash s =
    calls cs token_hash (run_single_flight_refresh c.id token_hash c.from c.require_full s)

append_one : (xs ys : List ℕ) (x : ℕ) → (xs ++ x ∷ []) ++ ys ≡ xs ++ x ∷ ys
append_one [] ys x = refl
append_one (z ∷ xs) ys x = rw (append_one xs ys x)

abbrev joined : Flight → List Caller → Flight
joined f cs = record f { callers = f.callers ++ ids cs }

-- A state whose first flight is of the token, and no other is.
abbrev with_flight : Refreshes → Flight → List Flight → Refreshes
with_flight s f rest = record s { pending = f ∷ rest }

join_flight :
    (c : Caller) (s : Refreshes) (f : Flight) (rest : List Flight)
    → find (flies_for f.token_hash) rest ≡ none
    → run_single_flight_refresh c.id f.token_hash c.from c.require_full (with_flight s f rest)
      ≡ with_flight s (join c.id f) rest
unfolding run_single_flight_refresh find update_where
join_flight c s f rest alone = ground (
  arith,
  ==_refl f.token_hash,
  update_where_missing (flies_for f.token_hash) (join c.id) rest alone,
)

append_nil : (xs : List ℕ) → xs ++ [] ≡ xs
append_nil [] = refl
append_nil (x ∷ xs) = rw (append_nil xs)

calls_join :
    (cs : List Caller) (s : Refreshes) (f : Flight) (rest : List Flight)
    → find (flies_for f.token_hash) rest ≡ none
    → calls cs f.token_hash (with_flight s f rest) ≡ with_flight s (joined f cs) rest
unfolding calls
calls_join [] s f rest alone =
    ap (λ z. with_flight s (record f { callers = z }) rest) (sym (append_nil f.callers))
calls_join (c ∷ cs) s f rest alone =
    ap (calls cs f.token_hash) (join_flight c s f rest alone)
    ∙ calls_join cs s (join c.id f) rest alone
    ∙ ap (λ z. with_flight s (record f { callers = z }) rest) (append_one f.callers (ids cs) c.id)

module _ (env : Env) where
  rotate_first :
      (s : Refreshes) (f : Flight) (rest : List Flight) (at : Moment)
      → f.run ≡ none
      → find (flies_for f.token_hash) rest ≡ none
      → let r = run_of env f at s.world in
        rotate env f.token_hash at (with_flight s f rest) ≡ record s {
          world = (rotate_refresh_token env f.token_hash f.from f.require_full at s.world).1;
          pending = landed r f ∷ rest;
          runs = s.runs ++ r ∷ [];
        }
  unfolding rotate rotate_flight land_task find update_where
  rotate_first s f rest at grounded alone = ground (
    arith,
    ==_refl f.token_hash,
    update_where_missing (flies_for f.token_hash) (landed (run_of env f at s.world)) rest alone,
  )

  finish_first :
      (s : Refreshes) (f : Flight) (rest : List Flight) (r : Run)
      → f.run ≡ some r
      → find (flies_for f.token_hash) rest ≡ none
      → finish f.token_hash (with_flight s f rest)
        ≡ record s { pending = rest; answers = s.answers ++ answers_of f.callers f.token_hash r }
  unfolding finish settle_flight find select
  finish_first s f rest r ran alone =
      ground (arith, ==_refl f.token_hash, remove_missing (flies_for f.token_hash) rest alone)

  end_first :
      (s : Refreshes) (f : Flight) (rest : List Flight) (r : Run) (w : World)
      → f.run ≡ none
      → find (flies_for f.token_hash) rest ≡ none
      → end_task f.token_hash r w (with_flight s f rest)
        ≡ record s { world = w; pending = landed r f ∷ rest; runs = s.runs ++ r ∷ [] }
  unfolding end_task land_task find update_where
  end_first s f rest r w grounded alone = ground (
    arith,
    ==_refl f.token_hash,
    update_where_missing (flies_for f.token_hash) (landed r) rest alone,
  )

  call_first :
      (c : Caller) (token_hash : ℕ) (s : Refreshes)
      → find (flies_for token_hash) s.pending ≡ none
      → run_single_flight_refresh c.id token_hash c.from c.require_full s
        ≡ with_flight s (take_off c.id token_hash c.from c.require_full) s.pending
  unfolding run_single_flight_refresh
  call_first c token_hash s free = ground arith

  -- A first call, further calls before the task ends, its end, further calls before the `finally`.
  unfoldable pub shared :
      Caller → List Caller → List Caller → ℕ → Run → World → Refreshes → Refreshes
  shared c before after token_hash r w s =
      finish token_hash
        (calls after token_hash (end_task token_hash r w (calls (c ∷ before) token_hash s)))

  -- Whatever the task of a refresh comes to, and whatever it and other handlers have written when it
  -- ends, the calls for its token that overlap with it, however many, start no other task and all get
  -- its result; the flights of other tokens stay as they are.
  pub shared_lem :
      (c : Caller) (before after : List Caller) (token_hash : ℕ) (r : Run) (w : World)
      (s : Refreshes)
      → find (flies_for token_hash) s.pending ≡ none
      → shared c before after token_hash r w s ≡ record s {
        world = w;
        runs = s.runs ++ r ∷ [];
        answers = s.answers ++ answers_of (ids (c ∷ before) ++ ids after) token_hash r;
      }
  unfolding shared calls
  shared_lem c before after token_hash r w s free =
      let f = take_off c.id token_hash c.from c.require_full in
      let waiting = joined f before in
      let flown : Flight = landed r waiting in
      let ended = record s { world = w; runs = s.runs ++ r ∷ [] } in
      ap
        (λ z.
          finish token_hash
            (calls after token_hash (end_task token_hash r w (calls before token_hash z))))
        (call_first c token_hash s free)
      ∙ ap (λ z. finish token_hash (calls after token_hash (end_task token_hash r w z)))
          (calls_join before s f s.pending free)
      ∙ ap (λ z. finish token_hash (calls after token_hash z))
          (end_first s waiting s.pending r w refl free)
      ∙ ap (finish token_hash) (calls_join after ended flown s.pending free)
      ∙ finish_first ended (joined flown after) s.pending r refl free

  -- A first call, further calls before the rotation, the rotation, further calls before it lands.
  unfoldable pub overlapping :
      Caller → List Caller → List Caller → ℕ → Moment → Refreshes → Refreshes
  overlapping c before after token_hash at s =
      finish token_hash
        (calls after token_hash (rotate env token_hash at (calls (c ∷ before) token_hash s)))

  abbrev pub shared_run : Caller → ℕ → Moment → World → Run
  shared_run c token_hash at w = run_of env (take_off c.id token_hash c.from c.require_full) at w

  -- Calls for a token that overlap, however many, rotate it once, as the first call alone would have
  -- done, and all get the result of that rotation; the refreshes of other tokens stay as they are.
  pub overlapping_lem :
      (c : Caller) (before after : List Caller) (token_hash : ℕ) (at : Moment) (s : Refreshes)
      → find (flies_for token_hash) s.pending ≡ none
      → overlapping c before after token_hash at s ≡ record s {
        world = (rotate_refresh_token env token_hash c.from c.require_full at s.world).1;
        runs = s.runs ++ shared_run c token_hash at s.world ∷ [];
        answers =
            s.answers
            ++ answers_of
                (ids (c ∷ before) ++ ids after)
                token_hash
                (shared_run c token_hash at s.world);
      }
  unfolding overlapping calls
  overlapping_lem c before after token_hash at s free =
      let f = take_off c.id token_hash c.from c.require_full in
      let r = shared_run c token_hash at s.world in
      let waiting = joined f before in
      let flown : Flight = landed r waiting in
      let rotated = record s {
        world = (rotate_refresh_token env token_hash c.from c.require_full at s.world).1;
        runs = s.runs ++ r ∷ [];
      } in
      ap
        (λ z.
          finish token_hash
            (calls after token_hash (rotate env token_hash at (calls before token_hash z))))
        (call_first c token_hash s free)
      ∙ ap (λ z. finish token_hash (calls after token_hash (rotate env token_hash at z)))
          (calls_join before s f s.pending free)
      ∙ ap (λ z. finish token_hash (calls after token_hash z))
          (rotate_first s waiting s.pending at refl free)
      ∙ ap (finish token_hash) (calls_join after rotated flown s.pending free)
      ∙ finish_first rotated (joined flown after) s.pending r refl free
