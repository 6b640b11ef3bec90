-- ===== src/Seeding/Again.antt =====
-- prisma/seed-verified-users.ts: a second run of the script.
use gracon_user_auth_service.Common.{
  ℕ, ◌+◌, ◌≡◌, sym, ap, subst, ◌∙◌, inl, inr, arith, some, List, [], ◌∷◌, String, ◌==◌, truthy,
  or_else, Bool-cases, Option-cases, All, length, take, ==_iff,
}
use gracon_user_auth_service.Platform.{Reply, accepted, World, ok, Env}
use gracon_user_auth_service.Platform.Laws.{Reply-cases}
use gracon_user_auth_service.Platform.Laws.{Result-cases}
use gracon_user_auth_service.Seeding.{
  FakeVerifiedUserInput, fake_verified_user_password, generate_fake_verified_users,
}
use gracon_user_auth_service.Seeding.Search.{AreFresh, generate_fake_verified_users-AreFresh}
use gracon_user_auth_service.Seeding.Script.{
  user_count, SeedEnvironment, enforce_seed_safety_gate, FakeVerifiedUserSeedResult, ScriptDraw,
  emails_of, phones_of, create_verified_user, is_seeded, count_created, count_skipped, seed_rows,
  write_seed, seed_verified_users,
}
use gracon_user_auth_service.Seeding.Rows.{
  HasRow, is_seeded-HasRow, HasRow-is_seeded, create_verified_user-HasRow,
}

module _ (env : Env) (birth_time : FakeVerifiedUserInput → ℕ) where
  abbrev total : FakeVerifiedUserSeedResult → ℕ
  total r = r.created + r.skipped

  -- What the loop leaves: a row for every number, those there were before included, and a count that
  -- has grown by the number of accounts.
  record Leaves (us : List FakeVerifiedUserInput) (r : FakeVerifiedUserSeedResult) (w : World)
      (r' : FakeVerifiedUserSeedResult) (w' : World) : Type 0 where
    rows : All (λ (u : FakeVerifiedUserInput). HasRow env birth_time u.nid w') us
    kept : (number : String) → HasRow env birth_time number w → HasRow env birth_time number w'
    counted : total r' ≡ total r + length us

  seed_rows-Leaves :
      (us : List FakeVerifiedUserInput) (password_hash : String) (draw : ScriptDraw) (now : ℕ)
      (r : FakeVerifiedUserSeedResult) (w : World) (r' : FakeVerifiedUserSeedResult) (w' : World)
      → seed_rows env birth_time us password_hash draw now (r, w) ≡ accepted (r', w')
      → Leaves us r w r' w'
  unfolding seed_rows
  seed_rows-Leaves [] password_hash draw now r w r' w' h =
      let same : r ≡ r' = ground arith in
      let still : w ≡ w' = ground arith in
      record {
        rows = tt;
        kept = λ number k. subst (HasRow env birth_time number) still k;
        counted = ap total (sym same) ∙ omega arith;
      }
  seed_rows-Leaves (u ∷ us) password_hash draw now r w r' w' h =
      elim (Bool-cases (is_seeded env birth_time u w)) [
        | inl there ↦
            let rest =
              seed_rows-Leaves us password_hash draw now (count_skipped r) w r' w' (ground arith) in
            record {
              rows = (rest.kept u.nid (is_seeded-HasRow env birth_time u w there), rest.rows);
              kept = rest.kept;
              counted = omega (arith, rest.counted);
            }
        | inr fresh ↦
            elim (Reply-cases (
              create_verified_user env birth_time u password_hash (draw.nid_vector r.created)
                (draw.pid_vector r.created) now w)) [
                  | inr (c, e) ↦ absurd (ground arith)
                  | inl (v, e) ↦
                      let (has, keeps) =
                        create_verified_user-HasRow env birth_time u password_hash
                          (draw.nid_vector r.created) (draw.pid_vector r.created) now w v fresh e in
                      let rest =
                        seed_rows-Leaves us password_hash draw now (count_created r) v r' w'
                          (ground arith) in
                      record {
                        rows = (rest.kept u.nid has, rest.rows);
                        kept = λ number k. rest.kept number (keeps number k);
                        counted = omega (arith, rest.counted);
                      }
                ]
      ]

  -- Where every number has a row, the loop skips every account.
  seed_rows_again :
      (us : List FakeVerifiedUserInput) (password_hash : String) (draw : ScriptDraw) (now : ℕ)
      (r : FakeVerifiedUserSeedResult) (w : World)
      → All (λ (u : FakeVerifiedUserInput). HasRow env birth_time u.nid w) us
      → seed_rows env birth_time us password_hash draw now (r, w)
        ≡ accepted (record r { skipped = r.skipped + length us }, w)
  unfolding seed_rows
  seed_rows_again [] password_hash draw now r w a =
      ap (λ n. accepted (record r { skipped = n }, w)) (omega arith)
  seed_rows_again (u ∷ us) password_hash draw now r w a =
      rw (HasRow-is_seeded env birth_time u w a.0) (
        seed_rows_again us password_hash draw now (count_skipped r) w a.1
        ∙ ap (λ n. accepted (record r { skipped = n }, w)) (omega arith))

  -- The numbers depend on the index alone, so that rows of one run serve another.
  HasRow-numbers :
      (index : ℕ) (w : World) (emails phones emails' phones' : List String)
      (us vs : List FakeVerifiedUserInput)
      → AreFresh index emails phones us
      → AreFresh index emails' phones' vs
      → length us ≡ length vs
      → All (λ (u : FakeVerifiedUserInput). HasRow env birth_time u.nid w) us
      → All (λ (u : FakeVerifiedUserInput). HasRow env birth_time u.nid w) vs
  HasRow-numbers index w emails phones emails' phones' us [] f g n a = tt
  HasRow-numbers index w emails phones emails' phones' [] (v ∷ vs) f g n a = absurd (omega arith)
  HasRow-numbers index w emails phones emails' phones' (u ∷ us) (v ∷ vs) (_, _, k, f) (_, _, m, g) n
        a =
      (
        subst (λ z. HasRow env birth_time z w) (k ∙ sym m) a.0,
        HasRow-numbers (index + 1) w (u.email ∷ emails) (u.phone_number ∷ phones)
            (v.email ∷ emails') (v.phone_number ∷ phones') us vs f g (omega arith) a.1,
      )

  -- What a run that succeeds comes to.
  record Runs (draw : ScriptDraw) (now : ℕ) (w : World) (r : FakeVerifiedUserSeedResult)
      (w' : World) : Type 0 where
    us : List FakeVerifiedUserInput
    generated :
        generate_fake_verified_users 0
          (take user_count draw.rows)
          (emails_of w.users)
          (phones_of w.users)
        ≡ some us
    enough : length (take user_count draw.rows) ≡ user_count
    looped :
        seed_rows env birth_time us
          (env.bcrypt_hash draw.salt fake_verified_user_password)
          draw
          now
          (record { created = 0; skipped = 0 }, w)
        ≡ accepted (r, w')

  write_seed-accepted :
      (us : List FakeVerifiedUserInput) (draw : ScriptDraw) (now : ℕ) (w : World)
      (r : FakeVerifiedUserSeedResult) (w' : World)
      → write_seed env birth_time us draw now w ≡ (ok r, w')
      → seed_rows env birth_time us
          (env.bcrypt_hash draw.salt fake_verified_user_password)
          draw
          now
          (record { created = 0; skipped = 0 }, w)
        ≡ accepted (r, w')
  unfolding write_seed
  write_seed-accepted us draw now w r w' h =
      let body =
        seed_rows env birth_time us (env.bcrypt_hash draw.salt fake_verified_user_password) draw now
          (record { created = 0; skipped = 0 }, w) in
      elim (Reply-cases (env.transaction (FakeVerifiedUserSeedResult × World) body)) [
        | inr (c, e) ↦ absurd (ground arith)
        | inl (s, e) ↦
            let done = env.transaction_lem (FakeVerifiedUserSeedResult × World) body s e in
            let same : s ≡ (r, w') = ground arith in done ∙ ap accepted same
      ]

  seed_verified_users-Runs :
      (e : SeedEnvironment) (draw : ScriptDraw) (now : ℕ) (w : World)
      (r : FakeVerifiedUserSeedResult) (w' : World)
      → seed_verified_users env birth_time e draw now w ≡ (ok r, w')
      → Runs draw now w r w'
  unfolding seed_verified_users
  seed_verified_users-Runs e draw now w r w' h =
      let rows = take user_count draw.rows in
      let drawn = generate_fake_verified_users 0 rows (emails_of w.users) (phones_of w.users) in
      elim (Result-cases (enforce_seed_safety_gate e)) [
        | inr (x, gate) ↦ absurd (ground arith)
        | inl (_, gate) ↦ elim (Bool-cases (truthy (or_else e.database_url ""))) [
          | inr unset ↦ absurd (ground arith)
          | inl is_set ↦ elim (Bool-cases (length rows == user_count)) [
            | inr few ↦ absurd (ground arith)
            | inl enough ↦ elim (Option-cases drawn) [
              | inl n ↦ absurd (ground arith)
              | inr (us, g) ↦ record {
                us = us;
                generated = g;
                enough = (==_iff (length rows) user_count).0 enough;
                looped = write_seed-accepted us draw now w r w' (ground arith);
              }
            ]
          ]
        ]
      ]

  -- A run that succeeds accounts for all hundred identity numbers. A second run that succeeds on what
  -- the first left, whatever it draws, creates no account and changes nothing.
  pub seed_verified_users_again :
      (e e' : SeedEnvironment) (draw draw' : ScriptDraw) (now now' : ℕ) (w w' w'' : World)
      (r r' : FakeVerifiedUserSeedResult)
      → seed_verified_users env birth_time e draw now w ≡ (ok r, w')
      → seed_verified_users env birth_time e' draw' now' w' ≡ (ok r', w'')
      → (r.created + r.skipped ≡ user_count)
        × (r' ≡ record { created = 0; skipped = user_count })
        × (w'' ≡ w')
  seed_verified_users_again e e' draw draw' now now' w w' w'' r r' h h' =
      let first = seed_verified_users-Runs e draw now w r w' h in
      let second = seed_verified_users-Runs e' draw' now' w' r' w'' h' in
      let (n, f) =
        generate_fake_verified_users-AreFresh 0 (take user_count draw.rows) (emails_of w.users)
          (phones_of w.users) first.generated in
      let (m, g) =
        generate_fake_verified_users-AreFresh 0 (take user_count draw'.rows) (emails_of w'.users)
          (phones_of w'.users) second.generated in
      let hash = env.bcrypt_hash draw.salt fake_verified_user_password in
      let left =
        seed_rows-Leaves first.us hash draw now (record { created = 0; skipped = 0 }) w r w'
          first.looped in
      let there =
        HasRow-numbers 0 w' (emails_of w.users) (phones_of w.users) (emails_of w'.users)
          (phones_of w'.users) first.us second.us f g (n ∙ first.enough ∙ sym (m ∙ second.enough))
          left.rows in
      let skipped =
        seed_rows_again second.us (env.bcrypt_hash draw'.salt fake_verified_user_password) draw'
          now' (record { created = 0; skipped = 0 }) w' there in
      concluded _ _ _ _ r r' _ w' w'' n m first.enough second.enough left.counted skipped
        second.looped
    where
      concluded :
          (a b c d : ℕ) (s s' : FakeVerifiedUserSeedResult)
          (x : Reply (FakeVerifiedUserSeedResult × World)) (v v' : World)
          → a ≡ c
          → b ≡ d
          → c ≡ user_count
          → d ≡ user_count
          → total s ≡ 0 + a
          → x ≡ accepted (record { created = 0; skipped = 0 + b }, v)
          → x ≡ accepted (s', v')
          → (s.created + s.skipped ≡ user_count)
            × (s' ≡ record { created = 0; skipped = user_count })
            × (v' ≡ v)
      concluded a b c d s s' x v v' p q p' q' t y z = (omega arith, ground arith, ground arith)
