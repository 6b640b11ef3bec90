-- ===== src/Users/Profile/Image.antt =====
-- The replacement of a profile image (`uploadProfileImage` of modules/users/users.service.ts, with
-- common/aws/s3/s3.service.ts).
use gracon_user_auth_service.Common.{
  ℕ, ◌≤◌, ◌≡◌, refl, sym, ap, ◌∙◌, inl, inr, arith, true, Option, none, some, List, [], ◌∷◌, ◌++◌,
  String, ◌==◌, Option-cases, find, update_where, contains,
}
use gracon_user_auth_service.Platform.{User, World, ok, Env}
use gracon_user_auth_service.Platform.Laws.{Outcome-cases, Reply-cases}
use gracon_user_auth_service.Storage.{
  ImageFile, allowed_image_types, max_file_size_bytes, validate_file, upload_to_s3,
  build_profile_image_key, upload_profile_image,
}
use gracon_user_auth_service.Users.Access.{find_by_id, get_presigned_url}
use gracon_user_auth_service.Users.Profile.{remove_image, replace_image, upload_image}

-- A file that is accepted.
abbrev pub IsImage : ImageFile → Type 0
IsImage file =
    (file.has_buffer ≡ true)
    × (contains file.mimetype allowed_image_types ≡ true)
    × (file.size ≤ max_file_size_bytes)

module _ (env : Env) (folder : String) where
  pub upload_profile_image-eq-ok :
      (user_id : ℕ) (file : ImageFile) (hex : String) (w : World) {key : String} {w' : World}
      → upload_profile_image env folder user_id file hex w ≡ (ok key, w')
      → IsImage file
        × (key ≡ build_profile_image_key env folder user_id hex file.mimetype)
        × (w' ≡ record w { objects = w.objects ++ key ∷ [] })
  unfolding upload_profile_image validate_file upload_to_s3
  upload_profile_image-eq-ok user_id file hex w {key} {w'} h =
      let name = build_profile_image_key env folder user_id hex file.mimetype in
      elim (Reply-cases (env.put_object name w.objects)) [
        | inl (keys, e) ↦
            let stored = env.put_object_lem name w.objects keys e in
            ((ground arith, ground arith, ground arith), ground arith, ground arith)
        | inr (c, e) ↦ ground arith
      ]

  -- What a replacement that succeeds rests on and does: `gone` are the objects without the old image.
  pub record Replaces (user_id : ℕ) (file : ImageFile) (hex : String) (w w' : World) : Type 0 where
    pub account : User
    pub found : find (λ u. u.id == user_id) w.users ≡ some account
    pub image : IsImage file
    pub gone : List String
    pub removed : gone ≡ (remove_image env account.image_url w).1.objects
    pub objects :
        w'.objects ≡ gone ++ build_profile_image_key env folder user_id hex file.mimetype ∷ []
    pub users :
        w'.users
        ≡ update_where
            (λ (u : User). u.id == user_id)
            (λ u. record u {
              image_url = some (build_profile_image_key env folder user_id hex file.mimetype);
            })
            w.users

  remove_image_frame :
      (image : Option String) (w : World)
      → ((remove_image env image w).1 ≡ record w { objects = (remove_image env image w).1.objects })
        × ((remove_image env image w).0 ≡ ok tt)
  remove_image_frame none w = (refl, refl)
  remove_image_frame (some key) w = (ground arith, ground arith)

  -- A replacement that succeeds is of an image of an allowed type and of 5 MB at most; the old image
  -- is removed, the new one stored under a fresh name in the account's folder, and the account refers
  -- to it.
  pub upload_image-Replaces :
      (user_id : ℕ) (file : ImageFile) (hex : String) (now : ℕ) (w : World) {r : String × ℕ}
      {w' : World}
      → upload_image env folder user_id file hex now w ≡ (ok r, w')
      → Replaces user_id file hex w w'
  unfolding upload_image replace_image get_presigned_url
  upload_image-Replaces user_id file hex now w {r} {w'} h =
      elim (Option-cases (find_by_id env user_id w)) [
        | inl e ↦ ground arith
        | inr (u, e) ↦
            let found = sym (env.find_first_lem User (λ a. a.id == user_id) w.users) ∙ e in
            let (frame, quiet) = remove_image_frame u.image_url w in
            let v = (remove_image env u.image_url w).1 in
            elim (Outcome-cases (upload_profile_image env folder user_id file hex v)) [
              | inr (x, v', k) ↦ ground arith
              | inl (key, v', k) ↦
                  let (image, name, stored) = upload_profile_image-eq-ok user_id file hex v k in
                  let set = λ (k : String) (a : User). record a { image_url = some k } in
                  let by_id = λ (a : User). a.id == user_id in
                  let done : w' ≡ record v' { users = env.update User by_id (set key) v'.users } =
                    ground arith in
                  let same : v'.users ≡ w.users =
                    ap (λ (z : World). z.users) stored ∙ ap (λ (z : World). z.users) frame in
                  record {
                    account = u;
                    found = found;
                    image = image;
                    gone = v.objects;
                    removed = refl;
                    objects =
                        ap (λ (z : World). z.objects) done
                        ∙ ap (λ (z : World). z.objects) stored
                        ∙ ap (λ k. v.objects ++ k ∷ []) name;
                    users =
                        ap (λ (z : World). z.users) done
                        ∙ ap (env.update User by_id (set key)) same
                        ∙ env.update_lem User by_id (set key) w.users u found
                        ∙ ap (λ k. update_where by_id (set k) w.users) name;
                  }
            ]
      ]
