-- ===== src/StateBackend/Requests.antt =====
-- What sequences of requests to misc/tf_state_backend_http/main.go do to the files.
use terraform_provider_zedam.Prelude.{
  Bool, true, false, List, [], ◌∷◌, ◌++◌, Option, none, some, ◌≡◌, refl, sym, subst, arith,
  Bool-cases, inl, inr, ◌⊎◌, ltb, length,
}
use terraform_provider_zedam.Text.{Text, codes, has_prefix, ◌=ᵗ◌}
use terraform_provider_zedam.Text.Laws.{=ᵗ→≡}
use terraform_provider_zedam.StateBackend.{
  Request, Method, get, post, put, delete, lock, unlock, other, content, Removal, removed, absent,
  failed, Files, ok, max_body_size, dir_of, full_path, escapes, clean, join_clean, made, written,
  post_body, answer_delete, handle_get, handle_post, handle_delete, read_body, dispatch,
  state_handler,
}

module _ (fs : Files) where
  open fs use {Store, read_file, mkdir_all, write_file, remove}

  -- The requests one after the other.
  unfoldable pub serve_all : Text → List Request → Store → Store
  serve_all dir [] store = store
  serve_all dir (req ∷ reqs) store = serve_all dir reqs (state_handler fs dir req store).1

  -- A clean path that is the directory or below it.
  abbrev pub IsInside : Text → Text → Type 0
  IsInside dir p =
      ((x : Text) × (p ≡ clean x)) × ((has_prefix p (dir ++ codes "/") ≡ true) ⊎ (p ≡ dir))

  -- What holds of the store and is kept by the operations on the clean paths inside a directory, and
  -- by the creation of the directories above such a path: for a directory without symbolic links,
  -- the content of each file that is not in it is such a thing.
  pub record IsKept (dir : Text) (P : Store → Type 0) : Type 0 where
    pub by_mkdir : (p : Text) (s : Store) → IsInside dir p → P s → P (mkdir_all (dir_of p) s).1
    pub by_write : (p text : Text) (s : Store) → IsInside dir p → P s → P (write_file p text s).1
    pub by_remove : (p : Text) (s : Store) → IsInside dir p → P s → P (remove p s).1

  written_snd : (r : Bool × Store) → (written fs r).1 ≡ r.1
  written_snd (true, s) = refl
  written_snd (false, s) = refl

  deleted_snd : (r : Removal × Store) → (answer_delete fs r).1 ≡ r.1
  deleted_snd (removed, s) = refl
  deleted_snd (absent, s) = refl
  deleted_snd (failed, s) = refl

  module _ (dir : Text) (P : Store → Type 0) (kept : IsKept dir P) where
    made_kept : (p text : Text) (r : Bool × Store) → IsInside dir p → P r.1 → P (made fs p text r).1
    made_kept p text (true, s) inside held =
        subst P (sym (written_snd (write_file p text s))) (kept.by_write p text s inside held)
    made_kept p text (false, s) inside held = held

    posted_kept :
        (p : Text) (body : Option Text) (s : Store)
        → IsInside dir p
        → P s
        → P (post_body fs p body s).1
    posted_kept p none s inside held = held
    posted_kept p (some text) s inside held =
        made_kept p text (mkdir_all (dir_of p) s) inside (kept.by_mkdir p s inside held)

    dispatch_kept :
        (m : Method) (p : Text) (body : Option Text) (s : Store)
        → IsInside dir p
        → P s
        → P (dispatch fs m p body s).1
    unfolding dispatch handle_get handle_post handle_delete
    dispatch_kept get p body s inside held = held
    dispatch_kept post p body s inside held = posted_kept p (read_body fs body) s inside held
    dispatch_kept put p body s inside held = posted_kept p (read_body fs body) s inside held
    dispatch_kept delete p body s inside held =
        subst P (sym (deleted_snd (remove p s))) (kept.by_remove p s inside held)
    dispatch_kept lock p body s inside held = held
    dispatch_kept unlock p body s inside held = held
    dispatch_kept (other name) p body s inside held = held

    passed_inside :
        (full : Text)
        → escapes dir full ≡ false
        → (has_prefix full (dir ++ codes "/") ≡ true) ⊎ (full ≡ dir)
    unfolding escapes
    passed_inside full e = elim (Bool-cases (has_prefix full (dir ++ codes "/"))) [
      | inl y ↦ inl y
      | inr n ↦ elim (Bool-cases (full =ᵗ dir)) [
        | inl same ↦ inr (=ᵗ→≡ full dir same)
        | inr differ ↦ absurd (ground (arith, n, differ, e))
      ]
    ]

    full_path-clean : (path : Text) → (x : Text) × (full_path dir path ≡ clean x)
    unfolding full_path join_clean
    full_path-clean path = (_, refl)

    handled_kept : (req : Request) (s : Store) → P s → P (state_handler fs dir req s).1
    unfolding state_handler
    handled_kept req s held = elim (Bool-cases (escapes dir (full_path dir req.path))) [
      | inl y ↦ rw y held
      | inr n ↦ rw n (
          dispatch_kept req.method (full_path dir req.path) req.body s
            (full_path-clean req.path, passed_inside (full_path dir req.path) n) held)
    ]

    -- What holds of the store and is kept by the operations on the clean paths inside the state
    -- directory, and by the creation of directories above these, holds after any requests, with
    -- whatever methods, paths and bodies: they touch nothing else.
    pub serve_all-IsKept : (reqs : List Request) (s : Store) → P s → P (serve_all dir reqs s)
    unfolding serve_all
    serve_all-IsKept [] s held = held
    serve_all-IsKept (req ∷ reqs) s held =
        serve_all-IsKept reqs (state_handler fs dir req s).1 (handled_kept req s held)

  -- The two methods that store a body.
  abbrev pub IsWrite : Method → Type 0
  IsWrite m = (m ≡ post) ⊎ (m ≡ put)

  module _
      (stored : (p text : Text) (s : Store)
        → (write_file p text s).0 ≡ true
        → read_file p (write_file p text s).1 ≡ content text) where
    written_stored :
        (p text : Text) (r : Bool × Store)
        → (r.0 ≡ true → read_file p r.1 ≡ content text)
        → (written fs r).0.code ≡ 200
        → read_file p (written fs r).1 ≡ content text
    written_stored p text (true, s) h c = h refl
    written_stored p text (false, s) h c = absurd (omega arith)

    made_stored :
        (p text : Text) (r : Bool × Store)
        → (made fs p text r).0.code ≡ 200
        → read_file p (made fs p text r).1 ≡ content text
    made_stored p text (true, s) c = written_stored p text (write_file p text s) (stored p text s) c
    made_stored p text (false, s) c = absurd (omega arith)

    handle_post_stored :
        (p text : Text) (s : Store)
        → (handle_post fs p (some text) s).0.code ≡ 200
        → read_file p (handle_post fs p (some text) s).1 ≡ content text
    unfolding handle_post read_body
    handle_post_stored p text s = elim (Bool-cases (ltb max_body_size (length text))) [
      | inl y ↦ rw y (λ c. absurd (omega arith))
      | inr n ↦ rw n (λ c. made_stored p text (mkdir_all (dir_of p) s) c)
    ]

    dispatch_stored :
        (m : Method) (p text : Text) (s : Store)
        → IsWrite m
        → (dispatch fs m p (some text) s).0.code ≡ 200
        → read_file p (dispatch fs m p (some text) s).1 ≡ content text
    unfolding dispatch
    dispatch_stored m p text s (inl e) = rw e (handle_post_stored p text s)
    dispatch_stored m p text s (inr e) = rw e (handle_post_stored p text s)

    got_lem :
        (dir p text : Text) (body : Option Text) (s : Store)
        → escapes dir (full_path dir p) ≡ false
        → read_file (full_path dir p) s ≡ content text
        → state_handler fs dir (record { method = get; path = p; body = body }) s ≡ (ok text, s)
    unfolding state_handler dispatch handle_get
    got_lem dir p text body s inside held = rw (inside, held) refl

    handled_stored :
        (dir p text : Text) (m : Method) (s : Store)
        → IsWrite m
        → (state_handler fs dir (record { method = m; path = p; body = some text }) s).0.code ≡ 200
        → (escapes dir (full_path dir p) ≡ false)
          × (read_file
                (full_path dir p)
                (state_handler fs dir (record { method = m; path = p; body = some text }) s).1
              ≡ content text)
    unfolding state_handler
    handled_stored dir p text m s hm = elim (Bool-cases (escapes dir (full_path dir p))) [
      | inl y ↦ rw y (λ c. absurd (omega arith))
      | inr n ↦ rw n (λ c. (refl, dispatch_stored m (full_path dir p) text s hm c))
    ]

    -- If a file that was written with success is read back, then a state that was stored with success
    -- is what a request for the same path then gets, and that request changes nothing.
    pub get_after_put :
        (dir p text : Text) (m : Method) (body : Option Text) (s : Store)
        → IsWrite m
        → (state_handler fs dir (record { method = m; path = p; body = some text }) s).0.code ≡ 200
        → state_handler fs dir
            (record { method = get; path = p; body = body })
            (state_handler fs dir (record { method = m; path = p; body = some text }) s).1
          ≡ (
            ok text,
            (state_handler fs dir (record { method = m; path = p; body = some text }) s).1,
          )
    get_after_put dir p text m body s hm c =
        let (inside, held) = handled_stored dir p text m s hm c in
        got_lem dir p text body
          (state_handler fs dir (record { method = m; path = p; body = some text }) s).1 inside held
