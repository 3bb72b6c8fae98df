-- ===== src/StateBackend.antt =====
-- misc/tf_state_backend_http/main.go: the HTTP back end for Terraform states. The files are an
-- interface over a store; the log and the headers of answers are left out.
pub mod Paths
pub mod Requests
use terraform_provider_zedam.Prelude.{
  ℕ, ◌*◌, ◌^◌, ltb, Bool, true, false, ◌&&◌, ◌||◌, not, ◌==◌, List, [], ◌∷◌, ◌++◌, Option, none,
  some, length, if◌then◌else◌, reverse, ◌≡◌, refl,
}
use terraform_provider_zedam.Text.{Text, codes, ◌=ᵗ◌, is_empty, has_prefix, split, join}

-- a component that `filepath.Clean` drops
abbrev pub is_dropped : Text → Bool
is_dropped c = is_empty c || c =ᵗ codes "."

-- one component onto those before it, the last one first
unfoldable pub push : Bool → List Text → Text → List Text
unfolding ◌=ᵗ◌
push rooted [] c =
    if is_dropped c then [] else if c =ᵗ codes ".." then if rooted then [] else c ∷ [] else c ∷ []
push rooted (last ∷ stack) c =
    if is_dropped c
    then last ∷ stack
    else if c =ᵗ codes ".."
    then if last =ᵗ codes ".." then c ∷ last ∷ stack else stack
    else c ∷ last ∷ stack

unfoldable pub walk : Bool → List Text → List Text → List Text
unfolding push
walk rooted stack [] = stack
walk rooted stack (c ∷ cs) = walk rooted (push rooted stack c) cs

-- a stack of components in order, before others
unfoldable pub unstack : List Text → List Text → List Text
unstack [] cs = cs
unstack (c ∷ stack) cs = unstack stack (c ∷ cs)

abbrev or_dot : Text → Text
or_dot t = if is_empty t then codes "." else t

-- `filepath.Clean`, on Unix
unfoldable pub clean : Text → Text
unfolding walk unstack
clean [] = codes "."
clean (c ∷ s) =
    if c == b'/'
    then b'/' ∷ join (unstack (walk true [] (split s b'/')) []) (codes "/")
    else or_dot (join (unstack (walk false [] (split (c ∷ s) b'/')) []) (codes "/"))

-- `filepath.Join` of two texts that are not empty
unfoldable pub join_clean : Text → Text → Text
join_clean a b = clean (a ++ (b'/' ∷ b))

up_to_slash : Text → Text
up_to_slash [] = []
up_to_slash (c ∷ s) = if c == b'/' then c ∷ s else up_to_slash s

-- `filepath.Dir`
unfoldable pub dir_of : Text → Text
unfolding up_to_slash
dir_of path = clean (reverse (up_to_slash (reverse path)))

pub data Method : Type 0 where
  get post put delete lock unlock : Method
  other : Text → Method

-- What a handler reads of a request: the body is `none` when reading it fails.
pub record Request : Type 0 where
  pub method : Method
  pub path : Text
  pub body : Option Text

-- the status code and the body of an answer
pub record Response : Type 0 where
  pub code : ℕ
  pub text : Text

-- the content of a file, or one of the two errors that `os.IsNotExist` tells apart
pub data Content : Type 0 where
  content : Text → Content
  missing : Content
  unreadable : Content

-- what `os.Remove` answers
pub data Removal : Type 0 where
  removed absent failed : Removal

-- The files that the program works on: `os.ReadFile`, `os.MkdirAll` and `os.WriteFile`, which say
-- whether they succeed, and `os.Remove`.
pub record Files : Type 1 where
  pub Store : Type 0
  pub read_file : Text → Store → Content
  pub mkdir_all : Text → Store → Bool × Store
  pub write_file : Text → Text → Store → Bool × Store
  pub remove : Text → Store → Removal × Store

abbrev pub max_body_size : ℕ
max_body_size = 10 * 2 ^ 20

-- `http.Error`, which ends the line
abbrev pub http_error : Text → ℕ → Response
http_error message code = record { code = code; text = message ++ codes "\n" }

abbrev pub internal_error : Response
internal_error = http_error (codes "Internal server error") 500

abbrev pub ok : Text → Response
ok text = record { code = 200; text = text }

-- `cleanPath` of the handler
unfoldable pub clean_path : Text → Text
unfolding clean ◌=ᵗ◌
clean_path path =
    let p = clean path in
    if p =ᵗ codes "/" || p =ᵗ codes "." || is_empty p then codes "/default.tfstate" else p

-- `fullPath`
unfoldable pub full_path : Text → Text → Text
unfolding join_clean
full_path dir path = join_clean dir (clean_path path)

-- the guard against paths outside the directory
unfoldable pub escapes : Text → Text → Bool
escapes dir full = not (has_prefix full (dir ++ codes "/")) && not (full =ᵗ dir)

module _ (fs : Files) where
  open fs use {Store, read_file, mkdir_all, write_file, remove}

  abbrev answer_get : Content → Response
  answer_get (content text) = ok text
  answer_get missing = http_error (codes "State not found") 404
  answer_get unreadable = internal_error

  -- `handleGet`
  unfoldable pub handle_get : Text → Store → Response × Store
  handle_get path store = (answer_get (read_file path store), store)

  abbrev written : Bool × Store → Response × Store
  written (true, store) = (ok [], store)
  written (false, store) = (internal_error, store)

  abbrev made : Text → Text → Bool × Store → Response × Store
  made path text (true, store) = written (write_file path text store)
  made path text (false, store) = (internal_error, store)

  -- the body of a request, within `http.MaxBytesReader`
  unfoldable pub read_body : Option Text → Option Text
  read_body none = none
  read_body (some text) = if ltb max_body_size (length text) then none else some text

  abbrev post_body : Text → Option Text → Store → Response × Store
  post_body path none store = (http_error (codes "Bad request") 400, store)
  post_body path (some text) store = made path text (mkdir_all (dir_of path) store)

  -- `handlePost`
  unfoldable pub handle_post : Text → Option Text → Store → Response × Store
  unfolding read_body
  handle_post path body store = post_body path (read_body body) store

  abbrev answer_delete : Removal × Store → Response × Store
  answer_delete (removed, store) = (ok [], store)
  answer_delete (absent, store) = (ok [], store)
  answer_delete (failed, store) = (internal_error, store)

  -- `handleDelete`
  unfoldable pub handle_delete : Text → Store → Response × Store
  handle_delete path store = answer_delete (remove path store)

  -- the `switch` on the method
  unfoldable pub dispatch : Method → Text → Option Text → Store → Response × Store
  unfolding handle_get handle_post handle_delete
  dispatch get path body store = handle_get path store
  dispatch post path body store = handle_post path body store
  dispatch put path body store = handle_post path body store
  dispatch delete path body store = handle_delete path store
  dispatch lock path body store = (ok [], store)
  dispatch unlock path body store = (ok [], store)
  dispatch (other name) path body store = (http_error (codes "Method not allowed") 405, store)

  -- `stateHandler`, with `absStateDir`
  unfoldable pub state_handler : Text → Request → Store → Response × Store
  unfolding dispatch full_path escapes
  state_handler dir req store =
      let full = full_path dir req.path in
      if escapes dir full
      then (http_error (codes "Invalid path") 400, store)
      else dispatch req.method full req.body store

cleans : clean (codes "/a/./b//../c/") ≡ codes "/a/c"
unfolding clean join split
cleans = refl

climbs : clean (codes "../a/../../b") ≡ codes "../../b"
unfolding clean join split
climbs = refl
