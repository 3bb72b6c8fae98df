-- ===== src/NetNs.antt =====
-- internal/provider/netns_resource.go: a network namespace. A handler that goes on with a value
-- sets it as the new state, and with none removes the resource.
pub mod Listing
pub mod Delete
use terraform_provider_zedam.Prelude.{
  ℕ, Bool, true, false, ◌||◌, not, List, [], ◌∷◌, ◌++◌, Option, none, some, if◌then◌else◌,
}
use terraform_provider_zedam.Text.{Text, codes, ◌=ᵗ◌, is_empty, is_space, split}
use terraform_provider_zedam.ErrChecker.{contains_one}
use terraform_provider_zedam.GoError.{GoError, error_text}
use terraform_provider_zedam.Exec.{Result, Host, diagnostics, join_path}
use terraform_provider_zedam.Exec.Act.{Act, Step, go, stop, next, fail, pure, ◌>>=◌, ◌>>◌}
use terraform_provider_zedam.Attr.{Attr, known, value_string}
use terraform_provider_zedam.IpLink.{ProviderConfig}
use terraform_provider_zedam.Resource.{IpCommand, run_ip, run_or_fail, judge_err, prepare}

-- `NetNSModel`
pub record NetNsModel : Type 0 where
  pub id : Attr Text
  pub name : Attr Text

abbrev pub netns_error : Text
netns_error = codes "NetNS Resource Error"

-- `ipCmd` and `ipArgs` of each handler
abbrev pub ip_command : ProviderConfig → IpCommand
ip_command conf = (
  if conf.use_sudo then conf.sudo else conf.ip,
  if conf.use_sudo then codes "-n" ∷ conf.ip ∷ [] else [],
)

-- a field that is complete, if it has a byte
abbrev pub field : Text → List Text → List Text
field [] rest = rest
field (c ∷ word) rest = (c ∷ word) ∷ rest

unfoldable pub fields_from : Text → Text → List Text
fields_from word [] = field word []
fields_from word (c ∷ s) = elim (is_space c) [
  | true ↦ field word (fields_from [] s)
  | false ↦ fields_from (word ++ c ∷ []) s
]

-- `strings.Fields(s)`
unfoldable pub fields : Text → List Text
unfolding fields_from
fields s = fields_from [] s

abbrev pub first_is : Text → List Text → Bool
first_is name [] = false
first_is name (f ∷ fs) = f =ᵗ name

-- the loop over the lines of `ip netns list`
unfoldable pub listed : Text → List Text → Bool
unfolding fields
listed name [] = false
listed name (line ∷ lines) = first_is name (fields line) || listed name lines

unfoldable pub found : Text → Text → Bool
unfolding listed
found name stdout = listed name (split stdout 10)

-- the messages of a deletion that count as success
abbrev pub no_netns_strs : List Text
no_netns_strs =
    codes "No such file"
    ∷ codes "no such file"
    ∷ codes "Cannot find"
    ∷ codes "Invalid argument"
    ∷ []

module _ (h : Host) (conf : ProviderConfig) where
  open h use {World, remove}

  -- `getResourceDir`
  unfoldable pub netns_dir : Text → Text
  netns_dir id = join_path (join_path conf.lib_path (codes "netns")) id

  unfoldable pub create : NetNsModel → Act World NetNsModel
  create plan = do
    id ← prepare h netns_error (join_path conf.lib_path (codes "netns"))
    run_or_fail h (netns_dir id) (ip_command conf) netns_error
        (codes "Unable to create a new network namespace.")
        (codes "netns" ∷ codes "add" ∷ value_string plan.name ∷ [])
    pure (record plan { id = known id })

  -- what follows the list of the namespaces
  unfoldable pub after_list : NetNsModel → Result × World → Step (Option NetNsModel) × World
  after_list state (res, w) = elim res.error [
    | some e ↦
        fail netns_error (codes "Unable to list network namespaces: " ++ error_text e)
          (diagnostics res) w
    | none ↦
        if not (found (value_string state.name) res.stdout)
        then (go none, w)
        else (go (some state), w)
  ]

  unfoldable pub read : NetNsModel → Act World (Option NetNsModel)
  unfolding after_list
  read state w = after_list state (
      run_ip h (netns_dir (value_string state.id)) (ip_command conf)
        (codes "netns" ∷ codes "list" ∷ []) w)

  unfoldable pub update : NetNsModel → Act World NetNsModel
  update plan = fail (codes "NetNS Resource Update Error") (codes "Update is not supported.") []

  unfoldable pub remove_dir : Text → Act World (Unit {0})
  remove_dir d w =
      judge_err h (codes "NetNS Resource Delete Error")
        (λ e. codes "Can't delete NetNS resource directory: " ++ error_text e) (remove d w)

  unfoldable pub after_delete : Text → Result × World → Step (Unit {0}) × World
  unfolding remove_dir
  after_delete d (res, w) = elim res.error [
    | none ↦ remove_dir d w
    | some e ↦
        if not (contains_one (error_text e) no_netns_strs)
        then fail (codes "Failed to delete network namespace") (error_text e) (diagnostics res) w
        else remove_dir d w
  ]

  unfoldable pub delete : NetNsModel → Act World (Unit {0})
  unfolding after_delete
  delete state w =
      let d = netns_dir (value_string state.id) in
      after_delete d (
        run_ip h d (ip_command conf) (codes "netns" ∷ codes "delete" ∷ value_string state.name ∷ [])
          w)
