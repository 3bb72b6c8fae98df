-- ===== src/Resource.antt =====
-- What the handlers of the Linux networking resources share: the calls of Go's `net` package as
-- parameters, running `ip` with a diagnostic for its failure, and the directory of a resource.
pub mod Script
pub mod ReadLink
use terraform_provider_zedam.Prelude.{
  ℕ, Bool, true, false, ◌||◌, ◌&&◌, not, List, [], ◌∷◌, ◌++◌, Option, none, some, if◌then◌else◌,
}
use terraform_provider_zedam.Text.{Text, codes, contains}
use terraform_provider_zedam.Diag.{Diagnostic, diags_any, diags_none}
use terraform_provider_zedam.GoError.{
  GoError, errorf, error_text, error_contains_any, error_contains_none,
}
use terraform_provider_zedam.Exec.{Result, Host, diagnostics, join_path}
use terraform_provider_zedam.Exec.Act.{Act, Step, go, stop, fail, pure, next, ◌>>=◌, ◌>>◌}
use terraform_provider_zedam.Attr.{Attr, null, unknown, known}

-- Go's `net` package: the error of `ParseCIDR`, whether the address of a text that it accepts is
-- a link-local unicast one, `ParseMAC`, and the text of an address.
pub record NetLib : Type 0 where
  pub parse_cidr : Text → Option GoError
  pub is_link_local_unicast : Text → Bool
  pub parse_mac : Text → Option (List ℕ)
  pub parse_mac_error : Text → GoError
  pub ip_string : List ℕ → Text

-- `intfNotFoundStrs`
abbrev pub intf_not_found_strs : List Text
intf_not_found_strs =
    codes "does not exist"
    ∷ codes "Cannot find device"
    ∷ codes "cannot find device"
    ∷ codes "No such device"
    ∷ codes "no such device"
    ∷ []

-- The command of `buildIPCommand`: `ip_cmd` and `ip_args`.
abbrev pub IpCommand : Type 0
IpCommand = Text × List Text

-- the guard of the tolerant handlers: `ContainsNone(err, strs) && DiagsNone(diags, strs)`
unfoldable pub not_tolerated : Result → GoError → List Text → Bool
not_tolerated res err strs = error_contains_none err strs && diags_none (diagnostics res) strs

module _ (h : Host) where
  open h use {World, run, mkdir_all, write_file, getwd, new_resource_id}

  -- `r.providerConf.Exec.Run(ctx, d, ipCmd, append(ipArgs, moreArgs...)...)`
  unfoldable pub run_ip : Text → IpCommand → List Text → World → Result × World
  run_ip d (ip_cmd, ip_args) more w = run d ip_cmd (ip_args ++ more) w

  -- an error of a command is a diagnostic, followed by those of its result, and a return
  abbrev pub judge_run : Text → Text → Result × World → Step Result × World
  judge_run summary detail (res, w) = elim res.error [
    | none ↦ (go res, w)
    | some e ↦ (stop (record { summary = summary; detail = detail } ∷ diagnostics res), w)
  ]

  unfoldable pub run_or_fail : Text → IpCommand → Text → Text → List Text → Act World Result
  run_or_fail d ip summary detail more w = judge_run summary detail (run_ip d ip more w)

  abbrev pub judge_err : Text → (GoError → Text) → Option GoError × World → Step (Unit {0}) × World
  judge_err summary detail (none, w) = (go tt, w)
  judge_err summary detail (some e, w) =
      (stop (record { summary = summary; detail = detail e } ∷ []), w)

  abbrev wrap_pointer : Option GoError × World → Option GoError × World
  wrap_pointer (none, w) = (none, w)
  wrap_pointer (some e, w) = (some (errorf (codes "createTFBackPointer: ") e), w)

  unfoldable pub write_pointer : Text → Text × Option GoError → World → Option GoError × World
  write_pointer path (wd, some e) w = (some (errorf (codes "createTFBackPointer: ") e), w)
  write_pointer path (wd, none) w =
      wrap_pointer
        (write_file (join_path path (codes "config_source_dir.tf")) (codes "# " ++ wd) 0o640 w)

  -- `createTFBackPointer`
  unfoldable pub create_tf_back_pointer : Text → World → Option GoError × World
  unfolding write_pointer
  create_tf_back_pointer path w = write_pointer path (getwd w) w

  abbrev judge_id : Text → (Text × Option GoError × World) → Step Text × World
  judge_id summary (id, none, w) = (go id, w)
  judge_id summary (id, some e, w) = (
    stop (
        record {
          summary = summary;
          detail = codes "Unable to generate a new resource ID: " ++ error_text e;
        }
        ∷ []),
    w,
  )

  -- The beginning of every `Create`: a new identifier, the resource's directory below `root`, and
  -- the file in it that points back to the configuration.
  unfoldable pub prepare : Text → Text → Act World Text
  unfolding create_tf_back_pointer
  prepare summary root = do
    id ← λ w. judge_id summary (new_resource_id w)
    (λ w.
        judge_err summary
          (λ e. codes "Unable to create resource specific directory: " ++ error_text e)
          (mkdir_all (join_path root id) 0o700 w))
    (λ w.
        judge_err summary (λ e. codes "Unable to create resource specific file: " ++ error_text e)
          (create_tf_back_pointer (join_path root id) w))
    pure id
