-- ===== src/Exec.antt =====
-- internal/exec/exec.go and internal/cmd/result/result.go: what the provider asks of its target,
-- as an interface over a state of the world, and the handlers' way of stopping at an error.
pub mod Act
pub mod Exited
pub mod Try
use terraform_provider_zedam.Prelude.{ℕ, suc, Bool, List, [], ◌∷◌, ◌++◌, Option}
use terraform_provider_zedam.Prelude.Int.{ℤ, pos, negsuc}
use terraform_provider_zedam.Text.{Text, codes, join}
use terraform_provider_zedam.Text.Decimal.{format}
use terraform_provider_zedam.GoError.{GoError}
use terraform_provider_zedam.Diag.{Diagnostic}

-- `result.Result` without the names of its log files and the fields of pattern waits, which
-- nothing here reads.
pub record Result : Type 0 where
  pub cmd : Text
  pub args : List Text
  pub exit_code : ℤ
  pub stdout : Text
  pub stderr : Text
  pub error : Option GoError
  pub timed_out : Bool

-- `%d` of an integer
unfoldable pub format_int : ℤ → Text
format_int (pos n) = format n
format_int (negsuc n) = codes "-" ++ format (suc n)

-- `Result.Diagnostics`
unfoldable pub diagnostics : Result → List Diagnostic
unfolding format_int
diagnostics r =
    record {
      summary = r.cmd ++ (codes " exit code: " ++ format_int r.exit_code);
      detail = codes "args: [" ++ (join r.args (codes " ") ++ codes "]");
    }
    ∷ record { summary = r.cmd ++ codes " stdout"; detail = r.stdout }
    ∷ record { summary = r.cmd ++ codes " stderr"; detail = r.stderr }
    ∷ []

-- `filepath.Join(a, b)` of two clean paths that are not empty
abbrev pub join_path : Text → Text → Text
join_path a b = a ++ (codes "/" ++ b)

-- a value, or the error that is returned in its place
pub data Fallible (A : Type 0) : Type 0 where
  got : A → Fallible A
  failure : GoError → Fallible A

-- The methods of `Executor` that the modelled handlers call, and the other calls of theirs that
-- leave the program, each over a state of the world. The error that `Run` returns is its result's
-- `Error` field, in both implementations.
pub record Host : Type 1 where
  pub World : Type 0
  pub run : Text → Text → List Text → World → Result × World
  pub mkdir_all : Text → ℕ → World → Option GoError × World
  pub write_file : Text → Text → ℕ → World → Option GoError × World
  pub chmod : Text → ℕ → World → Option GoError × World
  pub remove : Text → World → Option GoError × World
  pub read_file : Text → World → Fallible Text × World
  pub stat : Text → World → Option GoError × World
  pub is_not_exist : GoError → Bool
  -- `OpenWrite` with the path and the mode, and what is then written to the file
  pub open_write : Text → ℕ → World → Option GoError × World
  pub write_out : Text → Text → World → Option GoError × World
  pub run_detached : Text → Text → List Text → World → Result × World
  -- whether a process lives; the second text is the executable that it must have
  pub is_running : ℤ → Text → World → Fallible Bool × World
  pub kill : ℤ → ℕ → World → Option GoError × World
  pub self_path : Text
  -- `%v` of diagnostics, a type of the framework
  pub show_diagnostics : List Diagnostic → Text
  -- `os.Getwd()`
  pub getwd : World → Text × Option GoError
  -- `newResourceID`, which draws four random bytes
  pub new_resource_id : World → Text × Option GoError × World
