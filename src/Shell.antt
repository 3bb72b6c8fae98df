-- ===== src/Shell.antt =====
-- How commands are handed to a remote shell: `shellQuoteArg` and `shellJoin` of
-- internal/exec/ssh.go, and `shellSingleQuote` of internal/provider/ssh_config.go.
pub mod Lexer
use terraform_provider_zedam.Prelude.{ℕ, List, [], ◌∷◌, ◌++◌, map, ◌≡◌, refl}
use terraform_provider_zedam.Text.{Text, codes, replace_all, join}

unfoldable pub shell_quote_arg : Text → Text
shell_quote_arg s = codes "'" ++ (replace_all s b'\'' (codes "'\\''") ++ codes "'")

unfoldable pub shell_join : Text → List Text → Text
shell_join command args = join (shell_quote_arg command ∷ map shell_quote_arg args) (codes " ")

unfoldable pub shell_single_quote : Text → Text
shell_single_quote s = codes "'" ++ (replace_all s b'\'' (codes "'\\''") ++ codes "'")
