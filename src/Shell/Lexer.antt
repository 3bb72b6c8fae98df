-- ===== src/Shell/Lexer.antt =====
-- How a POSIX shell reads the words of a command of quoted and plain characters, as the
-- specification of the quoting: single quotes keep every character, a backslash keeps the next.
use terraform_provider_zedam.Prelude.{
  ℕ, Bool, ◌||◌, ◌==◌, leb, ◌&&◌, List, [], ◌∷◌, ◌++◌, Option, none, some, if◌then◌else◌, map, ◌≡◌,
  refl, arith, append-nil, append_assoc,
}
use mathlib.Core.Option
use terraform_provider_zedam.Text.{Text, codes, replace_all, join, join_from}
use terraform_provider_zedam.Shell.{shell_quote_arg, shell_join}

-- between two words, in a word, behind a backslash, within single quotes
pub data Mode : Type 0 where
  gap bare escaped quoted : Mode

-- what a character does: it is dropped, it joins the word, it ends the word; or it has a meaning
-- of its own to the shell, which is left out here
pub data Move : Type 0 where
  skip push : Mode → Move
  close refuse : Move

-- letters, digits and the characters `% + , - . / : @ _`
is_plain : ℕ → Bool
is_plain c =
    (leb b'a' c && leb c b'z')
    || (leb b'A' c && leb c b'Z')
    || (leb b'+' c && leb c b':')
    || c == b'@'
    || c == b'_'
    || c == b'%'

move : Mode → ℕ → Move
unfolding is_plain
move quoted c = if c == b'\'' then skip bare else push quoted
move escaped c = push bare
move gap c =
    if c == b' '
    then skip gap
    else if c == b'\''
    then skip quoted
    else if c == b'\\'
    then skip escaped
    else if is_plain c
    then push bare
    else refuse
move bare c =
    if c == b' '
    then close
    else if c == b'\''
    then skip quoted
    else if c == b'\\'
    then skip escaped
    else if is_plain c
    then push bare
    else refuse

-- The words of a text; `none` for an open quote and for the characters that are left out.
unfoldable pub lex : Text → Mode → Text → Option (List Text)
unfolding move
lex [] gap word = some []
lex [] bare word = some (word ∷ [])
lex [] escaped word = none
lex [] quoted word = none
lex (c ∷ s) mode word = elim (move mode c) [
  | skip m ↦ lex s m word
  | push m ↦ lex s m (word ++ c ∷ [])
  | close ↦ Option.map (λ ws. word ∷ ws) (lex s gap [])
  | refuse ↦ none
]

unfoldable pub words : Text → Option (List Text)
unfolding lex
words s = lex s gap []

lex-replace :
    (s rest word : Text)
    → lex (replace_all s b'\'' (codes "'\\''") ++ rest) quoted word ≡ lex rest quoted (word ++ s)
unfolding replace_all lex
lex-replace [] rest word = rw append-nil
lex-replace (c ∷ s) rest word =
    ground (arith, lex-replace s rest (word ++ c ∷ []), append_assoc word (c ∷ []) s)

lex-quote : (s rest : Text) → lex (shell_quote_arg s ++ rest) gap [] ≡ lex rest bare s
unfolding shell_quote_arg lex
lex-quote s rest =
    rw (append_assoc (replace_all s b'\'' (codes "'\\''")) (codes "'") rest)
      (lex-replace s (codes "'" ++ rest) [])

lex-shell_join :
    (command : Text) (args : List Text)
    → lex (shell_join command args) gap [] ≡ some (command ∷ args)
unfolding shell_join join join_from lex
lex-shell_join command [] = rw (← append-nil (shell_quote_arg command)) (lex-quote command [])
lex-shell_join command (a ∷ args) =
    rw (lex-quote command (codes " " ++ join (map shell_quote_arg (a ∷ args)) (codes " ")))
      (rw (lex-shell_join a args))

-- A command handed to a remote shell arrives unchanged: whatever bytes the command and its
-- arguments hold, the shell reads the joined line as exactly those words.
pub words-shell_join :
    (command : Text) (args : List Text) → words (shell_join command args) ≡ some (command ∷ args)
unfolding words
words-shell_join command args = lex-shell_join command args

plain_words :
    words (codes "ip link  'set up'\\ x") ≡ some (codes "ip" ∷ codes "link" ∷ codes "set up x" ∷ [])
unfolding words
plain_words = refl
