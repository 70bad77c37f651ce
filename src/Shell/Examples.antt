-- ===== src/Shell/Examples.antt =====
-- A path with a quote and an attack in it.
use pantau.Common.{◌≡◌, refl, some, ◌++◌}
use pantau.Common.Text.{codes}
use pantau.Shell.{bare, read_word, shell_quote, read_word-shell_quote}

read_word-shell_quote_example :
    read_word bare (shell_quote (codes "a'; rm -rf /") ++ codes " 2>/dev/null")
    ≡ some (codes "a'; rm -rf /", codes " 2>/dev/null")
read_word-shell_quote_example =
    read_word-shell_quote (codes "a'; rm -rf /") (codes " 2>/dev/null") refl

quoted_quote : shell_quote (codes "a'b") ≡ codes "'a'\\''b'"
unfolding shell_quote
quoted_quote = refl
