-- ===== src/Cli/Tests.antt =====
-- Runs of the command line on concrete values.
use misc_c.Base.{◌<◌, ◌≡◌, refl, arith, true, false, Option, none, some, List, [], ◌∷◌}
use misc_c.Cli.{Text, cmd_split, array, equal, is_prefix}
use misc_c.Cli.Split.{cmd_split_lem}
use misc_c.Cli.Trie.{
  Param, param_pos, param_bool, param_value, Item, nil, cons, item, no_info, next, insert_tokens,
  size, register, cli_trie_insert, MatchInfo,
}
use misc_c.Cli.Commands.{command, item_at, command-insert_tokens}
use misc_c.Cli.Args.{called, leak_value, error_args, parse_execute, cli_trie_excute}
use misc_c.Cli.Filled.{given, served, parse_execute-served}
use misc_c.Cli.Complete.{cli_trie_completion, cli_trie_completion_lem}
use misc_c.Cli.Lines.{line, insert-excute}
use misc_c.Cli.Number.{cli_param_parse_str_2_u32, refused}

-- "ab  c"
abbrev two_words : Text
two_words = b'a' ∷ b'b' ∷ 32 ∷ 32 ∷ b'c' ∷ []

abbrev ab : Text
ab = b'a' ∷ b'b' ∷ []

abbrev ac : Text
ac = b'a' ∷ b'c' ∷ []

abbrev c_word : Text
c_word = b'c' ∷ []

cmd_split_lem_example : cmd_split two_words ≡ array (ab ∷ c_word ∷ [])
unfolding cmd_split
cmd_split_lem_example = cmd_split_lem two_words

-- A tree with "ab c" and "ac".
abbrev root : Item
root = item [] no_info (
    cons
      (item ab no_info (
        cons
          (item c_word (record { help = some []; hook = some 7; is_end = true; params = [] }) nil)
          nil))
      (cons (item ac (record { help = some []; hook = some 8; is_end = true; params = [] }) nil)
        nil))

small : size (next root) < 255
unfolding size
small = omega arith

command-insert_tokens_example :
    command (ac ∷ []) (insert_tokens (ab ∷ []) (register c_word [] (some 9)) root)
    ≡ command (ac ∷ []) root
unfolding item_at equal
command-insert_tokens_example =
    command-insert_tokens (ab ∷ []) (ac ∷ []) c_word [] (some 9) root (λ p. small, tt)

abbrev count_param : Param
count_param = record { short_name = b'n'; type = param_value; required = true; help = [] }

abbrev flag_param : Param
flag_param = record { short_name = b'v'; type = param_bool; required = false; help = [] }

-- "-n c" for the parameters -v and -n
abbrev matched : MatchInfo
matched = record {
  hook = some 7;
  params = flag_param ∷ count_param ∷ [];
  remain_argv = (b'-' ∷ b'n' ∷ []) ∷ c_word ∷ [];
  remain_argc = 2;
}

abbrev argv_given : List (Option Text)
argv_given = none ∷ some c_word ∷ []

parse_execute-served_example :
    (matched.hook ≡ some 7) × (1 ≡ given argv_given) × (served matched.params argv_given ≡ true)
unfolding parse_execute
parse_execute-served_example = parse_execute-served matched {n = 1} {argv = argv_given} refl

-- A parameter whose value is missing.
value_missing :
    parse_execute (record matched { remain_argv = (b'-' ∷ b'n' ∷ []) ∷ []; remain_argc = 1 })
    ≡ leak_value (b'-' ∷ b'n' ∷ [])
unfolding parse_execute
value_missing = refl

-- The second parameter takes its argument by its place, but the first does not: it is refused.
place_param : Param
place_param = record { short_name = 0; type = param_pos; required = true; help = [] }

abbrev placed : MatchInfo
placed = record {
  hook = some 7;
  params = flag_param ∷ place_param ∷ [];
  remain_argv = c_word ∷ [];
  remain_argc = 1;
}

place_after_flag : parse_execute placed ≡ error_args c_word
unfolding parse_execute
place_after_flag = refl

cli_trie_completion_lem_example :
    cli_trie_completion 9 (b'a' ∷ []) 0 1 (b'a' ∷ []) root
    ≡ some (some ((b'a' ∷ []) ∷ ab ∷ ac ∷ []))
unfolding cli_trie_completion is_prefix
cli_trie_completion_lem_example =
    cli_trie_completion_lem 9 (b'a' ∷ []) 0 1 (b'a' ∷ []) root root refl refl (omega arith)

insert-excute_example :
    (grown : Item) × (cli_trie_insert (line (ab ∷ [])) [] [] (some 9) root ≡ some grown)
    × (cli_trie_excute (line (ab ∷ [])) grown ≡ some (called 9 0 []))
unfolding item_at equal
insert-excute_example =
    insert-excute ab [] [] 9 root ((refl, (refl, tt)), tt) (omega arith) (omega arith)
      (λ p. small, tt) refl

-- A byte that is no digit, and a number past an int.
refused_text : cli_param_parse_str_2_u32 (b'1' ∷ b'x' ∷ []) ≡ refused
unfolding cli_param_parse_str_2_u32
refused_text = refl
