-- ===== src/Cli/Args.antt =====
-- mgnt/cli/cli_trie.c: `_cli_trie_parse_execute` and `_cli_trie_excute`. The call of a hook is the
-- outcome of a line, with the arguments that the hook is given.
use misc_c.Base.{
  ℕ, suc, ◌+◌, Bool, true, false, not, ◌&&◌, Option, none, some, List, [], ◌∷◌, length, set,
  replicate, ◌==◌, if◌then◌else◌,
}
use misc_c.Cli.{Text, cmd_split, null, array, overrun}
use misc_c.Cli.Trie.{
  ParamType, param_pos, param_value, Param, Hook, Item, MatchInfo, cli_trie_match,
}

-- What a line does: nothing, one call of a hook, or a message of the command line.
pub data Outcome : Type 0 where
  nothing : Outcome
  called : Hook → ℕ → List (Option Text) → Outcome
  unknown_command : Text → Outcome
  error_args : Text → Outcome
  leak_value : Text → Outcome
  param_leakage : Outcome

-- The locals of `_cli_trie_parse_execute`
pub record Slots : Type 0 where
  pub usr_argv : List (Option Text)
  pub is_fill : List Bool
  pub real_param_cnt : ℕ

abbrev pub is_pos : ParamType → Bool
is_pos param_pos = true
is_pos _ = false

abbrev pub takes_value : ParamType → Bool
takes_value param_value = true
takes_value _ = false

-- The short name of an argument of two bytes that begins with `-`
abbrev pub short_of : Text → Option ℕ
short_of (c ∷ s ∷ []) = if c == b'-' then some s else none
short_of _ = none

-- The loop for a short name: the first parameter with this name that is not filled, with its index.
unfoldable pub find_short : ℕ → List Param → List Bool → ℕ → Option (ℕ × Param)
find_short s (p ∷ ps) (f ∷ fs) j =
    if s == p.short_name && not f then some (j, p) else find_short s ps fs (suc j)
find_short s _ _ j = none

-- The loop for a plain argument: the first place that is not filled, if `usr_param->type`, the type
-- of the first parameter, is PARAM_POS.
unfoldable pub find_free : Bool → List Bool → ℕ → Option ℕ
find_free pos [] j = none
find_free pos (f ∷ fs) j = if pos && not f then some j else find_free pos fs (suc j)

abbrev pub first_is_pos : List Param → Bool
first_is_pos [] = false
first_is_pos (p ∷ ps) = is_pos p.type

-- `usr_argv[j] = arg; is_fill[j] = 1; ++ real_param_cnt`
unfoldable pub fill : ℕ → Text → Slots → Slots
fill j arg st = record {
  usr_argv = set st.usr_argv j (some arg);
  is_fill = set st.is_fill j true;
  real_param_cnt = st.real_param_cnt + 1;
}

-- The loop over the arguments, with the message it stops at or the slots it has filled.
pub data Filled : Type 0 where
  stopped : Outcome → Filled
  filled : Slots → Filled

unfoldable pub fill_args : List Param → List Text → Slots → Filled
unfolding find_short find_free fill
fill_args params [] st = filled st
fill_args params (arg ∷ []) st = elim (short_of arg) [
  | none ↦ elim (find_free (first_is_pos params) st.is_fill 0) [
    | none ↦ stopped (error_args arg)
    | some j ↦ filled (fill j arg st)
  ]
  | some s ↦ elim (find_short s params st.is_fill 0) [
    | none ↦ stopped (error_args arg)
    | some (j, p) ↦
        if takes_value p.type then stopped (leak_value arg) else filled (fill j (b'1' ∷ []) st)
  ]
]
fill_args params (arg ∷ value ∷ rest) st = elim (short_of arg) [
  | none ↦ elim (find_free (first_is_pos params) st.is_fill 0) [
    | none ↦ stopped (error_args arg)
    | some j ↦ fill_args params (value ∷ rest) (fill j arg st)
  ]
  | some s ↦ elim (find_short s params st.is_fill 0) [
    | none ↦ stopped (error_args arg)
    | some (j, p) ↦
        if takes_value p.type
        then fill_args params rest (fill j value st)
        else fill_args params (value ∷ rest) (fill j (b'1' ∷ []) st)
  ]
]

-- The check that every required parameter is filled.
unfoldable pub all_filled : List Param → List Bool → Bool
all_filled (p ∷ ps) (f ∷ fs) = if p.required && not f then false else all_filled ps fs
all_filled _ _ = true

abbrev pub no_slots : ℕ → Slots
no_slots n = record { usr_argv = replicate n none; is_fill = replicate n false; real_param_cnt = 0 }

abbrev pub execute : Hook → List Param → Filled → Outcome
execute hook params (stopped o) = o
execute hook params (filled st) =
    if all_filled params st.is_fill
    then called hook st.real_param_cnt st.usr_argv
    else param_leakage

abbrev pub is_empty {ℓ} : {A : Type ℓ} → List A → Bool
is_empty [] = true
is_empty (x ∷ xs) = false

-- `_cli_trie_parse_execute`; a count of parameters is 0 when their array is NULL.
unfoldable pub parse_execute : MatchInfo → Outcome
unfolding fill_args all_filled
parse_execute m = elim m.hook [
  | none ↦ nothing
  | some hook ↦
      if m.remain_argc == 0 && is_empty m.params
      then called hook 0 []
      else execute hook m.params (fill_args m.params m.remain_argv (no_slots (length m.params)))
]

-- `_cli_trie_excute` after the split
unfoldable pub excute_items : Text → List Text → Item → Outcome
unfolding parse_execute
excute_items cmd items root =
    let m = cli_trie_match items root in
    elim m.hook [ none ↦ unknown_command cmd | some h ↦ parse_execute m ]

-- `_cli_trie_excute`; no outcome when the split leaves its array.
unfoldable pub cli_trie_excute : Text → Item → Option Outcome
unfolding excute_items
cli_trie_excute cmd root = elim (cmd_split cmd) [
  | null ↦ some nothing
  | array items ↦ some (excute_items cmd items root)
  | overrun ↦ none
]
