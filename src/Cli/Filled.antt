-- ===== src/Cli/Filled.antt =====
-- What the hook of a command is given by `_cli_trie_parse_execute` of mgnt/cli/cli_trie.c.
use misc_c.Base.{
  ℕ, zero, suc, ◌+◌, ◌-◌, ◌≤◌, ◌≡◌, refl, ap, sym, ◌∙◌, inl, inr, Bool, true, false, not, ◌&&◌,
  ◌||◌, Bool-cases, Option, none, some, Option-cases, List, [], ◌∷◌, map, length, length-set,
  length-replicate, set, replicate, get_elem?, ◌==◌, arith,
}
use misc_c.Cli.{Text}
use misc_c.Cli.Trie.{Param, Hook, MatchInfo}
use misc_c.Cli.Args.{
  Outcome, called, Slots, takes_value, short_of, find_short, find_free, first_is_pos, fill, Filled,
  stopped, filled, fill_args, all_filled, no_slots, execute, parse_execute, is_empty,
}

abbrev pub is_some {ℓ} : {A : Type ℓ} → Option A → Bool
is_some none = false
is_some (some a) = true

-- How many arguments are given.
abbrev pub given : List (Option Text) → ℕ
given [] = 0
given (none ∷ xs) = given xs
given (some a ∷ xs) = suc (given xs)

-- One argument or NULL for each parameter, and an argument for each that is required.
abbrev pub served : List Param → List (Option Text) → Bool
served [] [] = true
served (p ∷ ps) (a ∷ xs) = (not p.required || is_some a) && served ps xs
served _ _ = false

record Kept (params : List Param) (st : Slots) : Type 0 where
  length_same : length st.usr_argv ≡ length params
  fill_same : st.is_fill ≡ map is_some st.usr_argv
  count_same : st.real_param_cnt ≡ given st.usr_argv

find_short-open :
    (s : ℕ) (ps : List Param) (fs : List Bool) (k : ℕ) {j : ℕ} {p : Param}
    → find_short s ps fs k ≡ some (j, p)
    → (k ≤ j) × (get_elem? fs (j - k) ≡ some false)
unfolding find_short
find_short-open s [] fs k h = ground (arith, h)
find_short-open s (p ∷ ps) [] k h = ground (arith, h)
find_short-open s (q ∷ ps) (f ∷ fs) k {j} {p} h = elim (Bool-cases (s == q.short_name && not f)) [
  | inl e ↦
      let here : some (k, q) ≡ some (j, p) = rw (find_short, e) at h in
      let at_start : j - k ≡ 0 = ground (arith, here) in
      (ground (arith, here), rw at_start (ground (arith, e)))
  | inr e ↦
      let later : find_short s ps fs (suc k) ≡ some (j, p) = rw (find_short, e) at h in
      let more = find_short-open s ps fs (suc k) later in
      let shift : j - k ≡ suc (j - suc k) = omega (arith, more.0) in
      (omega (arith, more.0), rw shift more.1)
]

find_free-open :
    (pos : Bool) (fs : List Bool) (k : ℕ) {j : ℕ}
    → find_free pos fs k ≡ some j
    → (k ≤ j) × (get_elem? fs (j - k) ≡ some false)
unfolding find_free
find_free-open pos [] k h = ground (arith, h)
find_free-open pos (f ∷ fs) k {j} h = elim (Bool-cases (pos && not f)) [
  | inl e ↦
      let here : some k ≡ some j = rw (find_free, e) at h in
      let at_start : j - k ≡ 0 = ground (arith, here) in
      (ground (arith, here), rw at_start (ground (arith, e)))
  | inr e ↦
      let later : find_free pos fs (suc k) ≡ some j = rw (find_free, e) at h in
      let more = find_free-open pos fs (suc k) later in
      let shift : j - k ≡ suc (j - suc k) = omega (arith, more.0) in
      (omega (arith, more.0), rw shift more.1)
]

given-set :
    (xs : List (Option Text)) (j : ℕ) (a : Text)
    → get_elem? (map is_some xs) j ≡ some false
    → given (set xs j (some a)) ≡ given xs + 1
given-set [] j a h = ground (arith, h)
given-set (none ∷ xs) zero a h = omega arith
given-set (some b ∷ xs) zero a h = ground (arith, h)
given-set (none ∷ xs) (suc j) a h = given-set xs j a h
given-set (some b ∷ xs) (suc j) a h = omega (arith, given-set xs j a h)

map-set :
    (xs : List (Option Text)) (j : ℕ) (a : Text)
    → map is_some (set xs j (some a)) ≡ set (map is_some xs) j true
map-set [] j a = refl
map-set (x ∷ xs) zero a = refl
map-set (x ∷ xs) (suc j) a = ap (◌∷◌ (is_some x)) (map-set xs j a)

fill-Kept :
    (params : List Param) (j : ℕ) (a : Text) (st : Slots)
    → Kept params st
    → get_elem? st.is_fill j ≡ some false
    → Kept params (fill j a st)
unfolding fill
fill-Kept params j a st k free = record {
  length_same = length-set st.usr_argv j (some a) ∙ k.length_same;
  fill_same = ap (λ fs. set fs j true) k.fill_same ∙ sym (map-set st.usr_argv j a);
  count_same =
      let e : get_elem? (map is_some st.usr_argv) j ≡ some false = rw k.fill_same at free in
      omega (arith, given-set st.usr_argv j a e, k.count_same);
}

at_zero : (fs : List Bool) (j : ℕ) → get_elem? fs (j - 0) ≡ some false → get_elem? fs j ≡ some false
at_zero fs j h = let e : j - 0 ≡ j = omega arith in rw e at h

module _ (st : Slots) {j : ℕ} where
  found_short :
      (s : ℕ) (ps : List Param) {p : Param}
      → find_short s ps st.is_fill 0 ≡ some (j, p)
      → get_elem? st.is_fill j ≡ some false
  found_short s ps h = at_zero st.is_fill j (find_short-open s ps st.is_fill 0 h).1

  found_free :
      (pos : Bool) → find_free pos st.is_fill 0 ≡ some j → get_elem? st.is_fill j ≡ some false
  found_free pos h = at_zero st.is_fill j (find_free-open pos st.is_fill 0 h).1

abbrev IsMessage : Outcome → Type 0
IsMessage (called h n argv) = ⊥
IsMessage _ = Unit

abbrev AllKept : List Param → Filled → Type 0
AllKept params (stopped o) = IsMessage o
AllKept params (filled st) = Kept params st

fill_args-AllKept :
    (params : List Param) (args : List Text) (st : Slots)
    → Kept params st
    → AllKept params (fill_args params args st)
unfolding fill_args
fill_args-AllKept params [] st k = k
fill_args-AllKept params (arg ∷ []) st k = elim (Option-cases (short_of arg)) [
  | inl e ↦ elim (Option-cases (find_free (first_is_pos params) st.is_fill 0)) [
    | inl q ↦ rw (fill_args, e, q) tt
    | inr (j, q) ↦ rw (fill_args, e, q) (fill-Kept params j arg st k (found_free st _ q))
  ]
  | inr (s, e) ↦ elim (Option-cases (find_short s params st.is_fill 0)) [
    | inl q ↦ rw (fill_args, e, q) tt
    | inr ((j, p), q) ↦ elim (Bool-cases (takes_value p.type)) [
      | inl t ↦ rw (fill_args, e, q, t) tt
      | inr t ↦ rw (fill_args, e, q, t) (fill-Kept params j (b'1' ∷ []) st k (found_short st _ _ q))
    ]
  ]
]
fill_args-AllKept params (arg ∷ value ∷ rest) st k = elim (Option-cases (short_of arg)) [
  | inl e ↦ elim (Option-cases (find_free (first_is_pos params) st.is_fill 0)) [
    | inl q ↦ rw (fill_args, e, q) tt
    | inr (j, q) ↦
        let next = fill-Kept params j arg st k (found_free st _ q) in
        rw (fill_args, e, q) (fill_args-AllKept params (value ∷ rest) (fill j arg st) next)
  ]
  | inr (s, e) ↦ elim (Option-cases (find_short s params st.is_fill 0)) [
    | inl q ↦ rw (fill_args, e, q) tt
    | inr ((j, p), q) ↦ elim (Bool-cases (takes_value p.type)) [
      | inl t ↦
          let next = fill-Kept params j value st k (found_short st _ _ q) in
          rw (fill_args, e, q, t) (fill_args-AllKept params rest (fill j value st) next)
      | inr t ↦
          let next = fill-Kept params j (b'1' ∷ []) st k (found_short st _ _ q) in
          rw (fill_args, e, q, t)
            (fill_args-AllKept params (value ∷ rest) (fill j (b'1' ∷ []) st) next)
    ]
  ]
]

all_filled-served :
    (ps : List Param) (xs : List (Option Text))
    → length xs ≡ length ps
    → all_filled ps (map is_some xs) ≡ true
    → served ps xs ≡ true
unfolding all_filled
all_filled-served [] [] l h = refl
all_filled-served [] (x ∷ xs) l h = absurd (omega arith)
all_filled-served (p ∷ ps) [] l h = absurd (omega arith)
all_filled-served (p ∷ ps) (x ∷ xs) l h = ground (arith, h, all_filled-served ps xs)

no_slots-Kept : (params : List Param) → Kept params (no_slots (length params))
no_slots-Kept params = record {
  length_same = length-replicate (length params) none;
  fill_same = none_filled (length params);
  count_same = none_given (length params);
}
  where
    none_filled : (n : ℕ) → replicate n false ≡ map is_some (replicate {A = Option Text} n none)
    none_filled zero = refl
    none_filled (suc n) = ap (◌∷◌ false) (none_filled n)

    none_given : (n : ℕ) → 0 ≡ given (replicate n none)
    none_given zero = refl
    none_given (suc n) = none_given n

abbrev Served : Hook → List Param → Outcome → Type 0
Served hook ps (called h n argv) = (hook ≡ h) × (n ≡ given argv) × (served ps argv ≡ true)
Served hook ps _ = Unit

IsMessage-Served : (hook : Hook) (ps : List Param) (o : Outcome) → IsMessage o → Served hook ps o
IsMessage-Served hook ps (called h n argv) m = absurd m
IsMessage-Served hook ps Outcome.nothing m = tt
IsMessage-Served hook ps (Outcome.unknown_command t) m = tt
IsMessage-Served hook ps (Outcome.error_args t) m = tt
IsMessage-Served hook ps (Outcome.leak_value t) m = tt
IsMessage-Served hook ps Outcome.param_leakage m = tt

execute-Served :
    (hook : Hook) (ps : List Param) (r : Filled) → AllKept ps r → Served hook ps (execute hook ps r)
execute-Served hook ps (stopped o) k = IsMessage-Served hook ps o k
execute-Served hook ps (filled st) k = elim (Bool-cases (all_filled ps st.is_fill)) [
  | inl e ↦
      rw e
        (refl, k.count_same, all_filled-served ps st.usr_argv k.length_same (rw k.fill_same at e))
  | inr e ↦ rw e tt
]

served-empty : (ps : List Param) → is_empty ps ≡ true → served ps [] ≡ true
served-empty [] e = refl
served-empty (p ∷ ps) e = ground (arith, e)

parse_execute-Served :
    (m : MatchInfo) (hook : Hook) → m.hook ≡ some hook → Served hook m.params (parse_execute m)
unfolding parse_execute
parse_execute-Served m hook h = elim (Bool-cases (m.remain_argc == 0 && is_empty m.params)) [
  | inl e ↦ rw (parse_execute, h, e) (refl, refl, served-empty m.params (ground (arith, e)))
  | inr e ↦
      rw (parse_execute, h, e)
        (execute-Served hook m.params
          (fill_args m.params m.remain_argv (no_slots (length m.params)))
          (fill_args-AllKept m.params m.remain_argv _ (no_slots-Kept m.params)))
]

-- When `_cli_trie_parse_execute` calls a hook, it is the hook of the match, its count is the number
-- of arguments that are not NULL, there is one place for each parameter of the command, and each
-- required parameter has an argument.
pub parse_execute-served :
    (m : MatchInfo) {h : Hook} {n : ℕ} {argv : List (Option Text)}
    → parse_execute m ≡ called h n argv
    → (m.hook ≡ some h) × (n ≡ given argv) × (served m.params argv ≡ true)
unfolding parse_execute
parse_execute-served m {h} {n} {argv} c = elim (Option-cases m.hook) [
  | inl e ↦
      let bad : Outcome.nothing ≡ called h n argv = rw (parse_execute, e) at c in
      ground (arith, bad)
  | inr (hook, e) ↦
      let s : Served hook m.params (called h n argv) = rw c at (parse_execute-Served m hook e) in
      (e ∙ ap some s.0, s.1, s.2)
]
