-- ===== src/Http/File.antt =====
-- mgnt/web/http.c: which file a path of a request names, and the answers that are errors. What
-- realpath, stat and open answer is given.
use misc_c.Base.{
  ℕ, ◌-◌, ◌<◌, ◌≡◌, refl, ap, sym, ◌∙◌, Bool, Bool-cases, true, false, not, ◌&&◌, ◌||◌, ◌⊎◌, inl,
  inr, [], ◌∷◌, ◌++◌, length, get_or, take, ltb, ◌==◌, if◌then◌else◌, arith,
}
use misc_c.Cli.{is_prefix}
use misc_c.Http.{Text}
use misc_c.Http.Pieces.{lacks}

-- "../mgnt/web/resource"
abbrev pub resource_prefix : Text
resource_prefix =
    b'.' ∷ b'.' ∷ b'/' ∷ b'm' ∷ b'g' ∷ b'n' ∷ b't' ∷ b'/' ∷ b'w' ∷ b'e' ∷ b'b' ∷ b'/' ∷ b'r' ∷ b'e'
    ∷ b's' ∷ b'o' ∷ b'u' ∷ b'r' ∷ b'c' ∷ b'e' ∷ []

-- "/index.html"
abbrev pub index_html : Text
index_html = b'/' ∷ b'i' ∷ b'n' ∷ b'd' ∷ b'e' ∷ b'x' ∷ b'.' ∷ b'h' ∷ b't' ∷ b'm' ∷ b'l' ∷ []

abbrev pub path_max_len : ℕ
path_max_len = 128

-- What realpath and stat give: a result, ENOENT, or another error.
pub data Looked {ℓ} (A : Type ℓ) : Type ℓ where
  found : A → Looked A
  no_entry refused : Looked A

-- The system: realpath, whether a path is that of a regular file, and whether it can be opened.
pub record System : Type 0 where
  pub realpath : Text → Looked Text
  pub is_regular : Text → Looked Bool
  pub opens : Text → Bool

-- The answers; and what is behind a write of realpath past one of the two arrays of 128 bytes is not
-- known.
pub data FileReply : Type 0 where
  bad_request not_found forbidden internal_error : FileReply
  overrun : FileReply
  file : Text → FileReply

-- The two `snprintf` into 128 bytes
abbrev pub file_path : Text → Text
file_path uri =
    take (path_max_len - 1) (resource_prefix ++ (if length uri == 1 then index_html else uri))

-- The test on the resolved path; behind the end of a text is its NUL.
unfoldable pub is_within : Text → Text → Bool
is_within resolved_prefix resolved =
    is_prefix resolved_prefix resolved
    && (get_or resolved (length resolved_prefix) 0 == b'/'
        || get_or resolved (length resolved_prefix) 0 == 0)

-- From `stat` on
unfoldable pub by_kind : Looked Bool → (opens : Bool) → Text → FileReply
by_kind no_entry opens resolved = not_found
by_kind refused opens resolved = forbidden
by_kind (found regular) opens resolved =
    if not regular then forbidden else if opens then file resolved else internal_error

-- A path and its NUL, in one of the two arrays that realpath fills
abbrev pub holds_path : Text → Bool
holds_path path = ltb (length path) path_max_len

-- From the first answer of realpath on; the second is for the directory.
unfoldable pub send_resolved : System → Looked Text → Looked Text → FileReply
unfolding by_kind is_within
send_resolved sys no_entry directory = not_found
send_resolved sys refused directory = forbidden
send_resolved sys (found resolved) no_entry =
    if holds_path resolved then internal_error else overrun
send_resolved sys (found resolved) refused = if holds_path resolved then internal_error else overrun
send_resolved sys (found resolved) (found resolved_prefix) =
    if not (holds_path resolved && holds_path resolved_prefix)
    then overrun
    else if is_within resolved_prefix resolved
    then by_kind (sys.is_regular resolved) (sys.opens resolved) resolved
    else forbidden

-- `http_send_file_response`, up to what it sends
unfoldable pub http_send_file_response : System → Text → FileReply
unfolding send_resolved
http_send_file_response sys uri =
    if is_prefix (b'/' ∷ []) uri
    then send_resolved sys (sys.realpath (file_path uri)) (sys.realpath resource_prefix)
    else bad_request

is_prefix-rest : (a b : Text) → is_prefix a b ≡ true → (rest : Text) × (b ≡ a ++ rest)
unfolding is_prefix
is_prefix-rest [] b h = (b, refl)
is_prefix-rest (x ∷ a) [] h = absurd (ground (arith, h))
is_prefix-rest (x ∷ a) (y ∷ b) h =
    let same : y ≡ x = ground (arith, h) in
    let (rest, e) = is_prefix-rest a b (ground (arith, h)) in
    (rest, ap (λ z. z ∷ b) same ∙ ap (λ t. x ∷ t) e)

file_or : Text → FileReply → Text
file_or d (file path) = path
file_or d _ = d

abbrev is_file : FileReply → Bool
is_file (file path) = true
is_file _ = false

not-file : {r : FileReply} {path : Text} {A : Type 0} → is_file r ≡ false → r ≡ file path → A
not-file n e = absurd (ground (arith, n, ap is_file e))

by_kind-file : (k : Looked Bool) (o : Bool) (r path : Text) → by_kind k o r ≡ file path → r ≡ path
unfolding by_kind file_or
by_kind-file no_entry o r path e = not-file refl e
by_kind-file refused o r path e = not-file refl e
by_kind-file (found false) o r path e = not-file refl e
by_kind-file (found true) false r path e = not-file refl e
by_kind-file (found true) true r path e = ap (file_or []) e

-- The slash, or the end, behind the directory
after-prefix :
    (p rest : Text)
    → lacks 0 (p ++ rest) ≡ true
    → (get_or (p ++ rest) (length p) 0 == b'/' || get_or (p ++ rest) (length p) 0 == 0) ≡ true
    → (rest ≡ []) ⊎ ((tail : Text) × (rest ≡ b'/' ∷ tail))
after-prefix [] [] n h = inl refl
after-prefix [] (c ∷ rest) n h =
    let slash : c ≡ b'/' = ground (arith, n, h) in inr (rest, ap (λ d. d ∷ rest) slash)
after-prefix (x ∷ p) rest n h = after-prefix p rest (ground (arith, n)) h

send_resolved-within :
    (sys : System) (looked directory : Looked Text) (resolved_prefix path : Text)
    → directory ≡ found resolved_prefix
    → send_resolved sys looked directory ≡ file path
    → lacks 0 path ≡ true
    → (length path < path_max_len)
      × (rest : Text) × (path ≡ resolved_prefix ++ rest)
      × ((rest ≡ []) ⊎ ((tail : Text) × (rest ≡ b'/' ∷ tail)))
unfolding send_resolved is_within
send_resolved-within sys no_entry d p path e h n = not-file refl h
send_resolved-within sys refused d p path e h n = not-file refl h
send_resolved-within sys (found r) d p path e h n =
    elim (Bool-cases (holds_path r && holds_path p)) [
      | inr long ↦
          let no : send_resolved sys (found r) d ≡ overrun = rw (e, send_resolved, long) refl in
          not-file (ap is_file no) h
      | inl short ↦ elim (Bool-cases (is_within p r)) [
        | inr out ↦
            let no : send_resolved sys (found r) d ≡ forbidden =
              rw (e, send_resolved, short, out) refl in
            not-file (ap is_file no) h
        | inl within ↦
            let yes : send_resolved sys (found r) d ≡ by_kind (sys.is_regular r) (sys.opens r) r =
              rw (e, send_resolved, short, within) refl in
            let same : r ≡ path =
              by_kind-file (sys.is_regular r) (sys.opens r) r path (sym yes ∙ h) in
            let (rest, split) = is_prefix-rest p r (ground (arith, within)) in
            let byte : Text → ℕ = λ t. get_or t (length p) 0 in
            let ends : (byte r == b'/' || byte r == 0) ≡ true = ground (arith, within) in
            (
              ground (arith, short, ap length same),
              rest,
              sym same ∙ split,
              after-prefix p rest (ap (lacks 0) (sym split ∙ same) ∙ n)
                  (ap (λ t. byte t == b'/' || byte t == 0) (sym split) ∙ ends),
            )
      ]
    ]

-- If a file is sent, whatever the path of the request was, and realpath writes the paths that it gives
-- and no more: its resolved path and a NUL fit their array, and it is that of the resource directory
-- or leads on behind a slash from there. A path holds no NUL.
pub http_send_file_response-within :
    (sys : System) (uri resolved_prefix path : Text)
    → sys.realpath resource_prefix ≡ found resolved_prefix
    → http_send_file_response sys uri ≡ file path
    → lacks 0 path ≡ true
    → (length path < path_max_len)
      × (rest : Text) × (path ≡ resolved_prefix ++ rest)
      × ((rest ≡ []) ⊎ ((tail : Text) × (rest ≡ b'/' ∷ tail)))
unfolding http_send_file_response
http_send_file_response-within sys uri p path d h n =
    elim (Bool-cases (is_prefix (b'/' ∷ []) uri)) [
      | inr e ↦
          let no : http_send_file_response sys uri ≡ bad_request =
            rw (http_send_file_response, e) refl in
          not-file (ap is_file no) h
      | inl e ↦
          let yes : http_send_file_response sys uri
              ≡ send_resolved sys (sys.realpath (file_path uri)) (sys.realpath resource_prefix) =
            rw (http_send_file_response, e) refl in
          send_resolved-within sys (sys.realpath (file_path uri)) (sys.realpath resource_prefix) p
            path d (sym yes ∙ h) n
    ]
