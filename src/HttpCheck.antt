-- ===== src/HttpCheck.antt =====
-- src/http_check.py: is TeslaMate up, and does it show its sign-in page?
pub mod SignIn
pub mod Classes
use teslamate_watchdog.Shared.{
  ℕ, ◌+◌, String, Bool, true, false, not, ◌&&◌, ◌||◌, ◌⊎◌, inl, inr, Option, none, some, List, [],
  ◌∷◌, ◌++◌, map, ◌==◌, leb, ltb, length, drop, or_default, if◌then◌else◌,
}
use teslamate_watchdog.Shared.Text.{fstring, take_chars}
use teslamate_watchdog.Shared.Strings.{codes, begins, contains}

pub data HttpCategory : Type 0 where
  authenticated logged_out unreachable application_error unknown : HttpCategory

pub record HttpResult : Type 0 where
  pub category : HttpCategory
  pub status_code : Option ℕ
  pub redirect_target : Option String
  pub elapsed_ms : Option ℕ
  pub error : Option String
  pub detail : Option String
  pub checked_at : String

-- `category is HttpCategory.…`, for the categories that the program tests
abbrev pub is_authenticated : HttpCategory → Bool
is_authenticated HttpCategory.authenticated = true
is_authenticated _ = false

abbrev pub is_logged_out : HttpCategory → Bool
is_logged_out HttpCategory.logged_out = true
is_logged_out _ = false

abbrev pub is_unreachable : HttpCategory → Bool
is_unreachable HttpCategory.unreachable = true
is_unreachable _ = false

abbrev pub is_application_error : HttpCategory → Bool
is_application_error HttpCategory.application_error = true
is_application_error _ = false

-- `requests` raises a `ConnectionError` or a `Timeout`, or another `RequestException`: its type's
-- name and its text.
pub data Failure : Type 0 where
  connection_failure request_failure : String → String → Failure

-- What `iter_content` yields: chunks of bytes, until the body ends or reading it fails.
pub data Stream : Type 0 where
  end : Stream
  broken : Failure → Stream
  chunk : List ℕ → Stream → Stream

pub record Response : Type 0 where
  pub status_code : ℕ
  pub location : Option String
  pub body : Stream

pub data Got : Type 0 where
  raised : Failure → Got
  got : Response → Got

abbrev pub max_body_bytes : ℕ
max_body_bytes = 524288

-- The loop of `_read_body`, with the chunks read so far: it stops after the chunk that fills the
-- limit, and what follows is not asked for.
unfoldable pub read_chunks : ℕ → List ℕ → Stream → Failure ⊎ List ℕ
read_chunks total bytes end = inr bytes
read_chunks total bytes (broken f) = inl f
read_chunks total bytes (chunk c rest) =
    let more = read_chunks (total + length c) (bytes ++ c) rest in
    if leb max_body_bytes (total + length c) then inr (bytes ++ c) else more

-- A character as `re.IGNORECASE` compares it with a letter of the pattern.
unfoldable pub fold : ℕ → ℕ
fold c =
    if leb b'A' c && leb c b'Z'
    then c + 32
    else if c == 383
    then b's'
    else if c == 304 || c == 305
    then b'i'
    else c

-- `sign[_-]?in`, at the front
abbrev pub at_sign_in : List ℕ → Bool
at_sign_in cs =
    begins (codes "signin") cs || begins (codes "sign_in") cs || begins (codes "sign-in") cs

-- `[^>]*sign[_-]?in`, at the front
unfoldable pub in_tag : List ℕ → Bool
in_tag [] = false
in_tag (c ∷ cs) = at_sign_in (c ∷ cs) || not (c == b'>') && in_tag cs

-- `<form[^>]*sign[_-]?in`, anywhere
unfoldable pub has_signin_form : List ℕ → Bool
unfolding in_tag
has_signin_form [] = false
has_signin_form (c ∷ cs) =
    begins (codes "<form") (c ∷ cs) && in_tag (drop 5 (c ∷ cs)) || has_signin_form cs

-- `str.lower` and the decoding of UTF-8 with replacement are Python's, `search` is the configured
-- pattern, compiled: parameters.
module _ (lower : String → String) (decode : List ℕ → String) (search : String → Bool)
    (markers : List String) where
  -- the markers, as the constructor keeps them
  abbrev pub body_markers : List String
  body_markers = map lower markers

  abbrev pub first_marker : String → List String → Option String
  first_marker lowered [] = none
  first_marker lowered (m ∷ ms) =
      let rest = first_marker lowered ms in if contains m lowered then some m else rest

  -- `_find_signin_marker`
  unfoldable pub find_signin_marker : String → Option String
  unfolding has_signin_form fold
  find_signin_marker body = elim (first_marker (lower body) body_markers) [
    | some m ↦ some m
    | none ↦ if has_signin_form (map fold (codes body)) then some "sign-in form element" else none
  ]

  -- the time that the request took, in milliseconds, and the time of the result
  module _ (elapsed : ℕ) (now : String) where
    abbrev result : HttpCategory → ℕ → Option String → String → HttpResult
    result category code target detail = record {
      category = category;
      status_code = some code;
      redirect_target = target;
      elapsed_ms = some elapsed;
      error = none;
      detail = some detail;
      checked_at = now;
    }

    -- the two `except` clauses of `check`
    unfoldable pub failure_result : Failure → HttpResult
    failure_result (connection_failure name text) = record {
      category = HttpCategory.unreachable;
      status_code = none;
      redirect_target = none;
      elapsed_ms = some elapsed;
      error = some name;
      detail = some (take_chars 200 text);
      checked_at = now;
    }
    failure_result (request_failure name text) = record {
      category = HttpCategory.unknown;
      status_code = none;
      redirect_target = none;
      elapsed_ms = some elapsed;
      error = some name;
      detail = some (take_chars 200 text);
      checked_at = now;
    }

    -- `_classify` on a body
    unfoldable pub classify_body : ℕ → String → HttpResult
    classify_body status body = elim (find_signin_marker body) [
      | some m ↦
          result HttpCategory.logged_out status none (fstring ("sign-in marker in body: " ∷ m ∷ []))
      | none ↦ result HttpCategory.authenticated status none "200 with no sign-in markers"
    ]

    -- `_classify`, or the failure to read the body
    unfoldable pub classify : Response → Failure ⊎ HttpResult
    unfolding classify_body
    classify r =
        let status = r.status_code in
        let location = or_default r.location "" in
        if leb 300 status && ltb status 400
        then (if search location
            then inr
                (result HttpCategory.logged_out status (some location) "redirect to sign-in path")
            else inr (
                result HttpCategory.unknown status (some location)
                  "redirect to an unrecognised location"))
        else if status == 200
        then elim (read_chunks 0 [] r.body) [
          | inl f ↦ inl f
          | inr bytes ↦ inr (classify_body status (decode bytes))
        ]
        else if leb 500 status
        then inr (result HttpCategory.application_error status none "server error response")
        else inr (result HttpCategory.unknown status none "unhandled status code")

    -- `HttpChecker.check`
    unfoldable pub check : Got → HttpResult
    unfolding failure_result classify
    check (raised f) = failure_result f
    check (got r) = elim (classify r) [ inl f ↦ failure_result f | inr h ↦ h ]
