-- ===== src/LoggingSetup.antt =====
-- src/logging_setup.py: a log record as a line of JSON, and the handlers of the root logger.
use teslamate_watchdog.Shared.{
  ℕ, String, ◌≡◌, refl, Bool, true, ◌||◌, Option, none, some, List, [], ◌∷◌, or_default,
  if◌then◌else◌,
}
use teslamate_watchdog.Shared.Strings.{is_one_of}
use teslamate_watchdog.Shared.Json.{Json, Fields, get, put}
use teslamate_watchdog.Python.{Python}

-- A `logging.LogRecord`: what the formatter asks it for, the formatted exception if there is one,
-- and its attributes.
pub record LogRecord : Type 0 where
  pub created : ℕ
  pub levelname : String
  pub name : String
  pub message : String
  pub exception : Option String
  pub attributes : Fields

-- `payload["context"] = context`, for a dict
abbrev add_context : Option Json → Fields → Fields
add_context (some (Json.obj context)) payload = put "context" (Json.obj context) payload
add_context _ payload = payload

abbrev add_exception : Option String → Fields → Fields
add_exception none payload = payload
add_exception (some text) payload = put "exception" (Json.text text) payload

-- `reserved` tells the attributes that every record of Python's has.
module _ (py : Python) (reserved : String → Bool) where
  -- a key that the loop over the attributes leaves out
  abbrev pub is_left_out : String → Bool
  is_left_out key = reserved key || is_one_of key ("context" ∷ "message" ∷ "asctime" ∷ [])

  -- the loop over the attributes
  unfoldable pub add_extras : Fields → Fields → Fields
  add_extras Fields.end payload = payload
  add_extras (Fields.field key value rest) payload =
      add_extras rest (if is_left_out key then payload else put key value payload)

  -- the payload of `JsonFormatter.format`
  unfoldable pub log_payload : LogRecord → Fields
  unfolding add_extras
  log_payload r = add_exception r.exception (
      add_extras r.attributes (
        add_context (get "context" r.attributes) (
          Fields.field "ts" (Json.text (py.isoformat r.created)) (
            Fields.field "level" (Json.text r.levelname) (
              Fields.field "logger" (Json.text r.name)
                (Fields.field "msg" (Json.text r.message) Fields.end))))))

  -- `JsonFormatter.format`
  unfoldable pub format : LogRecord → String
  unfolding log_payload
  format r = py.dumps (Json.obj (log_payload r))

  -- no attribute but those that are left out
  abbrev pub HasNoExtras : Fields → Type 0
  HasNoExtras Fields.end = Unit
  HasNoExtras (Fields.field key value rest) = (is_left_out key ≡ true) × HasNoExtras rest

  add_extras-none :
      (attributes payload : Fields)
      → HasNoExtras attributes
      → add_extras attributes payload ≡ payload
  unfolding add_extras
  add_extras-none Fields.end payload h = refl
  add_extras-none (Fields.field key value rest) payload h =
      rw h.0 (add_extras-none rest payload h.1)

  -- The time, level, logger and message of a line, and its context.
  pub record IsTold (r : LogRecord) (context payload : Fields) : Type 0 where
    pub time : get "ts" payload ≡ some (Json.text (py.isoformat r.created))
    pub level : get "level" payload ≡ some (Json.text r.levelname)
    pub logger : get "logger" payload ≡ some (Json.text r.name)
    pub message : get "msg" payload ≡ some (Json.text r.message)
    pub inside : get "context" payload ≡ some (Json.obj context)

  told :
      (r : LogRecord) (context : Fields) (exception : Option String)
      → IsTold r context (
          add_exception exception (
            put "context" (Json.obj context) (
              Fields.field "ts" (Json.text (py.isoformat r.created)) (
                Fields.field "level" (Json.text r.levelname) (
                  Fields.field "logger"
                    (Json.text r.name)
                    (Fields.field "msg" (Json.text r.message) Fields.end))))))
  told r context none = record {
    time = refl;
    level = refl;
    logger = refl;
    message = refl;
    inside = refl;
  }
  told r context (some text) = record {
    time = refl;
    level = refl;
    logger = refl;
    message = refl;
    inside = refl;
  }

  -- A record with a context and no other extra attribute is logged with its time, level, logger and
  -- message, whatever keys the context has, and with the context as it is.
  pub log_payload-IsTold :
      (r : LogRecord) (context : Fields)
      → HasNoExtras r.attributes
      → get "context" r.attributes ≡ some (Json.obj context)
      → IsTold r context (log_payload r)
  unfolding log_payload
  log_payload-IsTold r context h e =
      rw (log_payload, add_extras-none r.attributes _ h, e) (told r context r.exception)

-- a handler of the root logger
pub data Handler : Type 0 where
  json_to_stdout other : Handler

pub record Loggers : Type 0 where
  pub handlers : List Handler
  pub level : ℕ
  pub urllib3_level : ℕ

-- `configure`; `level_named` is `getattr(logging, level)`, for an attribute that is a number, and
-- `info` and `warning` are the levels of Python.
unfoldable pub configure : (String → Option ℕ) → ℕ → ℕ → String → Loggers → Loggers
configure level_named info warning level loggers = record {
  handlers = json_to_stdout ∷ [];
  level = or_default (level_named level) info;
  urllib3_level = warning;
}
