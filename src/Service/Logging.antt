-- ===== src/Service/Logging.antt =====
-- src/logging_config.py: the two processors of its own, and what `setup_logging` configures.
use message_deduplication_id.Prelude.{
  ℕ, String, ◌≡◌, Bool, not, Option, none, some, List, [], ◌∷◌, ◌++◌, arith, ◌==◌, if◌then◌else◌,
  string_discrete,
}
use message_deduplication_id.Prelude.Dict
use message_deduplication_id.Prelude.Dict.{Dict, get-put, get-remove}
use message_deduplication_id.Dedup.{Value, text}
use message_deduplication_id.Settings.{or_setting}

abbrev pub EventDict : Type 0
EventDict = Dict Value

-- event_dict.pop("color_message", None)
unfoldable pub drop_color_message_key : EventDict → EventDict
drop_color_message_key event_dict = Dict.remove event_dict "color_message"

-- event_dict.setdefault("app", "kafkadedup")
unfoldable pub add_app_context : EventDict → EventDict
add_app_context event_dict = elim (Dict.get event_dict "app") [
  | none ↦ Dict.put event_dict "app" (text "kafkadedup")
  | some _ ↦ event_dict
]

-- The processors, by their names in structlog where they are not of this module.
pub data Processor : Type 0 where
  app_context color_message : Processor
  merge_contextvars add_logger_name add_log_level time_stamper stack_info : Processor
  wrap_for_formatter remove_processors_meta json_renderer console_renderer : Processor

unfoldable pub shared_processors : List Processor
shared_processors =
    app_context ∷ merge_contextvars ∷ add_logger_name ∷ add_log_level ∷ time_stamper ∷ stack_info
    ∷ color_message ∷ []

-- The numbers of the levels, as `logging` has them.
unfoldable pub info_level : ℕ
info_level = 20

unfoldable pub warning_level : ℕ
warning_level = 30

-- What the call leaves configured in structlog and in `logging`. The root logger has one handler,
-- to the standard output, whose formatter runs the last two lists.
pub record LoggingConfig : Type 0 where
  pub processors : List Processor
  pub foreign_pre_chain : List Processor
  pub formatter_processors : List Processor
  pub root_level : ℕ
  pub other_levels : List (String × ℕ)

-- `upper` is the method of a text, and `attribute` looks a name up in the module `logging`.
module _ (upper : String → String) (attribute : String → Option ℕ) where
  unfoldable pub level : Option String → String → ℕ
  unfolding info_level
  level log_level default = elim (attribute (upper (or_setting log_level default))) [
    | none ↦ info_level
    | some n ↦ n
  ]

  -- `isatty` is what `sys.stderr.isatty()` answers.
  unfoldable pub is_json : Option Bool → Bool → Bool
  is_json none isatty = not isatty
  is_json (some b) isatty = b

  unfoldable pub setup_logging : Option String → Option Bool → String → Bool → LoggingConfig
  unfolding shared_processors warning_level
  setup_logging log_level json_logs default isatty =
      let renderer = if is_json json_logs isatty then json_renderer else console_renderer in
      record {
        processors = shared_processors ++ (wrap_for_formatter ∷ []);
        foreign_pre_chain = shared_processors;
        formatter_processors = remove_processors_meta ∷ renderer ∷ [];
        root_level = level log_level default;
        other_levels =
            ("aiokafka", warning_level)
            ∷ ("kafka", warning_level)
            ∷ ("asyncio", warning_level)
            ∷ [];
      }

abbrev app_value : EventDict → Option Value
app_value event_dict = elim (Dict.get event_dict "app") [
  | none ↦ some (text "kafkadedup")
  | some v ↦ some v
]

-- A record that the two processors have seen, key by key: it has no colour message, it names the
-- application, by the name that it had or else by the default, and every other key is as it was.
pub get-processors :
    (event_dict : EventDict) (key : String)
    → Dict.get (drop_color_message_key (add_app_context event_dict)) key ≡ (
        if key == "color_message"
        then none
        else if key == "app"
        then app_value event_dict
        else Dict.get event_dict key)
unfolding drop_color_message_key add_app_context
get-processors event_dict key =
    let a = get-remove (add_app_context event_dict) "color_message" key in
    let c = get-put event_dict "app" key (text "kafkadedup") in
    elim (string_discrete key "app") [ yes e ↦ ground (arith, a, c) | no ne ↦ ground (arith, a, c) ]
