-- ===== src/Providers/Bailian.antt =====
-- providers/bailian/model_state.py: `BailianModelState`, but for its log, its summary and the `.env`
-- file. A timestamp is the text that the clock gives. A write of the state file succeeds, or fails when
-- the file is opened, and a file that exists can be read.
pub mod Restart
pub mod Failures
use bailian_free_claude_code.Base.{
  ℕ, zero, suc, ◌+◌, ◌-◌, ◌*◌, ◌^◌, ◌≤◌, ◌<◌, String, ◌≡◌, refl, sym, ap, ◌∙◌, ◌≢◌, ◌↔◌, ◌⊎◌, inl,
  inr, Bool, true, false, not, ◌&&◌, ◌||◌, Option, none, some, List, [], ◌∷◌, ◌++◌, map, arith,
  eq_iff, ltb, leb, if◌then◌else◌, leb→le, Bool-cases, Option-cases, Eq, ◌==◌, nat_eq, string_eq,
  beq_refl, length, All, filter_by, contains, count, contains-append, Dict, keys, values, is_some,
  get, put, remove, modify, has, get-put, get-put_self, get-remove, get-modify, keys-modify,
  get-nil, dict_laws, value_error, key_error, Outcome, ok, raised, ◌>>=◌, truthy,
}
use bailian_free_claude_code.Base.{attribute_error}
use Prim.Native.Char.{Char, code}
use Prim.Native.String.{String as Text}
use bailian_free_claude_code.Sse.Json.{Json, array, object, Fields, end, field, lookup}
use bailian_free_claude_code.Sse.Json.Typed.{text_or_null, text_items, to_optional, to_list}

-- `self._state`
pub record ModelState : Type 0 where
  pub failed_models : List String
  pub current_working_model : Option String
  pub available_models : List String
  pub last_updated : Option String

-- The state, and what stands in the state file if there is one.
pub record BailianModelState (File : Type 0) : Type 0 where
  pub state : ModelState
  pub state_file : Option File

abbrev default_state : ModelState
default_state = record {
  failed_models = [];
  current_working_model = none;
  available_models = [];
  last_updated = none;
}

-- What stands after the prefix, where a text has it.
after_prefix : String → String → Option String
after_prefix Text.[] s = some s
after_prefix (Text.◌∷◌ c p) Text.[] = none
after_prefix (Text.◌∷◌ c p) (Text.◌∷◌ d s) =
    let rest = after_prefix p s in if code c == code d then rest else none

-- `model_name.removeprefix("bailian/")`
pub clean : String → String
unfolding after_prefix
clean model_name = elim (after_prefix "bailian/" model_name) [
  | none ↦ model_name
  | some rest ↦ rest
]

abbrev state_to_fields : ModelState → Fields
state_to_fields s = field "failed_models" (array (text_items s.failed_models)) (
    field "current_working_model" (text_or_null s.current_working_model) (
      field "available_models" (array (text_items s.available_models))
        (field "last_updated" (text_or_null s.last_updated) end)))

-- A loaded value that is no dict has no `get`.
state_of_json : Json → Outcome ModelState
state_of_json (object d) = to_list (lookup d "failed_models") >>= λ failed_models.
    to_optional (lookup d "current_working_model") >>= λ current_working_model.
    to_list (lookup d "available_models") >>= λ available_models.
    to_optional (lookup d "last_updated") >>= λ last_updated. ok (record {
      failed_models = failed_models;
      current_working_model = current_working_model;
      available_models = available_models;
      last_updated = last_updated;
    })
state_of_json _ = raised attribute_error

abbrev add_new : List String → String → List String
add_new models model = if contains models model then models else models ++ model ∷ []

-- The models that have not failed.
abbrev pub working : ModelState → List String → List String
working s models = filter_by (λ x. not (contains s.failed_models x)) (map clean models)

-- A call of one of the methods that change the state.
pub data Call : Type 0 where
  fails : String → Call
  works : String → Call
  filters : List String → Call
  resets : Call
  clears : Call

-- `json.dump` and `json.load`, which gives `none` for a `JSONDecodeError`
module _ {File : Type 0} (dumps : Fields → File) (loads : File → Option Json) where
  -- `_load_state`
  pub load_state : Option File → Outcome ModelState
  unfolding state_of_json
  load_state none = ok default_state
  load_state (some content) = elim (loads content) [
    | none ↦ ok default_state
    | some value ↦ state_of_json value
  ]

  -- `__init__`
  abbrev pub restart : Option File → Outcome (BailianModelState File)
  restart file = load_state file >>= λ s. ok (record { state = s; state_file = file })

  -- `_save_state`
  abbrev pub save_state : Bool → BailianModelState File → BailianModelState File
  save_state writable m = record m {
    state_file = if writable then some (dumps (state_to_fields m.state)) else m.state_file;
  }

  abbrev pub update :
      Bool → String → (ModelState → ModelState) → BailianModelState File → BailianModelState File
  update writable now change m =
      save_state writable (record m { state = record (change m.state) { last_updated = some now } })

  pub mark_model_failed : Bool → String → String → BailianModelState File → BailianModelState File
  unfolding clean
  mark_model_failed writable now model_name m =
      if contains m.state.failed_models (clean model_name)
      then m
      else update writable now
          (λ s. record s { failed_models = s.failed_models ++ clean model_name ∷ [] }) m

  set_working_model : Bool → String → String → BailianModelState File → BailianModelState File
  unfolding clean
  set_working_model writable now model_name m =
      update writable now
        (λ s. record s {
          current_working_model = some (clean model_name);
          available_models = add_new s.available_models (clean model_name);
        })
        m

  pub remove_failed_from_available :
      Bool → String → List String → BailianModelState File → BailianModelState File × List String
  unfolding clean
  remove_failed_from_available writable now all_configured_models m =
      let available = working m.state all_configured_models in
      (update writable now (λ s. record s { available_models = available }) m, available)

  reset_failed_models : Bool → String → BailianModelState File → BailianModelState File
  reset_failed_models writable now m = update writable now (λ s. record s { failed_models = [] }) m

  -- `unlink` may fail too.
  clear_state : Bool → BailianModelState File → BailianModelState File
  clear_state writable m = record {
    state = default_state;
    state_file = if writable then none else m.state_file;
  }

  pub call : Bool → String → Call → BailianModelState File → BailianModelState File
  unfolding mark_model_failed set_working_model remove_failed_from_available reset_failed_models
      clear_state
  call writable now (fails model) m = mark_model_failed writable now model m
  call writable now (works model) m = set_working_model writable now model m
  call writable now (filters models) m = (remove_failed_from_available writable now models m).0
  call writable now resets m = reset_failed_models writable now m
  call writable now clears m = clear_state writable m
