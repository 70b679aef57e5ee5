-- ===== src/Agents/Answer.antt =====
-- What a hosted model answers, in backend/app/services/ai_model.py: a text, and for `complete_json` the
-- value that `json.loads` reads from it, with Python's conversions of such values.

use sentinelai_splunk.Prelude.{
  ℕ, zero, String, Bool, true, false, not, Option, none, some, List, [], ◌∷◌, ◌==◌, if◌then◌else◌,
  decimal_ℤ,
}
use sentinelai_splunk.Prelude.Int.{ℤ, pos}
use sentinelai_splunk.Domain.{Float, finite}
use sentinelai_splunk.Risk.{float_of}

-- A value that `json.loads` gives.
mutual
  pub data Value : Type 0 where
    null : Value
    bool : Bool → Value
    int : ℤ → Value
    float : Float → Value
    str : String → Value
    list : Values → Value
    dict : Entries → Value

  pub data Values : Type 0 where
    nil : Values
    cons : Value → Values → Values

  pub data Entries : Type 0 where
    end : Entries
    entry : String → Value → Entries → Entries

-- What the agents take from Python's standard library.
pub record Python : Type 0 where
  -- `json.loads`; `none` is the `JSONDecodeError`
  pub loads : String → Option Value
  -- `str(value)` of a float, a list or a dict, and of a list of texts, and `repr` of a text
  pub repr : Value → String
  pub repr_text : String → String
  pub repr_texts : List String → String
  -- `text.lower()` and `text.strip()`
  pub lower : String → String
  pub strip : String → String
  -- `float(text)` and `float(n)`; `none` is an exception
  pub float_of_text : String → Option Float
  pub float_of_int : ℤ → Option Float
  -- `f"{x:.2f}"` and `round(x, 3)`
  pub format_2 : Float → String
  pub round_3 : Float → Float

-- What one call of `complete` does: a text, an `AIModelError`, or another exception.
pub data Completion : Type 0 where
  text : String → Completion
  model_error : Completion
  other_error : Completion

-- What the n-th call of a run does, on the system prompt and the user prompt.
abbrev pub AiModel : Type 0
AiModel = ℕ → String → String → Completion

-- What `complete_json` does: a value, an `AIModelError`, or another exception.
pub data Reply : Type 0 where
  answered : Value → Reply
  unavailable : Reply
  crashed : Reply

unfoldable pub read_json : Option Value → Reply
read_json none = unavailable
read_json (some value) = answered value

-- `complete_json`
unfoldable pub complete_json : Python → Completion → Reply
unfolding read_json
complete_json py (text t) = read_json (py.loads t)
complete_json py model_error = unavailable
complete_json py other_error = crashed

-- `data.get(key)`
unfoldable pub get : String → Entries → Option Value
get key end = none
get key (entry k v rest) = if k == key then some v else get key rest

-- `bool(value)`
unfoldable pub truthy : Value → Bool
truthy null = false
truthy (bool b) = b
truthy (int (pos zero)) = false
truthy (int _) = true
truthy (float (finite (pos zero))) = false
truthy (float _) = true
truthy (str s) = not (s == "")
truthy (list nil) = false
truthy (list (cons v vs)) = true
truthy (dict end) = false
truthy (dict (entry k v es)) = true

-- `str(value)`
unfoldable pub text_of : Python → Value → String
text_of py null = "None"
text_of py (bool b) = if b then "True" else "False"
text_of py (int n) = decimal_ℤ n
text_of py (str s) = s
text_of py value = py.repr value

-- `float(value)`; `none` is an exception
unfoldable pub as_float : Python → Value → Option Float
unfolding float_of
as_float py (bool b) = some (if b then float_of 1 else float_of 0)
as_float py (int n) = py.float_of_int n
as_float py (float x) = some x
as_float py (str s) = py.float_of_text s
as_float py value = none

-- `isinstance(value, dict)`, with its entries, and `isinstance(value, list)`, with its values
unfoldable pub as_dict : Value → Option Entries
as_dict (dict es) = some es
as_dict value = none

unfoldable pub as_list : Value → Option Values
as_list (list vs) = some vs
as_list value = none

characters : String → List String
characters String.[] = []
characters (String.◌∷◌ c s) = String.◌∷◌ c "" ∷ characters s

unfoldable pub texts_in : Python → Values → List String
unfolding text_of
texts_in py nil = []
texts_in py (cons v vs) = text_of py v ∷ texts_in py vs

keys_of : Entries → List String
keys_of end = []
keys_of (entry k v es) = k ∷ keys_of es

-- `[str(a) for a in value]`; `none` is the `TypeError` of a value that is not iterable
unfoldable pub texts_of : Python → Value → Option (List String)
unfolding characters texts_in keys_of
texts_of py (str s) = some (characters s)
texts_of py (list vs) = some (texts_in py vs)
texts_of py (dict es) = some (keys_of es)
texts_of py value = none
