-- ===== src/Json.antt =====
-- The values that `JSON.parse` returns, and `unknown` inputs in general. A number is a non-negative
-- integer, or any other number, which the code only ever refuses. An object is the list of its own
-- enumerable fields, whose keys are distinct.
use codevo_runner.Prelude.{
  ℕ, Bool, true, false, Option, none, some, List, [], ◌∷◌, any, Text, text_eq,
}

mutual
  pub data Value : Type 0 where
    null : Value
    bool : Bool → Value
    num : ℕ → Value
    other_num : Value
    str : Text → Value
    arr : Items → Value
    obj : Fields → Value

  pub data Items : Type 0 where
    nil : Items
    cons : Value → Items → Items

  pub data Fields : Type 0 where
    end : Fields
    field : Text → Value → Fields → Fields

abbrev pub items : Items → List Value
items nil = []
items (cons v vs) = v ∷ items vs

abbrev pub keys : Fields → List Text
keys end = []
keys (field k v fs) = k ∷ keys fs

-- `record.key`; `none` is `undefined`.
unfoldable pub lookup : Text → Fields → Option Value
lookup k end = none
lookup k (field j v fs) = elim (text_eq j k) [ true ↦ some v | false ↦ lookup k fs ]

-- `Object.hasOwn(record, key)`.
abbrev pub has_own : Text → Fields → Bool
has_own k fs = any (λ j. text_eq j k) (keys fs)

-- `choices.includes(text)`.
abbrev pub includes : List Text → Text → Bool
includes choices s = any (λ c. text_eq c s) choices

-- `typeof value === 'string' && value === text`, for an optional value.
abbrev pub is_text : Option Value → Text → Bool
is_text (some (str s)) t = text_eq s t
is_text _ t = false
