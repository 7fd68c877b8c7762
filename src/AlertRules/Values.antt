-- ===== src/AlertRules/Values.antt =====
-- backend/services/rules.py, the values: JSON data, the search for a field, and the operators. The
-- conversions and regular expressions of Python are arguments.
use b8mon.Base.{
  ℕ, zero, suc, ◌-◌, String, Bool, true, false, not, ◌&&◌, ◌||◌, Option, none, some, List, [], ◌∷◌,
  ltb, leb, string_eq, nat_eq, ◌==◌, if◌then◌else◌, length, or_else, split, lower, starts_with,
  contains,
}

-- A JSON value; a number is the text it is written as. `null` is Python's None.
mutual
  pub data Json : Type 0 where
    null : Json
    boolean : Bool → Json
    number : String → Json
    text : String → Json
    array : Items → Json
    object : Fields → Json

  pub data Items : Type 0 where
    done : Items
    item : Json → Items → Items

  pub data Fields : Type 0 where
    end : Fields
    field : String → Json → Fields → Fields

-- `current.get(part)`
abbrev pub get : String → Fields → Json
get k end = null
get k (field j v rest) = if j == k then v else get k rest

abbrev pub nth : ℕ → Items → Option Json
nth n done = none
nth zero (item v rest) = some v
nth (suc n) (item v rest) = nth n rest

abbrev pub size : Items → ℕ
size done = 0
size (item v rest) = suc (size rest)

abbrev pub is_null : Json → Bool
is_null null = true
is_null _ = false

-- `f(item) if isinstance(item, dict) else None`
abbrev pub on_object : (Json → Json) → Json → Json
on_object f (object fields) = f (object fields)
on_object f _ = null

-- `parts[parts.index("*") + 1:]`
abbrev pub after_star : List String → List String
after_star [] = []
after_star (p ∷ ps) = if p == "*" then ps else after_star ps

-- joined and split again, no parts are one empty part
abbrev pub split_again : List String → List String
split_again [] = "" ∷ []
split_again (p ∷ ps) = p ∷ ps

-- `t in v`
abbrev pub occurs : String → String → Bool
occurs t String.[] = t == ""
occurs t (String.◌∷◌ c v) = starts_with (String.◌∷◌ c v) t || occurs t v

-- What the program leaves to Python: `int(part)`, `str(v)`, `float(v)` of `_num` with its order, and
-- `re.search`, which may raise.
pub record Python : Type 1 where
  pub Float : Type 0
  -- whether the index counts from the end, and how far
  pub int : String → Option (Bool × ℕ)
  pub str : Json → String
  pub num : Json → Float
  pub nonzero : String → Bool
  pub less : Float → Float → Bool
  pub at_most : Float → Float → Bool
  pub search : String → String → Option Bool

module _ (py : Python) where
  -- `current[int(part)]`, null where that raises
  unfoldable pub index : String → Items → Json
  index part items = elim (py.int part) [
    | none ↦ null
    | some (from_end, n) ↦
        if from_end
        then (if leb n (size items) && ltb 0 n
            then or_else (nth (size items - n) items) null
            else null)
        else or_else (nth n items) null
  ]

  -- The loop of `extract_field`; `wild` is what a wildcard makes of a list.
  unfoldable pub walk : (Items → Json) → List String → Json → Json
  unfolding index
  walk wild [] current = current
  walk wild (p ∷ ps) (object fields) = walk wild ps (get p fields)
  walk wild (p ∷ ps) (array items) =
      let rest = walk wild ps (index p items) in if p == "*" then wild items else rest
  walk wild (p ∷ ps) null = null
  walk wild (p ∷ ps) (boolean b) = null
  walk wild (p ∷ ps) (number n) = null
  walk wild (p ∷ ps) (text t) = null

  -- the first item that is an object in which something is found
  abbrev pub first_found : (Json → Json) → Items → Json
  first_found f done = null
  first_found f (item v rest) =
      let found = on_object f v in
      let others = first_found f rest in if is_null found then others else found

  -- A wildcard starts again on the items, with the parts after the first "*" of the whole path.
  unfoldable pub extract : ℕ → List String → Json → Json
  unfolding walk
  extract zero parts data' = null
  extract (suc fuel) parts data' =
      walk (first_found (extract fuel (split_again (after_star parts)))) parts data'

  -- every start has one "*" less, and there are no more of them than parts
  unfoldable pub extract_field : Json → String → Json
  unfolding extract
  extract_field data' path = let parts = split 46 path in extract (suc (length parts)) parts data'

  abbrev truthy : Json → Bool
  truthy null = false
  truthy (boolean b) = b
  truthy (number n) = py.nonzero n
  truthy (text t) = contains (lower t) ("true" ∷ "1" ∷ "yes" ∷ "on" ∷ [])
  truthy (array done) = false
  truthy (array (item v rest)) = true
  truthy (object end) = false
  truthy (object (field k v rest)) = true

  abbrev lowered : Json → String
  lowered v = lower (py.str v)

  abbrev negated : Option Bool → Option Bool
  negated none = none
  negated (some b) = some (not b)

  -- `OPERATORS.get(name)`: a test of a value and a threshold, which may raise
  unfoldable pub operator : String → Option (Json → Json → Option Bool)
  operator name =
      if name == "gt"
      then some (λ v t. some (py.less (py.num t) (py.num v)))
      else if name == "lt"
      then some (λ v t. some (py.less (py.num v) (py.num t)))
      else if name == "gte"
      then some (λ v t. some (py.at_most (py.num t) (py.num v)))
      else if name == "lte"
      then some (λ v t. some (py.at_most (py.num v) (py.num t)))
      else if name == "eq"
      then some (λ v t. some (lowered v == lowered t))
      else if name == "ne"
      then some (λ v t. some (not (lowered v == lowered t)))
      else if name == "contains"
      then some (λ v t. some (occurs (lowered t) (lowered v)))
      else if name == "not_contains"
      then some (λ v t. some (not (occurs (lowered t) (lowered v))))
      else if name == "regex"
      then some (λ v t. py.search (py.str t) (py.str v))
      else if name == "not_regex"
      then some (λ v t. negated (py.search (py.str t) (py.str v)))
      else if name == "is_true"
      then some (λ v t. some (truthy v))
      else if name == "is_false"
      then some (λ v t. some (not (truthy v)))
      else none
