-- ===== src/Uri/Query.antt =====
-- uri/_parse.py: the query of a connection URI. Its pairs are what `parse_qsl` gives.
pub mod Values
pub mod Strict
use hostctl.Prelude.{
  ℕ, String, str_eq, Bool, true, false, not, ◌||◌, ◌&&◌, Option, none, some, List, [], ◌∷◌, ◌++◌,
  map, codes, contains, member, all, filter_by, if◌then◌else◌, ◌==◌,
}
use hostctl.Prelude.Dict.{Dict, get, put, has_key}
use hostctl.Prelude.Sorting.{sorted}
use hostctl.Provider.Failover.{is_name_start, is_name_rest}

-- `_PARAMETER_NAME.fullmatch`
unfoldable pub is_parameter_name : List ℕ → Bool
unfolding is_name_start is_name_rest
is_parameter_name [] = false
is_parameter_name (c ∷ cs) =
    is_name_start c && all (λ d. is_name_rest d || d == b'.' || d == b'-') cs

-- How a refusal names a parameter.
pub data Label : Type 0 where
  shown : String → Label
  not_shown : Label

-- `_parameter_label`
unfoldable pub parameter_label : String → String → Label
unfolding is_parameter_name
parameter_label query key =
    if is_parameter_name (codes key) && not (member b'@' (codes query))
    then shown key
    else not_shown

-- A value, or the tuple of the values of a repeatable key.
pub data Parameter : Type 0 where
  single : String → Parameter
  several : List String → Parameter

-- The messages of `ValueError`; `not_a_tuple` is the `TypeError` of adding a tuple to a string.
pub data Refusal : Type 0 where
  duplicate unknown : Label → Refusal
  not_a_tuple : Refusal

pub data Parsed : Type 0 where
  parsed : Dict Parameter → Parsed
  refused : Refusal → Parsed

abbrev pub then_parsed : Parsed → (Dict Parameter → Parsed) → Parsed
then_parsed (parsed found) next = next found
then_parsed (refused e) next = refused e

-- `query[key] = query.get(key, ()) + (value,)`
unfoldable pub repeat_value : String → String → Dict Parameter → Option Parameter → Parsed
repeat_value key value found none = parsed (put key (several (value ∷ [])) found)
repeat_value key value found (some (several vs)) =
    parsed (put key (several (vs ++ value ∷ [])) found)
repeat_value key value found (some (single v)) = refused not_a_tuple

-- A key that is not repeatable.
unfoldable pub single_value : String → String → String → Dict Parameter → Option Parameter → Parsed
unfolding parameter_label
single_value query key value found (some before) = refused (duplicate (parameter_label query key))
single_value query key value found none = parsed (put key (single value) found)

-- One round of the loop of `strict_uri_query`.
unfoldable pub add_pair : List String → String → String × String → Dict Parameter → Parsed
unfolding repeat_value single_value
add_pair repeated query pair found =
    if contains repeated pair.0
    then repeat_value pair.0 pair.1 found (get pair.0 found)
    else single_value query pair.0 pair.1 found (get pair.0 found)

unfoldable pub add_pairs : List String → String → List (String × String) → Dict Parameter → Parsed
unfolding add_pair
add_pairs repeated query [] found = parsed found
add_pairs repeated query (pair ∷ rest) found =
    then_parsed (add_pair repeated query pair found) (add_pairs repeated query rest)

-- `sorted(set(query) - set(allowed))`
unfoldable pub unknown_keys : List String → Dict Parameter → List String
unknown_keys allowed found =
    sorted (filter_by (λ key. not (contains allowed key)) (map (λ entry. entry.0) found))

unfoldable pub refuse_unknown : String → Dict Parameter → List String → Parsed
unfolding parameter_label
refuse_unknown query found [] = parsed found
refuse_unknown query found (key ∷ keys) = refused (unknown (parameter_label query key))

-- `strict_uri_query`
unfoldable pub strict_uri_query :
    List String → List String → String → List (String × String) → Parsed
unfolding add_pairs unknown_keys refuse_unknown
strict_uri_query allowed repeated query pairs =
    then_parsed (add_pairs repeated query pairs [])
      (λ found. refuse_unknown query found (unknown_keys allowed found))
