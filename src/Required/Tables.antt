-- ===== src/Required/Tables.antt =====
-- `_HEADERS_CONTAINING_TEMPLATES` and `_HEADERS_MAYBE_TEMPLATES`: headers with the names they give.
use dyod_ws1718_sprint.Common.{List, [], ◌∷◌}
use dyod_ws1718_sprint.Text.{Str, lit}

abbrev pub headers_containing_templates : List (Str × List Str)
headers_containing_templates =
    (lit "<deque>", lit "deque" ∷ [])
    ∷ (
      lit "<functional>",
      lit "unary_function"
          ∷ lit "binary_function"
          ∷ lit "plus"
          ∷ lit "minus"
          ∷ lit "multiplies"
          ∷ lit "divides"
          ∷ lit "modulus"
          ∷ lit "negate"
          ∷ lit "equal_to"
          ∷ lit "not_equal_to"
          ∷ lit "greater"
          ∷ lit "less"
          ∷ lit "greater_equal"
          ∷ lit "less_equal"
          ∷ lit "logical_and"
          ∷ lit "logical_or"
          ∷ lit "logical_not"
          ∷ lit "unary_negate"
          ∷ lit "not1"
          ∷ lit "binary_negate"
          ∷ lit "not2"
          ∷ lit "bind1st"
          ∷ lit "bind2nd"
          ∷ lit "pointer_to_unary_function"
          ∷ lit "pointer_to_binary_function"
          ∷ lit "ptr_fun"
          ∷ lit "mem_fun_t"
          ∷ lit "mem_fun"
          ∷ lit "mem_fun1_t"
          ∷ lit "mem_fun1_ref_t"
          ∷ lit "mem_fun_ref_t"
          ∷ lit "const_mem_fun_t"
          ∷ lit "const_mem_fun1_t"
          ∷ lit "const_mem_fun_ref_t"
          ∷ lit "const_mem_fun1_ref_t"
          ∷ lit "mem_fun_ref"
          ∷ [],
    )
    ∷ (lit "<limits>", lit "numeric_limits" ∷ [])
    ∷ (lit "<list>", lit "list" ∷ [])
    ∷ (lit "<map>", lit "map" ∷ lit "multimap" ∷ [])
    ∷ (
      lit "<memory>",
      lit "allocator"
          ∷ lit "make_shared"
          ∷ lit "make_unique"
          ∷ lit "shared_ptr"
          ∷ lit "unique_ptr"
          ∷ lit "weak_ptr"
          ∷ [],
    )
    ∷ (lit "<queue>", lit "queue" ∷ lit "priority_queue" ∷ [])
    ∷ (lit "<set>", lit "set" ∷ lit "multiset" ∷ [])
    ∷ (lit "<stack>", lit "stack" ∷ [])
    ∷ (lit "<string>", lit "char_traits" ∷ lit "basic_string" ∷ [])
    ∷ (lit "<tuple>", lit "tuple" ∷ [])
    ∷ (lit "<unordered_map>", lit "unordered_map" ∷ lit "unordered_multimap" ∷ [])
    ∷ (lit "<unordered_set>", lit "unordered_set" ∷ lit "unordered_multiset" ∷ [])
    ∷ (lit "<utility>", lit "pair" ∷ [])
    ∷ (lit "<vector>", lit "vector" ∷ [])
    ∷ (lit "<hash_map>", lit "hash_map" ∷ lit "hash_multimap" ∷ [])
    ∷ (lit "<hash_set>", lit "hash_set" ∷ lit "hash_multiset" ∷ [])
    ∷ (lit "<slist>", lit "slist" ∷ [])
    ∷ []

abbrev pub headers_maybe_templates : List (Str × List Str)
headers_maybe_templates =
    (
      lit "<algorithm>",
      lit "copy" ∷ lit "max" ∷ lit "min" ∷ lit "min_element" ∷ lit "sort" ∷ lit "transform" ∷ [],
    )
    ∷ (lit "<utility>", lit "forward" ∷ lit "make_pair" ∷ lit "move" ∷ lit "swap" ∷ [])
    ∷ []
