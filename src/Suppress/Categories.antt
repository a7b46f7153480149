-- ===== src/Suppress/Categories.antt =====
-- cpplint.py: the tables of error categories.
use dyod_ws1718_sprint.Common.{List, [], ◌∷◌}
use dyod_ws1718_sprint.Text.{Str, lit}

unfoldable pub error_categories : List Str
error_categories =
    lit "build/class"
    ∷ lit "build/c++11"
    ∷ lit "build/c++14"
    ∷ lit "build/c++tr1"
    ∷ lit "build/deprecated"
    ∷ lit "build/endif_comment"
    ∷ lit "build/explicit_make_pair"
    ∷ lit "build/forward_decl"
    ∷ lit "build/header_guard"
    ∷ lit "build/include"
    ∷ lit "build/include_alpha"
    ∷ lit "build/include_order"
    ∷ lit "build/include_what_you_use"
    ∷ lit "build/namespaces"
    ∷ lit "build/printf_format"
    ∷ lit "build/storage_class"
    ∷ lit "legal/copyright"
    ∷ lit "readability/alt_tokens"
    ∷ lit "readability/braces"
    ∷ lit "readability/casting"
    ∷ lit "readability/check"
    ∷ lit "readability/constructors"
    ∷ lit "readability/fn_size"
    ∷ lit "readability/inheritance"
    ∷ lit "readability/multiline_comment"
    ∷ lit "readability/multiline_string"
    ∷ lit "readability/namespace"
    ∷ lit "readability/nolint"
    ∷ lit "readability/nul"
    ∷ lit "readability/strings"
    ∷ lit "readability/todo"
    ∷ lit "readability/utf8"
    ∷ lit "runtime/arrays"
    ∷ lit "runtime/casting"
    ∷ lit "runtime/explicit"
    ∷ lit "runtime/int"
    ∷ lit "runtime/init"
    ∷ lit "runtime/invalid_increment"
    ∷ lit "runtime/member_string_references"
    ∷ lit "runtime/memset"
    ∷ lit "runtime/indentation_namespace"
    ∷ lit "runtime/operator"
    ∷ lit "runtime/printf"
    ∷ lit "runtime/printf_format"
    ∷ lit "runtime/references"
    ∷ lit "runtime/string"
    ∷ lit "runtime/threadsafe_fn"
    ∷ lit "runtime/vlog"
    ∷ lit "whitespace/blank_line"
    ∷ lit "whitespace/braces"
    ∷ lit "whitespace/comma"
    ∷ lit "whitespace/comments"
    ∷ lit "whitespace/empty_conditional_body"
    ∷ lit "whitespace/empty_if_body"
    ∷ lit "whitespace/empty_loop_body"
    ∷ lit "whitespace/end_of_line"
    ∷ lit "whitespace/ending_newline"
    ∷ lit "whitespace/forcolon"
    ∷ lit "whitespace/indent"
    ∷ lit "whitespace/line_length"
    ∷ lit "whitespace/newline"
    ∷ lit "whitespace/operators"
    ∷ lit "whitespace/parens"
    ∷ lit "whitespace/semicolon"
    ∷ lit "whitespace/tab"
    ∷ lit "whitespace/todo"
    ∷ []

unfoldable pub legacy_error_categories : List Str
legacy_error_categories = lit "readability/streams" ∷ lit "readability/function" ∷ []

unfoldable pub default_c_suppressed_categories : List Str
default_c_suppressed_categories = lit "readability/casting" ∷ []

unfoldable pub default_kernel_suppressed_categories : List Str
default_kernel_suppressed_categories = lit "whitespace/tab" ∷ []
