-- ===== src/Samples/Modules.antt =====
-- A source file and its header, with a prefix between them.
use dyod_ws1718_sprint.Common.{◌≡◌, refl, Bool, true, false, ◌&&◌}
use dyod_ws1718_sprint.Text.{Str, lit, ends_with, mem_text, str_eq, rfind_char, replace}
use dyod_ws1718_sprint.Regex.{search, group_or}
use dyod_ws1718_sprint.Report.{ok}
use dyod_ws1718_sprint.Paths.Info.{repository_name, is_source, base_name}
use dyod_ws1718_sprint.Paths.{splitext, split}
use dyod_ws1718_sprint.Modules.{source_stem, header_stem, files_belong_to_same_module}
use dyod_ws1718_sprint.Modules.Prefix.{Belongs, files_belong_to_same_module-Belongs}

abbrev as_given : Str → Str
as_given name = name

abbrev none_there : Str → Bool
none_there name = false

prefix_found :
    files_belong_to_same_module as_given none_there (lit "/b/base/info_test.cc") (lit "base/info.h")
    ≡ ok (true, lit "/b/")
unfolding files_belong_to_same_module search group_or lit is_source mem_text str_eq splitext
    rfind_char split repository_name replace ends_with base_name
prefix_found = refl

name_as_given :
    repository_name as_given none_there (lit "/b/base/info.cc") ≡ ok (lit "/b/base/info.cc")
unfolding repository_name lit replace
name_as_given = refl

files_belong_to_same_module-Belongs_example :
    (r : Bool × Str) × (files_belong_to_same_module as_given none_there
        (lit "/b/base/info.cc")
        (lit "base/info.h")
      ≡ ok r)
    × Belongs
        (is_source (lit "/b/base/info.cc")
          && ends_with (lit "base/info.h") (lit ".h")
          && ends_with
              (source_stem (lit "/b/base/info.cc") (lit "/b/base/info.cc"))
              (header_stem (lit "base/info.h")))
        (source_stem (lit "/b/base/info.cc") (lit "/b/base/info.cc"))
        (header_stem (lit "base/info.h"))
        r
files_belong_to_same_module-Belongs_example =
    files_belong_to_same_module-Belongs as_given none_there (lit "/b/base/info.cc")
      (lit "base/info.h") (lit "/b/base/info.cc") name_as_given
