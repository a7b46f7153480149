-- ===== src/Samples/Processing.antt =====
-- `ProcessFileData` on a small file.
use dyod_ws1718_sprint.Common.{List, [], ◌∷◌}
use dyod_ws1718_sprint.Text.{Str, lit}

abbrev small_file : List Str
small_file = lit "// Copyright 2017" ∷ lit "namespace a {" ∷ lit "  class B;" ∷ lit "}" ∷ []
